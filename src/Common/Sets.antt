-- ===== src/Common/Sets.antt =====
-- Python's sets of texts, as lists without order that the code sorts before it walks them.
use Prim.Native.String.{String}
use mathlib.Core.Path.{◌≡◌, refl}
use mathlib.Core.Logic.{inl, inr}
use mathlib.Core.Bool.{Bool, true, false, ◌&&◌, ◌||◌}
use mathlib.Core.Option.{Option, none, some}
use mathlib.Core.List.{List, [], ◌∷◌}
use native.Mathlib.Omega.{arith}
use text.Mathlib.Text.{◌==◌ as str_eq}
use text.Mathlib.TextEquality.{eq_iff}
use understudy.Common.Tests.{if◌then◌else◌, Bool-cases}
use understudy.Common.Lists.{All, is_empty}
use understudy.Common.Text.{str_leb}

-- `x in xs`
abbrev pub member : String → List String → Bool
member x [] = false
member x (y ∷ ys) = str_eq x y || member x ys

-- `d[k]` of a dict that is a list of its items
abbrev pub lookup_in {ℓ} : {A : Type ℓ} → String → List (String × A) → Option A
lookup_in k [] = none
lookup_in k ((j, v) ∷ rest) = if str_eq k j then some v else lookup_in k rest

-- `xs.add(x)`
unfoldable pub add : String → List String → List String
add x xs = if member x xs then xs else x ∷ xs

-- `set(xs)`
unfoldable pub set_of : List String → List String
unfolding add
set_of [] = []
set_of (x ∷ xs) = add x (set_of xs)

-- `xs | ys`: each element of `ys` added to `xs`
unfoldable pub union : List String → List String → List String
unfolding add
union xs [] = xs
union xs (y ∷ ys) = union (add y xs) ys

unfoldable pub insert_sorted : String → List String → List String
insert_sorted x [] = x ∷ []
insert_sorted x (y ∷ ys) = if str_leb x y then x ∷ y ∷ ys else y ∷ insert_sorted x ys

-- `sorted(xs)`
unfoldable pub sorted : List String → List String
unfolding insert_sorted
sorted [] = []
sorted (x ∷ xs) = insert_sorted x (sorted xs)

-- `xs <= ys` on sets
abbrev pub is_subset : List String → List String → Bool
is_subset [] ys = true
is_subset (x ∷ xs) ys = member x ys && is_subset xs ys

pub member-add :
    (x y : String) (xs : List String) → member x (add y xs) ≡ (str_eq x y || member x xs)
unfolding add
member-add x y xs = elim (Bool-cases (member y xs)) [
  | inl h ↦ elim (Bool-cases (str_eq x y)) [
    | inl e ↦ ground (arith, eq_iff x y)
    | inr e ↦ ground arith
  ]
  | inr h ↦ ground arith
]

pub member-set_of : (x : String) (xs : List String) → member x (set_of xs) ≡ member x xs
unfolding set_of
member-set_of x [] = refl
member-set_of x (y ∷ ys) = ground (arith, member-add x y (set_of ys), member-set_of x ys)

pub member-union :
    (x : String) (xs ys : List String) → member x (union xs ys) ≡ (member x xs || member x ys)
unfolding union
member-union x xs [] = ground arith
member-union x xs (y ∷ ys) = ground (arith, member-union x (add y xs) ys, member-add x y xs)

member-insert_sorted :
    (x y : String) (xs : List String) → member x (insert_sorted y xs) ≡ (str_eq x y || member x xs)
unfolding insert_sorted
member-insert_sorted x y [] = refl
member-insert_sorted x y (z ∷ zs) = ground (arith, member-insert_sorted x y zs)

pub member-sorted : (x : String) (xs : List String) → member x (sorted xs) ≡ member x xs
unfolding sorted
member-sorted x [] = refl
member-sorted x (y ∷ ys) = ground (arith, member-insert_sorted x y (sorted ys), member-sorted x ys)

pub All-member :
    (P : String → Type 0) (x : String) (xs : List String) → All P xs → member x xs ≡ true → P x
All-member P x [] h e = cc
All-member P x (y ∷ ys) h e = elim (Bool-cases (str_eq x y)) [
  | inl q ↦ rw ((eq_iff x y).0 q) h.0
  | inr q ↦ All-member P x ys h.1 (rw q at e)
]

pub empty-member : (x : String) (xs : List String) → is_empty xs ≡ true → member x xs ≡ true → ⊥
empty-member x [] e h = cc
empty-member x (y ∷ ys) e h = cc
