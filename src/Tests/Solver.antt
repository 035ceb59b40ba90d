-- ===== src/Tests/Solver.antt =====
-- A solver that substitutes: it reads the values that the asserted equations give to constants, and
-- answers `unsat` where a formula is false at these values.
use understudy.Common.{
  String, Bool, true, false, not, ◌&&◌, ◌||◌, Option, none, some, List, [], ◌∷◌, ℤ, ◌+ℤ◌, leb_ℤ,
  eqb_ℤ, Ratio, leb_ratio, eqb_ratio, eqb_ratio_refl, eqb_ratio_sym, ratio-le_of_eq, ratio-ge_of_eq,
  str_eq, eq_iff, if◌then◌else◌, ◌≡◌, refl, sym, ◌∙◌, Bool-cases, Option-cases, inl, inr, arith,
  ◌⊎◌, &&-left, &&-right,
}
use understudy.Kernel.Facts.{
  FactName, name_eq, name_eq_iff, Scalar, int, bool, real, str, time, ref, mapping,
}
use understudy.Kernel.Term.{
  Sort, int_sort, bool_sort, real_sort, string_sort, Term, const, lit, plus, Formula, constant,
  truth, eq, ge, le, negation, conj, disj, Model, eval, holds, holds_all, scalar_eq, scalar_le,
  scalar_truth, unsat, unknown, Solver, IsSound,
}

abbrev Env : Type 0
Env = List (Term × Scalar)

abbrev same_sort : Sort → Sort → Bool
same_sort int_sort int_sort = true
same_sort bool_sort bool_sort = true
same_sort real_sort real_sort = true
same_sort string_sort string_sort = true
same_sort _ _ = false

-- The equation of a constant with a value.
abbrev binding : Formula → Option (Sort × FactName × Scalar)
binding (eq (const int_sort n) (lit (int v))) = some (int_sort, n, int v)
binding (eq (const bool_sort n) (lit (bool v))) = some (bool_sort, n, bool v)
binding (eq (const real_sort n) (lit (real v))) = some (real_sort, n, real v)
binding (eq (const string_sort n) (lit (str v))) = some (string_sort, n, str v)
binding _ = none

abbrev find : Sort → FactName → List Formula → Option Scalar
find s n [] = none
find s n (f ∷ fs) = elim (binding f) [
  | some (r, k, v) ↦ if same_sort s r && name_eq n k then some v else find s n fs
  | none ↦ find s n fs
]

module _ (fs : List Formula) where
  val : Term → Option Scalar
  val (const s n) = find s n fs
  val (lit (int n)) = some (int n)
  val (lit (bool b)) = some (bool b)
  val (lit (real r)) = some (real r)
  val (lit (str s)) = some (str s)
  val (lit (time t)) = none
  val (lit (ref r)) = none
  val (lit (mapping kvs)) = none
  val (plus a b) = elim (val a) [
    | some (int m) ↦ elim (val b) [ some (int n) ↦ some (int (m +ℤ n)) | _ ↦ none ]
    | _ ↦ none
  ]

  abbrev at_most : Option Scalar → Option Scalar → Option Bool
  at_most (some (int a)) (some (int b)) = some (leb_ℤ a b)
  at_most (some (real a)) (some (real b)) = some (leb_ratio a b)
  at_most _ _ = none

  abbrev equal : Option Scalar → Option Scalar → Option Bool
  equal (some (str a)) (some (str b)) = some (str_eq a b)
  equal (some (int a)) (some (int b)) = some (eqb_ℤ a b)
  equal _ _ = none

  abbrev as_truth : Option Scalar → Option Bool
  as_truth (some (bool b)) = some b
  as_truth _ = none

  abbrev both : (Bool → Bool → Bool) → Option Bool → Option Bool → Option Bool
  both f (some a) (some b) = some (f a b)
  both f _ _ = none

  abbrev opposite : Option Bool → Option Bool
  opposite (some b) = some (not b)
  opposite none = none

  decide : Formula → Option Bool
  unfolding val
  decide (constant b) = some b
  decide (truth t) = as_truth (val t)
  decide (eq a b) = equal (val a) (val b)
  decide (ge a b) = at_most (val b) (val a)
  decide (le a b) = at_most (val a) (val b)
  decide (negation f) = opposite (decide f)
  decide (conj f g) = both (λ a b. a && b) (decide f) (decide g)
  decide (disj f g) = both (λ a b. a || b) (decide f) (decide g)

  abbrev is_false : Option Bool → Bool
  is_false (some false) = true
  is_false _ = false

  any_false : List Formula → Bool
  unfolding decide
  any_false [] = false
  any_false (g ∷ gs) = is_false (decide g) || any_false gs

unfoldable pub substituting : Solver
unfolding any_false decide val
substituting t fs = if any_false fs fs then unsat else unknown

-- Values of one kind, and real ones as fractions.
abbrev Same : Scalar → Scalar → Type 0
Same (int a) (int b) = a ≡ b
Same (bool a) (bool b) = a ≡ b
Same (real a) (real b) = eqb_ratio a b ≡ true
Same (str a) (str b) = a ≡ b
Same _ _ = ⊥

same_sort-eq : (s r : Sort) → same_sort s r ≡ true → s ≡ r
same_sort-eq int_sort int_sort e = refl
same_sort-eq bool_sort bool_sort e = refl
same_sort-eq real_sort real_sort e = refl
same_sort-eq string_sort string_sort e = refl
same_sort-eq s r e = cc

eqb_ℤ-eq : (a b : ℤ) → eqb_ℤ a b ≡ true → a ≡ b
eqb_ℤ-eq a b e = ground arith

bool-eq : (a b : Bool) → scalar_eq (bool a) (bool b) ≡ true → a ≡ b
bool-eq true b e = sym e
bool-eq false true e = cc
bool-eq false false e = refl

binding-Same :
    (m : Model) (f : Formula) (s : Sort) (n : FactName) (v : Scalar)
    → binding f ≡ some (s, n, v)
    → holds m f ≡ true
    → Same (eval m (const s n)) v
binding-Same m (eq (const int_sort k) (lit (int w))) s n v e h =
    let es : s ≡ int_sort = cc in
    let en : n ≡ k = cc in let ev : v ≡ int w = cc in rw (es, en, ev) (eqb_ℤ-eq (m.ints k) w h)
binding-Same m (eq (const bool_sort k) (lit (bool w))) s n v e h =
    let es : s ≡ bool_sort = cc in
    let en : n ≡ k = cc in let ev : v ≡ bool w = cc in rw (es, en, ev) (bool-eq (m.bools k) w h)
binding-Same m (eq (const real_sort k) (lit (real w))) s n v e h =
    let es : s ≡ real_sort = cc in
    let en : n ≡ k = cc in let ev : v ≡ real w = cc in rw (es, en, ev) h
binding-Same m (eq (const string_sort k) (lit (str w))) s n v e h =
    let es : s ≡ string_sort = cc in
    let en : n ≡ k = cc in let ev : v ≡ str w = cc in rw (es, en, ev) ((eq_iff (m.strings k) w).0 h)
binding-Same m f s n v e h = cc

find-Same :
    (m : Model) (s : Sort) (n : FactName) (fs : List Formula) (v : Scalar)
    → holds_all m fs ≡ true
    → find s n fs ≡ some v
    → Same (eval m (const s n)) v
find-Same m s n [] v h e = cc
find-Same m s n (f ∷ fs) v h e = elim (binding-cases (binding f)) [
  | inl q ↦ find-Same m s n fs v (&&-right (holds m f) _ h) (rw (q, find) at e)
  | inr (r, k, w, q) ↦ elim (Bool-cases (same_sort s r && name_eq n k)) [
    | inl p ↦
        let e' = rw (q, find, p) at e in
        let ew : w ≡ v = cc in
        let es = same_sort-eq s r (&&-left _ _ p) in
        let en = (name_eq_iff n k).0 (&&-right (same_sort s r) _ p) in
        rw (es, en, ← ew) (binding-Same m f r k w q (&&-left _ _ h))
    | inr p ↦ find-Same m s n fs v (&&-right (holds m f) _ h) (rw (q, find, p) at e)
  ]
]
  where
    binding-cases :
        (o : Option (Sort × FactName × Scalar))
        → (o ≡ none) ⊎ ((r : Sort) × (k : FactName) × (w : Scalar) × (o ≡ some (r, k, w)))
    binding-cases none = inl refl
    binding-cases (some (r, k, w)) = inr (r, k, w, refl)

-- A value that a term has in every model of the equations.
abbrev Gives : Model → Term → Option Scalar → Type 0
Gives m t none = Unit
Gives m t (some v) = Same (eval m t) v

int_of : (x : Scalar) (n : ℤ) → Same x (int n) → x ≡ int n
int_of (int x) n e = rw e refl
int_of x n e = absurd e

real_of :
    (x : Scalar) (r : Ratio) → Same x (real r) → (q : Ratio) × (x ≡ real q) × (eqb_ratio q r ≡ true)
real_of (real q) r e = (q, refl, e)
real_of x r e = absurd e

str_of : (x : Scalar) (t : String) → Same x (str t) → x ≡ str t
str_of (str x) t e = rw e refl
str_of x t e = absurd e

bool_of : (x : Scalar) (b : Bool) → Same x (bool b) → x ≡ bool b
bool_of (bool x) b e = rw e refl
bool_of x b e = absurd e

leb_ratio-Same :
    (a b c d : Ratio) → eqb_ratio a c ≡ true → eqb_ratio b d ≡ true → leb_ratio a b ≡ leb_ratio c d
leb_ratio-Same a b c d e f = elim (Bool-cases (leb_ratio a b)) [
  | inl p ↦ p ∙ sym (ratio-le_of_eq a c d e (ratio-ge_of_eq b d a f p))
  | inr p ↦ elim (Bool-cases (leb_ratio c d)) [
    | inr q ↦ p ∙ sym q
    | inl q ↦
        let back =
          ratio-le_of_eq c a b (eqb_ratio_sym a c e)
            (ratio-ge_of_eq d b c (eqb_ratio_sym b d f) q) in
        cc
  ]
]

-- The truth of a formula in every model of the equations, where it is known.
abbrev Settles : Bool → Option Bool → Type 0
Settles b none = Unit
Settles b (some c) = b ≡ c

Gives-plus :
    (m : Model) (a b : Term) (x y : Option Scalar)
    → Gives m a x
    → Gives m b y
    → Gives m (plus a b) (elim x [
      | some (int p) ↦ elim y [ some (int n) ↦ some (int (p +ℤ n)) | _ ↦ none ]
      | _ ↦ none
    ])
Gives-plus m a b (some (int p)) (some (int n)) ga gb =
    rw (int_of (eval m a) p ga, int_of (eval m b) n gb) refl
Gives-plus m a b x y ga gb = tt

val-Gives :
    (m : Model) (fs : List Formula) → holds_all m fs ≡ true → (t : Term) → Gives m t (val fs t)
unfolding val
val-Gives m fs h (const s n) = elim (Option-cases (find s n fs)) [
  | inl e ↦ rw e tt
  | inr (v, e) ↦ rw e (find-Same m s n fs v h e)
]
val-Gives m fs h (lit (int n)) = refl
val-Gives m fs h (lit (bool b)) = refl
val-Gives m fs h (lit (real r)) = eqb_ratio_refl r
val-Gives m fs h (lit (str s)) = refl
val-Gives m fs h (lit (time t)) = tt
val-Gives m fs h (lit (ref r)) = tt
val-Gives m fs h (lit (mapping kvs)) = tt
val-Gives m fs h (plus a b) =
    Gives-plus m a b (val fs a) (val fs b) (val-Gives m fs h a) (val-Gives m fs h b)

Settles-at_most :
    (m : Model) (fs : List Formula) (a b : Term) (x y : Option Scalar)
    → Gives m a x
    → Gives m b y
    → Settles (scalar_le (eval m a) (eval m b)) (at_most fs x y)
Settles-at_most m fs a b (some (int p)) (some (int n)) ga gb =
    rw (int_of (eval m a) p ga, int_of (eval m b) n gb) refl
Settles-at_most m fs a b (some (real p)) (some (real n)) ga gb =
    let (q, e, same) = real_of (eval m a) p ga in
    let (r, f, same') = real_of (eval m b) n gb in rw (e, f) (leb_ratio-Same q r p n same same')
Settles-at_most m fs a b x y ga gb = tt

Settles-equal :
    (m : Model) (fs : List Formula) (a b : Term) (x y : Option Scalar)
    → Gives m a x
    → Gives m b y
    → Settles (scalar_eq (eval m a) (eval m b)) (equal fs x y)
Settles-equal m fs a b (some (str p)) (some (str n)) ga gb =
    rw (str_of (eval m a) p ga, str_of (eval m b) n gb) refl
Settles-equal m fs a b (some (int p)) (some (int n)) ga gb =
    rw (int_of (eval m a) p ga, int_of (eval m b) n gb) refl
Settles-equal m fs a b x y ga gb = tt

Settles-truth :
    (m : Model) (fs : List Formula) (a : Term) (x : Option Scalar)
    → Gives m a x
    → Settles (scalar_truth (eval m a)) (as_truth fs x)
Settles-truth m fs a (some (bool p)) ga = rw (bool_of (eval m a) p ga) refl
Settles-truth m fs a x ga = tt

Settles-both :
    (fs : List Formula) (f : Bool → Bool → Bool) (a b : Bool) (x y : Option Bool)
    → Settles a x
    → Settles b y
    → Settles (f a b) (both fs f x y)
Settles-both fs f a b (some c) (some d) e h = rw (e, h) refl
Settles-both fs f a b x y e h = tt

decide-Settles :
    (m : Model) (fs : List Formula)
    → holds_all m fs ≡ true
    → (f : Formula) → Settles (holds m f) (decide fs f)
unfolding decide
decide-Settles m fs h (constant b) = refl
decide-Settles m fs h (truth t) = Settles-truth m fs t (val fs t) (val-Gives m fs h t)
decide-Settles m fs h (eq a b) =
    Settles-equal m fs a b (val fs a) (val fs b) (val-Gives m fs h a) (val-Gives m fs h b)
decide-Settles m fs h (ge a b) =
    Settles-at_most m fs b a (val fs b) (val fs a) (val-Gives m fs h b) (val-Gives m fs h a)
decide-Settles m fs h (le a b) =
    Settles-at_most m fs a b (val fs a) (val fs b) (val-Gives m fs h a) (val-Gives m fs h b)
decide-Settles m fs h (negation f) = elim (Option-cases (decide fs f)) [
  | inl e ↦ rw e tt
  | inr (c, e) ↦ let s = decide-Settles m fs h f in let s' = rw e at s in rw (e, s') refl
]
decide-Settles m fs h (conj f g) =
    Settles-both fs (λ a b. a && b) (holds m f) (holds m g) (decide fs f) (decide fs g)
      (decide-Settles m fs h f) (decide-Settles m fs h g)
decide-Settles m fs h (disj f g) =
    Settles-both fs (λ a b. a || b) (holds m f) (holds m g) (decide fs f) (decide fs g)
      (decide-Settles m fs h f) (decide-Settles m fs h g)

is_false-eq : (fs : List Formula) (o : Option Bool) → is_false fs o ≡ true → o ≡ some false
is_false-eq fs (some false) e = refl
is_false-eq fs o e = cc

any_false-fails :
    (m : Model) (fs gs : List Formula)
    → holds_all m fs ≡ true
    → holds_all m gs ≡ true
    → any_false fs gs ≡ true
    → ⊥
unfolding any_false
any_false-fails m fs [] h k e = cc
any_false-fails m fs (g ∷ gs) h k e = elim (Bool-cases (is_false fs (decide fs g))) [
  | inl q ↦
      let s = decide-Settles m fs h g in
      let s' = rw (is_false-eq fs (decide fs g) q) at s in let t = &&-left (holds m g) _ k in cc
  | inr q ↦ any_false-fails m fs gs h (&&-right (holds m g) _ k) (rw q at e)
]

pub substituting-IsSound : IsSound substituting
unfolding substituting
substituting-IsSound = record {
  unsat_sound = λ t fs m e. elim (Bool-cases (any_false fs fs)) [
    | inl q ↦ elim (Bool-cases (holds_all m fs)) [
      | inl h ↦ absurd (any_false-fails m fs fs h h q)
      | inr h ↦ h
    ]
    | inr q ↦ let e' = rw q at e in absurd cc
  ];
  sat_sound = λ t fs m e. elim (Bool-cases (any_false fs fs)) [
    | inl q ↦ let e' = rw q at e in absurd cc
    | inr q ↦ let e' = rw q at e in absurd cc
  ];
}
