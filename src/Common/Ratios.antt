-- ===== src/Common/Ratios.antt =====
-- Arithmetic of fractions, for what the source computes on floats.
use Prim.Native.Nat.{ℕ, suc, ◌+◌, ◌-◌, ◌*◌, ◌/◌, ◌≤◌, ◌<◌}
use mathlib.Core.Path.{◌≡◌, refl}
use mathlib.Core.Bool.{Bool, true}
use mathlib.Core.List.{List, [], ◌∷◌}
use mathlib.Core.Logic.{inl, inr}
use native.Mathlib.Omega.{arith}
use understudy.Common.Tests.{ltb, leb, ◌==◌, if◌then◌else◌, Bool-cases}
use understudy.Common.Int.{
  ℤ, pos, negsuc, neg, ◌+ℤ◌, pos_part, neg_part, sub_ℕ, Ratio, ratio, of_ℤ, leb_ratio,
}

abbrev pub times : ℤ → ℕ → ℤ
times (pos n) k = pos (n * k)
times (negsuc n) k = neg (pos (suc n * k))

unfoldable pub plus_ratio : Ratio → Ratio → Ratio
plus_ratio a b =
    ratio (times a.num (suc b.den_pred) +ℤ times b.num (suc a.den_pred))
      (suc a.den_pred * suc b.den_pred)

unfoldable pub sum_ratio : List Ratio → Ratio
unfolding plus_ratio
sum_ratio [] = of_ℤ (pos 0)
sum_ratio (x ∷ xs) = plus_ratio x (sum_ratio xs)

infixl 70 ◌*ℤ◌
abbrev pub ◌*ℤ◌ : ℤ → ℤ → ℤ
a *ℤ b =
    sub_ℕ (pos_part a * pos_part b + neg_part a * neg_part b)
      (pos_part a * neg_part b + neg_part a * pos_part b)

unfoldable pub times_ratio : Ratio → Ratio → Ratio
times_ratio a b = ratio (a.num *ℤ b.num) (suc a.den_pred * suc b.den_pred)

-- `a / b` for a positive `b`
unfoldable pub over_ratio : Ratio → Ratio → Ratio
over_ratio a b = ratio (times a.num (suc b.den_pred)) (suc a.den_pred * pos_part b.num)

abbrev pub zero_ratio : Ratio
zero_ratio = of_ℤ (pos 0)

abbrev pub one_ratio : Ratio
one_ratio = of_ℤ (pos 1)

-- `min(max(x, 0.0), 1.0)`
unfoldable pub clamp_ratio : Ratio → Ratio
clamp_ratio x =
    if leb_ratio zero_ratio x then (if leb_ratio x one_ratio then x else one_ratio) else zero_ratio

-- A fraction from 0 to 1.
abbrev pub IsShare : Ratio → Type 0
IsShare r = (leb_ratio zero_ratio r ≡ true) × (leb_ratio r one_ratio ≡ true)

pub clamp_ratio-IsShare : (x : Ratio) → IsShare (clamp_ratio x)
unfolding clamp_ratio
clamp_ratio-IsShare x = elim (Bool-cases (leb_ratio zero_ratio x)) [
  | inl e ↦ elim (Bool-cases (leb_ratio x one_ratio)) [
    | inl f ↦ rw (e, f) (e, f)
    | inr f ↦ rw (e, f) (refl, refl)
  ]
  | inr e ↦ rw e (refl, refl)
]

abbrev pub is_even : ℕ → Bool
is_even n = n == (n / 2) * 2

-- The nearest number of ten thousandths, halves to even; `round(x, 4)` of an `x` from 0 on.
unfoldable pub ten_thousandths : Ratio → ℕ
ten_thousandths x =
    let d = suc x.den_pred in
    let n = pos_part x.num * 10000 in
    let q = n / d in
    let r = n - q * d in
    if ltb (2 * r) d then q else if ltb d (2 * r) then suc q else if is_even q then q else suc q

division : (n d : ℕ) → (n / suc d * suc d ≤ n) × (n < n / suc d * suc d + suc d)
division n d = grind arith

mul_mono : (a b c : ℕ) → a ≤ b → a * c ≤ b * c
mul_mono a b c h = grind arith

quotient-le : (k n d : ℕ) → n ≤ k * suc d → n / suc d ≤ k
quotient-le k n d h = elim (Bool-cases (leb (n / suc d) k)) [
  | inl e ↦ ground arith
  | inr e ↦
      absurd (omega (arith, division n d, mul_mono (suc k) (n / suc d) (suc d) (ground arith)))
]

quotient-eq : (k n d : ℕ) → n ≤ k * suc d → k ≤ n / suc d → n ≡ k * suc d
quotient-eq k n d h le = omega (arith, division n d, mul_mono k (n / suc d) (suc d) le)

-- A share is at most ten thousand ten thousandths.
pub ten_thousandths-le : (x : Ratio) → leb_ratio x one_ratio ≡ true → ten_thousandths x ≤ 10000
unfolding ten_thousandths
ten_thousandths-le x h =
    let d = x.den_pred in
    let n : ℕ = pos_part x.num * 10000 in
    let below : n ≤ 10000 * suc d = ground arith in
    elim (Bool-cases (leb 10000 (n / suc d))) [
      | inr e ↦ ground (arith)
      | inl e ↦
          let exact = quotient-eq 10000 n d below (ground arith) in
          let most = quotient-le 10000 n d below in
          let q : n / suc d ≡ 10000 = ground arith in ground arith
    ]
