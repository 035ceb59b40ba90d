-- ===== src/Common/Int.antt =====
-- Python's integers over the native numbers; sums and orders go by the two parts of an integer.
use Prim.Native.Nat.{ℕ, suc, ◌+◌, ◌-◌, ◌*◌, ◌≤◌}
use mathlib.Core.Path.{◌≡◌, ap}
use mathlib.Core.Bool.{Bool, true}
use native.Mathlib.Omega.{arith}
use understudy.Common.Tests.{leb, ◌==◌, if◌then◌else◌, leb→le, le→leb}

-- `negsuc n` is -(n + 1).
pub data ℤ : Type 0 where
  pos : ℕ → ℤ
  negsuc : ℕ → ℤ

abbrev pub pos_part : ℤ → ℕ
pos_part (pos n) = n
pos_part (negsuc n) = 0

abbrev pub neg_part : ℤ → ℕ
neg_part (pos n) = 0
neg_part (negsuc n) = suc n

abbrev pub sub_ℕ : ℕ → ℕ → ℤ
sub_ℕ a b = if leb b a then pos (a - b) else negsuc (b - a - 1)

infixl 65 ◌+ℤ◌
infix 50 ◌≤ℤ◌
unfoldable pub ◌+ℤ◌ : ℤ → ℤ → ℤ
a +ℤ b = sub_ℕ (pos_part a + pos_part b) (neg_part a + neg_part b)

unfoldable pub neg : ℤ → ℤ
neg a = sub_ℕ (neg_part a) (pos_part a)

abbrev pub ◌≤ℤ◌ : ℤ → ℤ → Type 0
a ≤ℤ b = pos_part a + neg_part b ≤ pos_part b + neg_part a

abbrev pub leb_ℤ : ℤ → ℤ → Bool
leb_ℤ a b = leb (pos_part a + neg_part b) (pos_part b + neg_part a)

abbrev pub eqb_ℤ : ℤ → ℤ → Bool
eqb_ℤ a b = pos_part a + neg_part b == pos_part b + neg_part a

pub +ℤ_parts :
    (a b : ℤ)
    → pos_part (a +ℤ b) + neg_part a + neg_part b ≡ neg_part (a +ℤ b) + pos_part a + pos_part b
unfolding ◌+ℤ◌
+ℤ_parts a b = ground arith

pub neg-neg : (a : ℤ) → neg (neg a) ≡ a
unfolding neg
neg-neg a = ground arith

pub eqb_ℤ_refl : (a : ℤ) → eqb_ℤ a a ≡ true
eqb_ℤ_refl a = ground arith

-- A real number that Z3 or a float holds, as a fraction; the denominator is `suc den_pred`.
pub record Ratio : Type 0 where
  pub num : ℤ
  pub den_pred : ℕ

abbrev pub ratio : ℤ → ℕ → Ratio
ratio n d = record { num = n; den_pred = d - 1 }

abbrev pub of_ℤ : ℤ → Ratio
of_ℤ n = record { num = n; den_pred = 0 }

infix 50 ◌≤ʳ◌
-- a / b ≤ c / d as a * d ≤ c * b
abbrev pub ◌≤ʳ◌ : Ratio → Ratio → Type 0
a ≤ʳ b =
    pos_part a.num * suc b.den_pred + neg_part b.num * suc a.den_pred
    ≤ pos_part b.num * suc a.den_pred + neg_part a.num * suc b.den_pred

abbrev pub leb_ratio : Ratio → Ratio → Bool
leb_ratio a b =
    leb (pos_part a.num * suc b.den_pred + neg_part b.num * suc a.den_pred)
      (pos_part b.num * suc a.den_pred + neg_part a.num * suc b.den_pred)

abbrev pub eqb_ratio : Ratio → Ratio → Bool
eqb_ratio a b =
    pos_part a.num * suc b.den_pred + neg_part b.num * suc a.den_pred
    == pos_part b.num * suc a.den_pred + neg_part a.num * suc b.den_pred

pub eqb_ratio_refl : (a : Ratio) → eqb_ratio a a ≡ true
eqb_ratio_refl a = ground arith

cancel : (k a b : ℕ) → suc k * a ≤ suc k * b → a ≤ b
cancel k a b h = grind arith

scale : (k a b : ℕ) → a ≤ b → a * k ≤ b * k
scale k a b h = grind arith

cross :
    (qp qn vp vn cp cn Q V C : ℕ)
    → qp * V + vn * Q ≡ vp * Q + qn * V
    → qp * C + cn * Q ≤ cp * Q + qn * C
    → Q * (vp * C + cn * V) ≤ Q * (cp * V + vn * C)
cross qp qn vp vn cp cn Q V C e l = omega (arith, ap (λ (t : ℕ). t * C) e, scale V _ _ l)

-- A fraction of the same value is as small.
pub ratio-le_of_eq :
    (q v c : Ratio) → eqb_ratio q v ≡ true → leb_ratio q c ≡ true → leb_ratio v c ≡ true
ratio-le_of_eq q v c e l = le→leb _ _ (
    cancel q.den_pred _ _ (
      cross (pos_part q.num) (neg_part q.num) (pos_part v.num) (neg_part v.num) (pos_part c.num)
        (neg_part c.num) (suc q.den_pred) (suc v.den_pred) (suc c.den_pred) (ground arith)
        (leb→le _ _ l)))

pub eqb_ratio_sym : (a b : Ratio) → eqb_ratio a b ≡ true → eqb_ratio b a ≡ true
eqb_ratio_sym a b e = ground arith

cross_right :
    (qp qn vp vn cp cn Q V C : ℕ)
    → qp * V + vn * Q ≡ vp * Q + qn * V
    → cp * Q + qn * C ≤ qp * C + cn * Q
    → Q * (cp * V + vn * C) ≤ Q * (vp * C + cn * V)
cross_right qp qn vp vn cp cn Q V C e l = omega (arith, ap (λ (t : ℕ). t * C) e, scale V _ _ l)

-- A fraction of the same value is as large.
pub ratio-ge_of_eq :
    (q v c : Ratio) → eqb_ratio q v ≡ true → leb_ratio c q ≡ true → leb_ratio c v ≡ true
ratio-ge_of_eq q v c e l = le→leb _ _ (
    cancel q.den_pred _ _ (
      cross_right (pos_part q.num) (neg_part q.num) (pos_part v.num) (neg_part v.num)
        (pos_part c.num) (neg_part c.num) (suc q.den_pred) (suc v.den_pred) (suc c.den_pred)
        (ground arith) (leb→le _ _ l)))
