-- ===== src/Tournament/Floats.antt =====
-- The floats of src/understudy/tournament/arbiter.py. A float is counted in units of 2^-72
-- millionths, of which all floats from a millionth on, and their differences, are whole numbers.
use understudy.Common.{
  is_even, ℕ, zero, suc, ◌+◌, ◌-◌, ◌*◌, ◌/◌, ◌≤◌, Bool, true, false, not, ◌||◌, ltb, leb, ◌≡◌, refl,
  sym, ◌∙◌, leb→le, le→leb, arith, if◌then◌else◌, Bool-cases, inl, inr, ℤ, pos, negsuc, ◌+ℤ◌,
  +ℤ_parts, neg, sub_ℕ, leb_ℤ, pos_part, neg_part,
}

-- The operations on floats; arguments are decimals, counted in millionths, and mean the floats next
-- to them: `m - n`, the float itself, and `a - 1e-6`.
pub record Floats : Type 0 where
  pub minus : ℕ → ℕ → ℤ
  pub float_of : ℤ → ℤ
  pub less_tolerance : ℤ → ℤ

abbrev pub millionth : ℕ
millionth = 4722366482869645213696

abbrev pub quarter : ℕ
quarter = 1180591620717411303424

abbrev hundred : ℕ
hundred = 472236648286964521369600

abbrev half_hundred : ℕ
half_hundred = 236118324143482260684800

-- The float `c` is within a quarter of a millionth of the decimal `x`.
abbrev pub IsNear : ℤ → ℤ → Type 0
IsNear c x =
    (pos_part c + neg_part x * millionth ≤ neg_part c + pos_part x * millionth + quarter)
    × (neg_part c + pos_part x * millionth ≤ pos_part c + neg_part x * millionth + quarter)

-- Between -1 and 1.
abbrev pub IsSmall : ℤ → Type 0
IsSmall x = (pos_part x ≤ 1000000) × (neg_part x ≤ 1000000)

-- Between -1 and 1 an operation errs by less than a quarter of a millionth.
pub record IsAccurate (fl : Floats) : Type 0 where
  pub difference : (m n : ℕ) → m ≤ 1000000 → n ≤ 1000000 → IsNear (fl.minus m n) (sub_ℕ m n)
  pub nearest : (x : ℤ) → IsSmall x → IsNear (fl.float_of x) x
  pub tolerance : (a : ℤ) → IsSmall a → IsNear (fl.less_tolerance a) (a +ℤ negsuc 0)

abbrev pub round_ℕ : ℕ → ℕ
round_ℕ n =
    let q = n / hundred in
    let r = n - q * hundred in
    if ltb r half_hundred
    then q * 100
    else if ltb half_hundred r || not (is_even q)
    then suc q * 100
    else q * 100

-- `round(x, 4)`: the nearest decimal of four places, halves to even, in millionths.
unfoldable pub round_4 : ℤ → ℤ
round_4 (pos n) = pos (round_ℕ n)
round_4 (negsuc n) = neg (pos (round_ℕ (suc n)))

round_ℕ-above : (n k : ℕ) → k * hundred ≤ n → n ≤ k * hundred + quarter → round_ℕ n ≡ k * 100
round_ℕ-above n k h g =
    let q : n / hundred ≡ k = omega arith in
    let r : ltb (n - k * hundred) half_hundred ≡ true = ground arith in rw (q, r) refl

round_ℕ-below :
    (n k : ℕ) → suc k * hundred ≤ n + quarter → suc n ≤ suc k * hundred → round_ℕ n ≡ suc k * 100
round_ℕ-below n k h g =
    let q : n / hundred ≡ k = omega arith in
    let r : ltb (n - k * hundred) half_hundred ≡ false = ground arith in
    let s : ltb half_hundred (n - k * hundred) ≡ true = ground arith in rw (q, r, s) refl

round_ℕ-near :
    (n k : ℕ) → n ≤ k * hundred + quarter → k * hundred ≤ n + quarter → round_ℕ n ≡ k * 100
round_ℕ-near n k h g = elim (Bool-cases (leb (k * hundred) n)) [
  | inl e ↦ round_ℕ-above n k (ground arith) h
  | inr e ↦ below k g e
]
  where
    below : (k : ℕ) → k * hundred ≤ n + quarter → leb (k * hundred) n ≡ false → round_ℕ n ≡ k * 100
    below zero g e = absurd (ground arith)
    below (suc k) g e = round_ℕ-below n k g (ground arith)

-- What is near a difference, in natural numbers.
near_parts :
    (c : ℤ) (m n : ℕ)
    → IsNear c (sub_ℕ m n)
    → (pos_part c + n * millionth ≤ neg_part c + m * millionth + quarter)
      × (neg_part c + m * millionth ≤ pos_part c + n * millionth + quarter)
near_parts c m n h = elim (Bool-cases (leb n m)) [
  | inl e ↦ let h' = rw e at h in ((let a = h'.0 in ground arith), (let b = h'.1 in ground arith))
  | inr e ↦ let h' = rw e at h in ((let a = h'.0 in ground arith), (let b = h'.1 in ground arith))
]

neg_difference : (p q : ℕ) → p ≤ q → neg (pos ((q - p) * 100)) ≡ sub_ℕ (p * 100) (q * 100)
unfolding neg
neg_difference p q h = ground arith

pos_difference : (p q : ℕ) → q ≤ p → pos ((p - q) * 100) ≡ sub_ℕ (p * 100) (q * 100)
pos_difference p q h = ground arith

-- A float near a decimal of four places is rounded to it.
pub round_4-near :
    (c : ℤ) (p q : ℕ) → IsNear c (sub_ℕ (p * 100) (q * 100)) → round_4 c ≡ sub_ℕ (p * 100) (q * 100)
unfolding round_4
round_4-near (pos n) p q h =
    let (a, b) = near_parts (pos n) (p * 100) (q * 100) h in
    let le : q ≤ p = omega arith in
    rw (round_ℕ-near n (p - q) (omega arith) (omega arith)) (pos_difference p q le)
round_4-near (negsuc n) p q h =
    let (a, b) = near_parts (negsuc n) (p * 100) (q * 100) h in
    let le : p ≤ q = omega arith in
    rw (round_ℕ-near (suc n) (q - p) (omega arith) (omega arith)) (neg_difference p q le)

-- `margin < ambiguity_margin - 1e-6`, of floats
abbrev pub is_narrow : ℤ → ℤ → Bool
is_narrow margin threshold = not (leb_ℤ threshold margin)

threshold_parts :
    (t : ℤ) (a : ℤ)
    → IsNear t (a +ℤ negsuc 0)
    → (pos_part t + (neg_part a + 1) * millionth ≤ neg_part t + pos_part a * millionth + quarter)
      × (neg_part t + pos_part a * millionth ≤ pos_part t + (neg_part a + 1) * millionth + quarter)
threshold_parts t a h =
    let e = +ℤ_parts a (negsuc 0) in ((let l = h.0 in omega arith), (let r = h.1 in omega arith))

-- A margin that is not narrow is, in decimals, at least the ambiguity margin less a millionth.
pub wide :
    (c t a : ℤ) (m n : ℕ)
    → IsNear c (sub_ℕ m n)
    → IsNear t (a +ℤ negsuc 0)
    → is_narrow c t ≡ false
    → pos_part a + n ≤ m + neg_part a + 1
wide c t a m n near at e =
    let (l, r) = near_parts c m n near in
    let (u, v) = threshold_parts t a at in
    let k : pos_part t + neg_part c ≤ pos_part c + neg_part t = ground arith in omega arith

-- On decimals of four places a float is above the threshold exactly if the decimal is.
pub narrow-exact :
    (c t : ℤ) (p q k : ℕ)
    → IsNear c (sub_ℕ (p * 100) (q * 100))
    → IsNear t (pos (k * 100) +ℤ negsuc 0)
    → is_narrow c t ≡ not (leb (k + q) p)
narrow-exact c t p q k near at =
    let (l, r) = near_parts c (p * 100) (q * 100) near in
    let (u, v) = threshold_parts t (pos (k * 100)) at in
    elim (Bool-cases (leb (k + q) p)) [
      | inl e ↦
          let above : leb_ℤ t c ≡ true = le→leb _ _ (let h = leb→le (k + q) p e in omega arith) in
          rw (e, above) refl
      | inr e ↦ rw (e, below l r u v e) refl
    ]
  where
    below :
        pos_part c + q * 100 * millionth ≤ neg_part c + p * 100 * millionth + quarter
        → neg_part c + p * 100 * millionth ≤ pos_part c + q * 100 * millionth + quarter
        → pos_part t + (0 + 1) * millionth ≤ neg_part t + k * 100 * millionth + quarter
        → neg_part t + k * 100 * millionth ≤ pos_part t + (0 + 1) * millionth + quarter
        → leb (k + q) p ≡ false
        → leb_ℤ t c ≡ false
    below l r u v e = ground arith

module _ (fl : Floats) (acc : IsAccurate fl) where
  -- Rounding a difference to four places does not move it over the threshold.
  pub rounding-agrees :
      (m n k : ℕ) (p q : ℕ)
      → m ≡ p * 100
      → n ≡ q * 100
      → m ≤ 1000000
      → n ≤ 1000000
      → k ≤ 10000
      → is_narrow (fl.float_of (round_4 (fl.minus m n))) (fl.less_tolerance (pos (k * 100)))
        ≡ is_narrow (fl.minus m n) (fl.less_tolerance (pos (k * 100)))
  rounding-agrees m n k p q e f hm hn hk =
      let near = acc.difference m n hm hn in
      let close = rw (e, f) at near in
      let at = acc.tolerance (pos (k * 100)) (omega arith, omega arith) in
      let small : IsSmall (sub_ℕ (p * 100) (q * 100)) = (ground arith, ground arith) in
      rw (e, f, round_4-near (fl.minus (p * 100) (q * 100)) p q close)
        (narrow-exact (fl.float_of (sub_ℕ (p * 100) (q * 100))) (fl.less_tolerance (pos (k * 100)))
            p q k (acc.nearest (sub_ℕ (p * 100) (q * 100)) small) at
          ∙ sym (
              narrow-exact (fl.minus (p * 100) (q * 100)) (fl.less_tolerance (pos (k * 100))) p q k
                close at))
