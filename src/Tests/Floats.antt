-- ===== src/Tests/Floats.antt =====
-- Floats whose differences come out low, as that of 0.2161 and 0.0661, which is below 0.15.
use understudy.Common.{
  ◌+◌, ◌*◌, ℤ, pos, negsuc, +ℤ_parts, sub_ℕ, pos_part, neg_part, arith, ◌≡◌, refl, true,
}
use understudy.Tournament.Floats.{Floats, IsAccurate, millionth, is_narrow}

abbrev counts : ℤ → ℤ
counts x = sub_ℕ (pos_part x * millionth) (neg_part x * millionth)

-- A difference is a unit of 2^-55 too low.
abbrev pub low : Floats
low = record {
  minus = λ m n. sub_ℕ (m * millionth) (n * millionth + 131072000000);
  float_of = counts;
  less_tolerance = λ a. sub_ℕ (pos_part a * millionth) ((neg_part a + 1) * millionth);
}

pub low-IsAccurate : IsAccurate low
low-IsAccurate = record {
  difference = λ m n h g. (ground arith, ground arith);
  nearest = λ x h. (ground arith, ground arith);
  tolerance = λ a h. let e = +ℤ_parts a (negsuc 0) in (ground arith, ground arith);
}

-- Such a difference is rounded up again.
low-rounds : is_narrow (low.minus 216100 66100) (counts (pos 150000)) ≡ true
low-rounds = refl
