-- ===== src/Tournament/Arbiter/Agreement.antt =====
-- The two margins of src/understudy/tournament/arbiter.py on scores of four decimal places.
use understudy.Common.{
  ℤ, ◌≤◌, ℕ, ◌*◌, Bool, not, List, [], ◌∷◌, ◌≡◌, refl, ◌⊎◌, inl, inr, Bool-cases, arith, All, keep,
  str_eq, pos,
}
use understudy.Contracts.Evidence.{CandidateScore}
use understudy.Tournament.Arbiter.{
  sorted_scores, insert_score, key_leb, runner_up_of, score_margin, others,
}
use understudy.Tournament.Floats.{Floats, IsAccurate, is_narrow, round_4, rounding-agrees}
use understudy.Tournament.Arbiter.Ranking.{sorted-All, sorted-min}

-- A whole number of hundreds of millionths: four decimal places.
abbrev pub FourPlaces : CandidateScore → Type 0
FourPlaces s = (n : ℕ) × (s.composite ≡ n * 100)

-- Four decimal places, and not above 1.
abbrev pub IsDecimal : CandidateScore → Type 0
IsDecimal s = FourPlaces s × (s.composite ≤ 1000000)

pub keep-All :
    (P : CandidateScore → Type 0) (test : CandidateScore → Bool) (ss : List CandidateScore)
    → All P ss
    → All P (keep test ss)
keep-All P test [] h = tt
keep-All P test (s ∷ ss) h = elim (Bool-cases (test s)) [
  | inl e ↦ rw e (h.0, keep-All P test ss h.1)
  | inr e ↦ rw e (keep-All P test ss h.1)
]

pub List-cases :
    (ss : List CandidateScore)
    → (ss ≡ []) ⊎ ((r : CandidateScore) × (rest : List CandidateScore) × (ss ≡ r ∷ rest))
List-cases [] = inl refl
List-cases (r ∷ rest) = inr (r, rest, refl)

sorted-nil : sorted_scores [] ≡ []
unfolding sorted_scores
sorted-nil = refl

insert-not_nil : (s : CandidateScore) (ss : List CandidateScore) → insert_score s ss ≡ [] → ⊥
unfolding insert_score
insert-not_nil s [] e = cc
insert-not_nil s (t ∷ ts) e = elim (Bool-cases (key_leb s t)) [
  | inl q ↦ let e' = rw q at e in cc
  | inr q ↦ let e' = rw q at e in cc
]

sorted-not_nil : (s : CandidateScore) (ss : List CandidateScore) → sorted_scores (s ∷ ss) ≡ [] → ⊥
unfolding sorted_scores
sorted-not_nil s ss e = insert-not_nil s (sorted_scores ss) e

module _ (fl : Floats) (acc : IsAccurate fl) (k : ℕ) (small : k ≤ 10000) where
  abbrev threshold : ℤ
  threshold = fl.less_tolerance (pos (k * 100))

  rounded :
      (s top : CandidateScore)
      → IsDecimal s
      → IsDecimal top
      → is_narrow (fl.float_of (round_4 (fl.minus s.composite top.composite))) threshold
        ≡ is_narrow (fl.minus s.composite top.composite) threshold
  rounded s top ((p, e), h) ((q, f), g) =
      rounding-agrees fl acc s.composite top.composite k p q e f h g small

  -- The margin that `arbitrate` rounds is as narrow as the one of the score-only derivation.
  pub margin-agrees :
      (top : CandidateScore) (rest scores : List CandidateScore)
      → IsDecimal top
      → All IsDecimal rest
      → All IsDecimal scores
      → is_narrow (fl.float_of (runner_up_of fl top rest scores).1) threshold
        ≡ is_narrow (score_margin fl top rest scores) threshold
  unfolding runner_up_of score_margin
  margin-agrees top (second ∷ more) scores t r h = rounded second top r.0 t
  margin-agrees top [] scores t r h = elim (List-cases (others top scores)) [
    | inl e ↦
        rw (e, runner_up_of, score_margin)
          (rounding-agrees fl acc 1000000 top.composite k 10000 t.0.0 refl t.0.1 (omega arith) t.1
            small)
    | inr (s, ss, e) ↦
        let others_four = keep-All IsDecimal (λ x. not (str_eq x.plan_id top.plan_id)) scores h in
        let four = rw e at others_four in
        let sorted_four = sorted-All IsDecimal (s ∷ ss) four in
        elim (List-cases (sorted_scores (s ∷ ss))) [
          | inl q ↦ absurd (sorted-not_nil s ss q)
          | inr (u, us, q) ↦
              let f = (rw q at sorted_four).0 in
              rw (e, runner_up_of, score_margin, q, sorted-min s u ss us q) (rounded u top f t)
        ]
  ]
