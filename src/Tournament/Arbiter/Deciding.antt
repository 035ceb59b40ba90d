-- ===== src/Tournament/Arbiter/Deciding.antt =====
-- What the arbiter's results say.
use understudy.Common.{
  ℕ, String, Bool, true, false, Option, none, some, List, [], ◌∷◌, ◌≡◌, refl, inl, inr, Bool-cases,
  All, keep, if◌then◌else◌, eq_iff, ℤ, pos, ◌*◌, ◌≤◌,
}
use understudy.Contracts.Enums.{TournamentOutcome, decided, ambiguous}
use understudy.Contracts.Evidence.{CandidateScore}
use understudy.Tournament.Arbiter.{
  sorted_scores, runner_up_of, score_margin, is_viable, derive_winner_from_scores, same_text,
  Arbitration, result, assertion_error, arbitrate, conclude, no_winner, effective_ranking,
}
use understudy.Tournament.Floats.{Floats, IsAccurate, is_narrow}
use understudy.Tournament.Arbiter.Ranking.{sorted-All}
use understudy.Tournament.Arbiter.Agreement.{IsDecimal, margin-agrees, keep-All, List-cases}

-- What a result says beside the advice of the judge that it records.
abbrev pub Decision : Type 0
Decision = Option (TournamentOutcome × (Option String × (Option String × Option ℤ)))

abbrev pub decision : Arbitration → Decision
decision (result r) = some (r.outcome, (r.winner_plan_id, (r.runner_up_plan_id, r.margin)))
decision assertion_error = none

module _ (fl : Floats) (l j : Option (List String)) (incident : String) (a : ℤ) (now : ℕ) where
  pub arbitrate-none :
      (s : CandidateScore) (ss : List CandidateScore)
      → sorted_scores (keep is_viable (s ∷ ss)) ≡ []
      → arbitrate fl l j incident a now (s ∷ ss)
        ≡ no_winner fl l j incident a now (s ∷ ss) (effective_ranking l j)
  unfolding arbitrate
  arbitrate-none s ss e = rw (e, arbitrate) refl

  pub arbitrate-top :
      (s top : CandidateScore) (ss rest : List CandidateScore) (b : Bool)
      → sorted_scores (keep is_viable (s ∷ ss)) ≡ top ∷ rest
      → is_narrow (fl.float_of (runner_up_of fl top rest (s ∷ ss)).1) (fl.less_tolerance a) ≡ b
      → arbitrate fl l j incident a now (s ∷ ss) ≡ (
          if b
          then conclude fl l j incident a now
              (s ∷ ss)
              ambiguous
              none
              none
              (runner_up_of fl top rest (s ∷ ss)).1
          else conclude fl l j incident a now
              (s ∷ ss)
              decided
              (some top.plan_id)
              (runner_up_of fl top rest (s ∷ ss)).0
              (runner_up_of fl top rest (s ∷ ss)).1)
  unfolding arbitrate
  arbitrate-top s top ss rest b e q = rw (e, arbitrate, q) refl

conclude-decision :
    (fl : Floats) (l j l' j' : Option (List String)) (incident incident' : String) (a : ℤ)
    (now now' : ℕ) (ss : List CandidateScore) (o : TournamentOutcome) (w r : Option String) (m : ℤ)
    → decision (conclude fl l j incident a now ss o w r m)
      ≡ decision (conclude fl l' j' incident' a now' ss o w r m)
unfolding conclude
conclude-decision fl l j l' j' incident incident' a now now' ss o w r m =
    elim (Bool-cases (same_text w (derive_winner_from_scores fl ss a))) [
      | inl e ↦ rw e refl
      | inr e ↦ rw e refl
    ]

-- The advice of the judge, the incident and the time have no influence on the decision: outcome,
-- winner, runner-up and margin, and whether the assertion fails, come from the scores and the
-- ambiguity margin alone.
pub arbitrate-ignores_advice :
    (fl : Floats) (l j l' j' : Option (List String)) (incident incident' : String) (a : ℤ)
    (now now' : ℕ) (scores : List CandidateScore)
    → decision (arbitrate fl l j incident a now scores)
      ≡ decision (arbitrate fl l' j' incident' a now' scores)
unfolding arbitrate
arbitrate-ignores_advice fl l j l' j' incident incident' a now now' [] = refl
arbitrate-ignores_advice fl l j l' j' incident incident' a now now' (s ∷ ss) =
    elim (List-cases (sorted_scores (keep is_viable (s ∷ ss)))) [
      | inl e ↦
          rw
            (
              arbitrate-none fl l j incident a now s ss e,
              arbitrate-none fl l' j' incident' a now' s ss e,
            )
            refl
      | inr (top, rest, e) ↦
          elim (Bool-cases
            (is_narrow (fl.float_of (runner_up_of fl top rest (s ∷ ss)).1) (fl.less_tolerance a))) [
              | inl q ↦
                  rw
                    (
                      arbitrate-top fl l j incident a now s top ss rest true e q,
                      arbitrate-top fl l' j' incident' a now' s top ss rest true e q,
                    )
                    (conclude-decision fl l j l' j' incident incident' a now now' (s ∷ ss) ambiguous
                      none none (runner_up_of fl top rest (s ∷ ss)).1)
              | inr q ↦
                  rw
                    (
                      arbitrate-top fl l j incident a now s top ss rest false e q,
                      arbitrate-top fl l' j' incident' a now' s top ss rest false e q,
                    )
                    (conclude-decision fl l j l' j' incident incident' a now now' (s ∷ ss) decided
                      (some top.plan_id) (runner_up_of fl top rest (s ∷ ss)).0
                      (runner_up_of fl top rest (s ∷ ss)).1)
            ]
    ]

abbrev pub Asserts : Arbitration → Type 0
Asserts (result r) = Unit
Asserts assertion_error = ⊥

derive-top :
    (fl : Floats) (scores rest : List CandidateScore) (top : CandidateScore) (a : ℤ) (b : Bool)
    → sorted_scores (keep is_viable scores) ≡ top ∷ rest
    → is_narrow (score_margin fl top rest scores) (fl.less_tolerance a) ≡ b
    → derive_winner_from_scores fl scores a ≡ (if b then none else some top.plan_id)
unfolding derive_winner_from_scores
derive-top fl scores rest top a b e q = rw (e, derive_winner_from_scores, q) refl

module _ (fl : Floats) (l j : Option (List String)) (incident : String) (a : ℤ) (now : ℕ) where
  conclude-Asserts :
      (ss : List CandidateScore) (o : TournamentOutcome) (w r : Option String) (m : ℤ)
      → same_text w (derive_winner_from_scores fl ss a) ≡ true
      → Asserts (conclude fl l j incident a now ss o w r m)
  unfolding conclude
  conclude-Asserts ss o w r m e = rw e tt

  -- When every composite score and the ambiguity margin are at most 1 and have four decimal places,
  -- and float operations err by less than a quarter of a millionth, the arbiter's assertion does not
  -- fail: the rounded margin decides like the unrounded one of the score-only derivation.
  pub arbitrate-Asserts :
      (k : ℕ)
      → IsAccurate fl
      → k ≤ 10000
      → a ≡ pos (k * 100)
      → (scores : List CandidateScore) → All IsDecimal scores
      → Asserts (arbitrate fl l j incident a now scores)
  unfolding arbitrate
  arbitrate-Asserts k acc small at [] h = tt
  arbitrate-Asserts k acc small at (s ∷ ss) h =
      elim (List-cases (sorted_scores (keep is_viable (s ∷ ss)))) [
        | inl e ↦ rw (arbitrate-none fl l j incident a now s ss e) tt
        | inr (top, rest, e) ↦
            let viable =
              sorted-All IsDecimal (keep is_viable (s ∷ ss))
                (keep-All IsDecimal is_viable (s ∷ ss) h) in
            let four = rw e at viable in
            let agree : is_narrow (fl.float_of (runner_up_of fl top rest (s ∷ ss)).1)
                  (fl.less_tolerance a)
                ≡ is_narrow (score_margin fl top rest (s ∷ ss)) (fl.less_tolerance a) =
              rw at (margin-agrees fl acc k small top rest (s ∷ ss) four.0 four.1 h) in
            elim (Bool-cases (
              is_narrow (fl.float_of (runner_up_of fl top rest (s ∷ ss)).1)
                (fl.less_tolerance a))) [
                  | inl q ↦ rw (arbitrate-top fl l j incident a now s top ss rest true e q) (
                      conclude-Asserts (s ∷ ss) ambiguous none none
                        (runner_up_of fl top rest (s ∷ ss)).1
                        (rw (derive-top fl (s ∷ ss) rest top a true e (rw agree at q)) refl))
                  | inr q ↦ rw (arbitrate-top fl l j incident a now s top ss rest false e q) (
                      conclude-Asserts (s ∷ ss) decided (some top.plan_id)
                        (runner_up_of fl top rest (s ∷ ss)).0 (runner_up_of fl top rest (s ∷ ss)).1
                        (rw (derive-top fl (s ∷ ss) rest top a false e (rw agree at q))
                          ((eq_iff top.plan_id top.plan_id).1 refl)))
                ]
      ]
