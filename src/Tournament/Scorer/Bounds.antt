-- ===== src/Tournament/Scorer/Bounds.antt =====
-- The ranges of the scores of src/understudy/tournament/scorer.py.
use understudy.Common.{
  ℕ, zero, suc, ◌*◌, ◌≤◌, String, Bool, true, false, Option, none, some, >>=-some, List, [], ◌∷◌,
  length, pos, ltb, ◌≡◌, refl, inl, inr, Bool-cases, arith, All, Ratio, ratio, leb_ratio,
  over_ratio, zero_ratio, one_ratio, clamp_ratio, clamp_ratio-IsShare, IsShare, ten_thousandths,
  ten_thousandths-le,
}
use understudy.Contracts.Evidence.{CandidateEvidence, CandidateScore}
use understudy.Graph.Service.{ServiceGraph}
use understudy.Tournament.Arbiter.Agreement.{FourPlaces}
use understudy.Tournament.Scorer.{
  ScoringConfig, compute_recovery_subscore, observed_share, clamped, compute_blast_subscore,
  compute_downstream_subscore, compute_violations_subscore, rounded, composite_of, raw_composite,
  score_with, score_candidate, check_disqualification, or_config,
}

compute_recovery_subscore-IsShare :
    (recovered : Bool) (seconds : Option Ratio) (timeout : Ratio)
    → IsShare (compute_recovery_subscore recovered seconds timeout)
unfolding compute_recovery_subscore
compute_recovery_subscore-IsShare false seconds timeout = (refl, refl)
compute_recovery_subscore-IsShare true none timeout = (refl, refl)
compute_recovery_subscore-IsShare true (some seconds) timeout =
    elim (Bool-cases (leb_ratio timeout zero_ratio)) [
      | inl e ↦ rw e (refl, refl)
      | inr e ↦ rw e (clamp_ratio-IsShare (over_ratio seconds timeout))
    ]

compute_downstream_subscore-IsShare :
    (delta ceiling : Ratio) → IsShare (compute_downstream_subscore delta ceiling)
unfolding compute_downstream_subscore
compute_downstream_subscore-IsShare delta ceiling =
    elim (Bool-cases (leb_ratio ceiling zero_ratio)) [
      | inr e ↦ rw e (clamp_ratio-IsShare (over_ratio delta ceiling))
      | inl e ↦ rw e elim (Bool-cases (leb_ratio delta zero_ratio)) [
        | inl q ↦ rw q (refl, refl)
        | inr q ↦ rw q (refl, refl)
      ]
    ]

compute_violations_subscore-IsShare :
    (count ceiling : ℕ) → IsShare (compute_violations_subscore count ceiling)
unfolding compute_violations_subscore
compute_violations_subscore-IsShare count zero = elim (Bool-cases (ltb 0 count)) [
  | inl e ↦ rw e (refl, refl)
  | inr e ↦ rw e (refl, refl)
]
compute_violations_subscore-IsShare count (suc c) = clamp_ratio-IsShare (ratio (pos count) (suc c))

clamped-IsShare : (o : Option Ratio) (r : Ratio) → clamped o ≡ some r → IsShare r
clamped-IsShare none r e = cc
clamped-IsShare (some x) r e =
    let same : clamp_ratio x ≡ r = cc in rw (← same) (clamp_ratio-IsShare x)

compute_blast_subscore-IsShare :
    (loaded : List (String × Ratio)) (observed : List String)
    (shares : Option (List (String × Ratio))) (graph : Option ServiceGraph) (radius : Option Ratio)
    (r : Ratio)
    → compute_blast_subscore loaded observed shares graph radius ≡ some r
    → IsShare r
unfolding compute_blast_subscore
compute_blast_subscore-IsShare loaded observed shares graph (some x) r e =
    clamped-IsShare (some x) r e
compute_blast_subscore-IsShare loaded [] shares graph none r e =
    let same : zero_ratio ≡ r = cc in rw (← same) (refl, refl)
compute_blast_subscore-IsShare loaded (s ∷ ss) shares graph none r e =
    clamped-IsShare (observed_share loaded (s ∷ ss) shares graph) r e

rounded-IsShare : (x : Ratio) → IsShare x → IsShare (rounded x)
rounded-IsShare x h = let most = ten_thousandths-le x h.1 in (ground arith, ground arith)

composite_of-le : (reason : Option String) (raw : Ratio) → composite_of reason raw ≤ 1000000
unfolding composite_of
composite_of-le none raw =
    let most = ten_thousandths-le (clamp_ratio raw) (clamp_ratio-IsShare raw).1 in omega arith
composite_of-le (some _) raw = let most = ten_thousandths-le one_ratio refl in omega arith

-- A composite of 0 to 1 with four decimal places, and every recorded subscore from 0 to 1.
abbrev pub IsNormal : CandidateScore → Type 0
IsNormal s = (s.composite ≤ 1000000) × FourPlaces s × All (λ kv. IsShare kv.1) s.components

pub composite_of-Hundreds :
    (reason : Option String) (raw : Ratio) → (n : ℕ) × (composite_of reason raw ≡ n * 100)
unfolding composite_of
composite_of-Hundreds none raw = (ten_thousandths (clamp_ratio raw), refl)
composite_of-Hundreds (some _) raw = (ten_thousandths one_ratio, refl)

score_with-IsNormal :
    (ev : CandidateEvidence) (cfg : ScoringConfig) (twin_ready : Bool) (blast : Ratio)
    → IsShare blast
    → IsNormal (score_with ev cfg twin_ready blast)
unfolding score_with
score_with-IsNormal ev cfg twin_ready blast h =
    let rec =
      compute_recovery_subscore ev.recovered ev.recovery_seconds cfg.recovery_timeout_seconds in
    let downstream =
      compute_downstream_subscore ev.downstream_error_delta cfg.downstream_error_ceiling in
    let violations =
      compute_violations_subscore (length ev.invariant_violations) cfg.violation_ceiling in
    let reason = check_disqualification ev cfg twin_ready in
    (
      composite_of-le reason (raw_composite cfg rec blast downstream violations),
      composite_of-Hundreds reason (raw_composite cfg rec blast downstream violations),
      (
        rounded-IsShare rec (
            compute_recovery_subscore-IsShare ev.recovered ev.recovery_seconds
              cfg.recovery_timeout_seconds),
        (
          rounded-IsShare blast h,
          (
            rounded-IsShare downstream (
                compute_downstream_subscore-IsShare ev.downstream_error_delta
                  cfg.downstream_error_ceiling),
            (
              rounded-IsShare violations (
                  compute_violations_subscore-IsShare (length ev.invariant_violations)
                    cfg.violation_ceiling),
              tt,
            ),
          ),
        ),
      ),
    )

-- Whatever the weights, the ceilings and the evidence, a candidate's composite score lies between 0
-- and 1 and has four decimal places, and each of its recorded subscores lies between 0 and 1.
pub score_candidate-IsNormal :
    (loaded : ScoringConfig) (config : Option ScoringConfig)
    (shares : Option (List (String × Ratio))) (graph : Option ServiceGraph) (ev : CandidateEvidence)
    (twin_ready : Bool) (radius : Option Ratio) (s : CandidateScore)
    → score_candidate loaded config shares graph ev twin_ready radius ≡ some s
    → IsNormal s
unfolding score_candidate
score_candidate-IsNormal loaded config shares graph ev twin_ready radius s e =
    let observed = ev.observed_blast_set in
    let blast = compute_blast_subscore loaded.service_request_shares observed shares graph radius in
    let cfg = or_config config loaded in
    let (b, p, q) = >>=-some blast (λ b. some (score_with ev cfg twin_ready b)) s e in
    let share =
      compute_blast_subscore-IsShare loaded.service_request_shares observed shares graph radius b
        p in
    let same : score_with ev cfg twin_ready b ≡ s = cc in
    rw (← same) (score_with-IsNormal ev cfg twin_ready b share)
