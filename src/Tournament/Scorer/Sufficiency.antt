-- ===== src/Tournament/Scorer/Sufficiency.antt =====
-- When src/understudy/tournament/scorer.py disqualifies a candidate.
use understudy.Common.{
  ◌≤◌, String, Bool, true, false, not, ◌||◌, Option, none, some, >>=-some, List, [], ◌∷◌, length,
  ltb, ◌≡◌, ◌↔◌, refl, inl, inr, Bool-cases, Option-cases, arith, All, member, starts_with, Ratio,
  leb_ratio,
}
use understudy.Contracts.Evidence.{CandidateEvidence, CandidateScore}
use understudy.Graph.Service.{ServiceGraph}
use understudy.Tournament.Scorer.{
  ScoringConfig, compute_blast_subscore, first_hard, drop_ratio, check_disqualification, score_with,
  score_candidate, or_config, composite_of,
}

abbrev SoftViolation : List String → String → Type 0
SoftViolation hard v = (member v hard ≡ false) × (starts_with v "hard:" ≡ false)

-- The twin was ready, no hard invariant was violated in it, and the evidence is complete: not too
-- many mirrored requests were dropped, and there are enough probe samples.
abbrev pub IsSufficient : CandidateEvidence → ScoringConfig → Bool → Type 0
IsSufficient ev cfg twin_ready =
    (twin_ready ≡ true)
    × (member "twin_not_ready" ev.invariant_violations ≡ false)
    × All (SoftViolation cfg.hard_invariants) ev.invariant_violations
    × (ev.evidence_complete ≡ true)
    × (leb_ratio (drop_ratio ev.mirror_stats) cfg.mirror_drop_ceiling ≡ true)
    × (cfg.min_probe_samples ≤ length ev.probes)

first_hard-none :
    (hard vs : List String) → (first_hard hard vs ≡ none) ↔ All (SoftViolation hard) vs
unfolding first_hard
first_hard-none hard [] = ((λ _. tt), λ _. refl)
first_hard-none hard (v ∷ vs) =
    let later = first_hard-none hard vs in
    elim (Bool-cases (member v hard)) [
      | inl e ↦ rw e ((λ h. absurd cc), λ h. absurd cc)
      | inr e ↦ elim (Bool-cases (starts_with v "hard:")) [
        | inl q ↦ rw (e, q) ((λ h. absurd cc), λ h. absurd cc)
        | inr q ↦ rw (e, q) ((λ h. ((refl, refl), later.0 h)), λ h. later.1 h.1)
      ]
    ]

check_disqualification_sound :
    (ev : CandidateEvidence) (cfg : ScoringConfig) (ready : Bool)
    → check_disqualification ev cfg ready ≡ none
    → IsSufficient ev cfg ready
unfolding check_disqualification
check_disqualification_sound ev cfg ready h =
    elim (Bool-cases (not ready || member "twin_not_ready" ev.invariant_violations)) [
      | inl e ↦ let h' = rw e at h in cc
      | inr e ↦ elim (Option-cases (first_hard cfg.hard_invariants ev.invariant_violations)) [
        | inr (v, q) ↦ let h' = rw (e, q) at h in cc
        | inl q ↦
            let h' = rw (e, q) at h in
            (
              ground arith,
              ground arith,
              (first_hard-none cfg.hard_invariants ev.invariant_violations).0 q,
              ground arith,
              ground arith,
              ground arith,
            )
      ]
    ]

check_disqualification_complete :
    (ev : CandidateEvidence) (cfg : ScoringConfig) (ready : Bool)
    → IsSufficient ev cfg ready
    → check_disqualification ev cfg ready ≡ none
unfolding check_disqualification
check_disqualification_complete ev cfg ready (r, twin, soft, complete, mirrored, enough) =
    let none_hard = (first_hard-none cfg.hard_invariants ev.invariant_violations).1 soft in
    let few : ltb (length ev.probes) cfg.min_probe_samples ≡ false = ground arith in
    rw (r, twin, none_hard, complete, mirrored, few) refl

-- What a score says of the evidence it is for.
abbrev pub IsScoreOf : CandidateEvidence → ScoringConfig → Bool → CandidateScore → Type 0
IsScoreOf ev cfg ready s =
    (s.plan_id ≡ ev.plan_id)
    × ((s.disqualified ≡ false) ↔ IsSufficient ev cfg ready)
    × (s.disqualified ≡ true → s.composite ≡ 1000000)

score_with-IsScoreOf :
    (ev : CandidateEvidence) (cfg : ScoringConfig) (ready : Bool) (blast : Ratio)
    → IsScoreOf ev cfg ready (score_with ev cfg ready blast)
unfolding score_with composite_of
score_with-IsScoreOf ev cfg ready blast =
    elim (Option-cases (check_disqualification ev cfg ready)) [
      | inl e ↦
          rw e
            (refl, ((λ _. check_disqualification_sound ev cfg ready e), λ _. refl), λ h. absurd cc)
      | inr (reason, e) ↦ rw e (
        refl,
        (
          (λ h. absurd cc),
          λ h. let e' = check_disqualification_complete ev cfg ready h in absurd cc,
        ),
        λ _. refl,
      )
    ]

-- A candidate that has a score is not disqualified exactly if its twin was ready, no hard invariant
-- was violated in it, and its evidence is complete, with few enough mirrored requests dropped and
-- enough probe samples; and the composite score of a disqualified candidate is 1.
pub score_candidate-IsScoreOf :
    (loaded : ScoringConfig) (config : Option ScoringConfig)
    (shares : Option (List (String × Ratio))) (graph : Option ServiceGraph) (ev : CandidateEvidence)
    (twin_ready : Bool) (radius : Option Ratio) (s : CandidateScore)
    → score_candidate loaded config shares graph ev twin_ready radius ≡ some s
    → IsScoreOf ev (or_config config loaded) twin_ready s
unfolding score_candidate
score_candidate-IsScoreOf loaded config shares graph ev twin_ready radius s e =
    let blast =
      compute_blast_subscore loaded.service_request_shares ev.observed_blast_set shares graph
        radius in
    let cfg = or_config config loaded in
    let (b, p, q) = >>=-some blast (λ b. some (score_with ev cfg twin_ready b)) s e in
    let same : score_with ev cfg twin_ready b ≡ s = cc in
    rw (← same) (score_with-IsScoreOf ev cfg twin_ready b)
