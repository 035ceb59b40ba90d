-- ===== src/Tests/Scores.antt =====
-- The scores of two rehearsed candidates, and the winner of the tournament between them.
use understudy.Common.{
  ℕ, zero, suc, ◌≤◌, String, true, false, Option, none, some, List, [], ◌∷◌, pos, ◌+ℤ◌, of_ℤ, Ratio,
  ratio, ◌≡◌, refl, ◌↔◌, All, Memᴰ, over_ratio, plus_ratio, times_ratio, clamp_ratio,
  ten_thousandths, starts_with, arith,
}
use understudy.Graph.Service.{ServiceGraph}
use understudy.Contracts.Incident.{MirrorStats}
use understudy.Contracts.Evidence.{ProbeSample, CandidateEvidence, CandidateScore}
use understudy.Tournament.Arbiter.{
  arbitrate, derive_winner_from_scores, sorted_scores, insert_score, score_margin, runner_up_of,
  conclude, is_viable,
}
use understudy.Tournament.Floats.{round_4}
use understudy.Tests.Floats.{low, low-IsAccurate}
use understudy.Tournament.Arbiter.Deciding.{Asserts}
use understudy.Tournament.Arbiter.Winner.{derive_winner_from_scores-least, Clears}
use understudy.Tournament.Scorer.{
  default_config, compute_recovery_subscore, total_share, observed_share, compute_blast_subscore,
  compute_downstream_subscore, compute_violations_subscore, first_hard, check_disqualification,
  raw_composite, composite_of, score_with, score_candidate, score_candidates,
}
use understudy.Tournament.Scorer.Bounds.{IsNormal, score_candidate-IsNormal}
use understudy.Tournament.Scorer.Sufficiency.{IsSufficient, IsScoreOf, score_candidate-IsScoreOf}
use understudy.Tournament.Scorer.Outcome.{
  Missing, score_candidate-raises_iff, score_candidates-Asserts, winner-IsSufficient,
}

abbrev probe : ProbeSample
probe = record { at = 0; healthy = true; p99_latency_ms = of_ℤ (pos 80); error_rate = of_ℤ (pos 0) }

abbrev repeat : ℕ → List ProbeSample
repeat zero = []
repeat (suc n) = probe ∷ repeat n

abbrev mirrored : MirrorStats
mirrored = record { twin_id = "twin"; delivered = 99; dropped = 1 }

abbrev evidence : String → ℕ → List String → CandidateEvidence
evidence plan seconds observed = record {
  plan_id = plan;
  twin_id = "twin";
  applied_at = 0;
  probes = repeat 60;
  recovered = true;
  recovery_seconds = some (of_ℤ (pos seconds));
  observed_blast_set = observed;
  downstream_error_delta = ratio (pos 1) 100;
  invariant_violations = [];
  mirror_stats = mirrored;
  evidence_complete = true;
}

abbrev quick : CandidateEvidence
quick = evidence "a" 18 ("worker" ∷ [])

abbrev slow : CandidateEvidence
slow = evidence "b" 170 ("edge-gateway" ∷ "worker" ∷ [])

abbrev or_empty : Option (List CandidateScore) → List CandidateScore
or_empty (some s) = s
or_empty none = []

abbrev scored : List CandidateScore
scored = or_empty (score_candidates default_config none none none [] [] (quick ∷ slow ∷ []))

abbrev worst : CandidateScore
worst = record {
  plan_id = "";
  composite = 0;
  components = [];
  disqualified = true;
  disqualification_reason = none;
}

abbrev or_worst : Option CandidateScore → CandidateScore
or_worst (some s) = s
or_worst none = worst

abbrev quick_score : CandidateScore
quick_score = or_worst (score_candidate default_config none none none quick true none)

score_candidate-IsNormal_example : IsNormal quick_score
unfolding score_candidate compute_blast_subscore observed_share total_share plus_ratio clamp_ratio
score_candidate-IsNormal_example =
    score_candidate-IsNormal default_config none none none quick true none quick_score refl

score_candidate-IsScoreOf_example : IsScoreOf quick default_config true quick_score
unfolding score_candidate compute_blast_subscore observed_share total_share plus_ratio clamp_ratio
score_candidate-IsScoreOf_example =
    score_candidate-IsScoreOf default_config none none none quick true none quick_score refl

abbrev no_radius : Option Ratio
no_radius = none

abbrev no_graph : Option ServiceGraph
no_graph = none

score_candidate-raises_iff_example :
    (score_candidate default_config none (some []) no_graph quick true no_radius ≡ none)
    ↔ ((no_radius ≡ none) × (no_graph ≡ none) × Missing [] ("worker" ∷ []))
score_candidate-raises_iff_example =
    score_candidate-raises_iff default_config none (some []) no_graph quick true no_radius

abbrev or_nobody : Option String → String
or_nobody (some w) = w
or_nobody none = ""

derive_winner_from_scores-least_example :
    (top : CandidateScore) × (top.plan_id ≡ "a")
    × Memᴰ top (quick_score ∷ [])
    × (top.disqualified ≡ false)
    × All (λ s. is_viable s ≡ true → top.composite ≤ s.composite) (quick_score ∷ [])
    × All (λ s. is_viable s ≡ true → Clears (pos 150000) top s) (quick_score ∷ [])
unfolding score_candidate compute_blast_subscore observed_share total_share plus_ratio clamp_ratio
    score_with composite_of ten_thousandths raw_composite times_ratio over_ratio
    compute_recovery_subscore compute_downstream_subscore compute_violations_subscore
    check_disqualification first_hard starts_with derive_winner_from_scores sorted_scores
    insert_score score_margin ◌+ℤ◌
derive_winner_from_scores-least_example =
    derive_winner_from_scores-least low (quick_score ∷ []) (pos 150000) "a" low-IsAccurate
      (omega arith, omega arith) (omega arith, tt) refl

score_candidates-Asserts_example : Asserts (arbitrate low none none "inc_1" (pos 150000) 7 scored)
unfolding score_candidates score_candidate compute_blast_subscore observed_share total_share
    plus_ratio clamp_ratio
score_candidates-Asserts_example =
    score_candidates-Asserts default_config none none none [] [] low none none "inc_1" (pos 150000)
      7 1500 low-IsAccurate (omega arith) refl (quick ∷ slow ∷ []) scored refl

winner-IsSufficient_example :
    (ev : CandidateEvidence) × Memᴰ ev (quick ∷ slow ∷ [])
    × (ev.plan_id ≡ "a")
    × IsSufficient ev default_config true
unfolding score_candidates score_candidate compute_blast_subscore observed_share total_share
    plus_ratio clamp_ratio score_with composite_of ten_thousandths raw_composite times_ratio
    over_ratio compute_recovery_subscore compute_downstream_subscore compute_violations_subscore
    check_disqualification first_hard starts_with derive_winner_from_scores sorted_scores
    insert_score score_margin runner_up_of round_4 conclude arbitrate ◌+ℤ◌
winner-IsSufficient_example =
    winner-IsSufficient default_config none none none [] [] low none none "inc_1" (pos 150000) 7
      (quick ∷ slow ∷ []) scored "a" refl refl
