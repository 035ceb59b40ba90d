-- ===== src/Contracts/Evidence.antt =====
-- src/understudy/contracts/evidence.py. A composite score is a fraction; the named subscores of a
-- score are not read here.
use understudy.Common.{ℕ, String, Bool, Option, List, Ratio, ℤ}
use understudy.Contracts.Enums.{TournamentOutcome}
use understudy.Contracts.Incident.{MirrorStats}

pub record ProbeSample : Type 0 where
  pub at : ℕ
  pub healthy : Bool
  pub p99_latency_ms : Ratio
  pub error_rate : Ratio

pub record CandidateEvidence : Type 0 where
  pub plan_id : String
  pub twin_id : String
  pub applied_at : ℕ
  pub probes : List ProbeSample
  pub recovered : Bool
  pub recovery_seconds : Option Ratio
  pub observed_blast_set : List String
  pub downstream_error_delta : Ratio
  pub invariant_violations : List String
  pub mirror_stats : MirrorStats
  pub evidence_complete : Bool

-- `composite` counts millionths; 0 is best and 1,000,000 is worst.
pub record CandidateScore : Type 0 where
  pub plan_id : String
  pub composite : ℕ
  pub components : List (String × Ratio)
  pub disqualified : Bool
  pub disqualification_reason : Option String

-- `margin` counts millionths.
pub record TournamentResult : Type 0 where
  pub incident_id : String
  pub outcome : TournamentOutcome
  pub scores : List CandidateScore
  pub llm_ranking : Option (List String)
  pub llm_agreement : Option Bool
  pub winner_plan_id : Option String
  pub runner_up_plan_id : Option String
  pub margin : Option ℤ
  pub decided_at : ℕ
