-- ===== src/Contracts/Run.antt =====
-- src/understudy/contracts/run.py
use understudy.Common.{ℕ, String, Option, List}
use understudy.Contracts.Enums.{RunOutcome}
use understudy.Contracts.Plan.{RemediationPlan}
use understudy.Contracts.Incident.{IncidentContext}
use understudy.Contracts.Evidence.{CandidateEvidence, TournamentResult}
use understudy.Kernel.Verify.{KernelVerdict}

pub data ProdOutcome : Type 0 where
  resolved not_resolved worsened : ProdOutcome

pub record RunRecord : Type 0 where
  pub run_id : String
  pub incident_id : String
  pub scenario_id : Option String
  pub started_at : ℕ
  pub finished_at : Option ℕ
  pub outcome : RunOutcome
  pub context : IncidentContext
  pub plans : List RemediationPlan
  pub evidence : List CandidateEvidence
  pub tournament : Option TournamentResult
  pub verdict : Option KernelVerdict
  pub prod_applied_plan_id : Option String
  pub prod_outcome : Option ProdOutcome
  pub escalation_reason : Option String
