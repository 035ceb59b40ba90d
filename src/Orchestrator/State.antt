-- ===== src/Orchestrator/State.antt =====
-- src/understudy/orchestrator/state.py: the state of an incident, the reducer of each field, and
-- the record of a run. An update holds `none` for a field that a node does not return. Values that
-- a node returns as dicts are validated by pydantic first: here they are the contracts' values.
pub mod Lifecycle
use understudy.Common.{
  ◌<>◌, ℕ, String, Bool, true, false, ◌||◌, Option, none, some, List, [], ◌∷◌, ◌++◌, is_empty,
  if◌then◌else◌, str_eq,
}
use understudy.Contracts.Enums.{RunOutcome, executed, escalated, failed}
use understudy.Contracts.Plan.{RemediationPlan, header}
use understudy.Contracts.Incident.{Alert, IncidentContext, TwinHandle}
use understudy.Contracts.Evidence.{CandidateEvidence, TournamentResult}
use understudy.Contracts.Run.{ProdOutcome, RunRecord}
use understudy.Kernel.Verify.{KernelVerdict}
use understudy.Orchestrator.Reconcile.{reconcile}

pub record State : Type 0 where
  pub incident_id : String
  pub context : Option IncidentContext
  pub plans : List RemediationPlan
  pub twins : List TwinHandle
  pub evidence : List CandidateEvidence
  pub tournament : Option TournamentResult
  pub verdict : Option KernelVerdict
  pub outcome : Option RunOutcome
  pub errors : List String
  pub alert : Option Alert
  pub started_at : Option ℕ
  pub finished_at : Option ℕ
  pub prod_applied_plan_id : Option String
  pub prod_outcome : Option ProdOutcome
  pub escalation_reason : Option String
  pub escalated_flag : Bool
  pub scenario_id : Option String

-- What a node returns.
pub record Update : Type 0 where
  pub incident_id : Option String
  pub context : Option IncidentContext
  pub plans : Option (List RemediationPlan)
  pub twins : Option (List TwinHandle)
  pub evidence : Option (List CandidateEvidence)
  pub tournament : Option TournamentResult
  pub verdict : Option KernelVerdict
  pub outcome : Option RunOutcome
  pub errors : Option (List String)
  pub alert : Option Alert
  pub started_at : Option ℕ
  pub finished_at : Option ℕ
  pub prod_applied_plan_id : Option String
  pub prod_outcome : Option ProdOutcome
  pub escalation_reason : Option String
  pub escalated_flag : Option Bool
  pub scenario_id : Option String

-- The empty dict.
abbrev pub no_update : Update
no_update = record {
  incident_id = none;
  context = none;
  plans = none;
  twins = none;
  evidence = none;
  tournament = none;
  verdict = none;
  outcome = none;
  errors = none;
  alert = none;
  started_at = none;
  finished_at = none;
  prod_applied_plan_id = none;
  prod_outcome = none;
  escalation_reason = none;
  escalated_flag = none;
  scenario_id = none;
}

-- `none` is the OrchestratorError.
unfoldable pub reduce_incident_id : String → Option String → Option String
reduce_incident_id current none = some current
reduce_incident_id current (some update) =
    if str_eq update ""
    then some current
    else if str_eq current ""
    then some update
    else if str_eq update current
    then some update
    else none

-- The update where there is one.
abbrev pub reduce_latest {ℓ} : {A : Type ℓ} → Option A → Option A → Option A
reduce_latest current none = current
reduce_latest current (some update) = some update

abbrev pub reduce_alert : Option Alert → Option Alert → Option Alert
reduce_alert = reduce_latest

abbrev pub reduce_context : Option IncidentContext → Option IncidentContext → Option IncidentContext
reduce_context = reduce_latest

abbrev pub reduce_tournament :
    Option TournamentResult → Option TournamentResult → Option TournamentResult
reduce_tournament = reduce_latest

abbrev pub reduce_verdict : Option KernelVerdict → Option KernelVerdict → Option KernelVerdict
reduce_verdict = reduce_latest

abbrev pub reduce_outcome : Option RunOutcome → Option RunOutcome → Option RunOutcome
reduce_outcome = reduce_latest

abbrev pub reduce_finished_at : Option ℕ → Option ℕ → Option ℕ
reduce_finished_at = reduce_latest

abbrev pub reduce_optional_str : Option String → Option String → Option String
reduce_optional_str = reduce_latest

abbrev pub reduce_prod_outcome : Option ProdOutcome → Option ProdOutcome → Option ProdOutcome
reduce_prod_outcome = reduce_latest

abbrev pub reduce_plans :
    List RemediationPlan → Option (List RemediationPlan) → List RemediationPlan
reduce_plans = reconcile (λ p. (header p).plan_id)

abbrev pub reduce_twins : List TwinHandle → Option (List TwinHandle) → List TwinHandle
reduce_twins = reconcile (λ t. t.twin_id)

abbrev pub reduce_evidence :
    List CandidateEvidence → Option (List CandidateEvidence) → List CandidateEvidence
reduce_evidence = reconcile (λ e. e.plan_id)

abbrev pub reduce_errors : List String → Option (List String) → List String
reduce_errors current none = current
reduce_errors current (some update) = current ++ update

abbrev pub reduce_escalated : Bool → Option Bool → Bool
reduce_escalated current none = current
reduce_escalated current (some update) = current || update

abbrev pub reduce_started_at : Option ℕ → Option ℕ → Option ℕ
reduce_started_at (some t) update = some t
reduce_started_at none update = update

-- Every other field by its reducer.
abbrev pub merged : State → Update → String → State
merged s u id = record {
  incident_id = id;
  context = reduce_context s.context u.context;
  plans = reduce_plans s.plans u.plans;
  twins = reduce_twins s.twins u.twins;
  evidence = reduce_evidence s.evidence u.evidence;
  tournament = reduce_tournament s.tournament u.tournament;
  verdict = reduce_verdict s.verdict u.verdict;
  outcome = reduce_outcome s.outcome u.outcome;
  errors = reduce_errors s.errors u.errors;
  alert = reduce_alert s.alert u.alert;
  started_at = reduce_started_at s.started_at u.started_at;
  finished_at = reduce_finished_at s.finished_at u.finished_at;
  prod_applied_plan_id = reduce_optional_str s.prod_applied_plan_id u.prod_applied_plan_id;
  prod_outcome = reduce_prod_outcome s.prod_outcome u.prod_outcome;
  escalation_reason = reduce_optional_str s.escalation_reason u.escalation_reason;
  escalated_flag = reduce_escalated s.escalated_flag u.escalated_flag;
  scenario_id = reduce_optional_str s.scenario_id u.scenario_id;
}

-- `none` when the incident id refuses.
unfoldable pub apply_update : State → Update → Option State
unfolding reduce_incident_id
apply_update s u = elim (reduce_incident_id s.incident_id u.incident_id) [
  | none ↦ none
  | some id ↦ some (merged s u id)
]

abbrev pub is_escalated : Option RunOutcome → Bool
is_escalated (some escalated) = true
is_escalated _ = false

abbrev pub or_executed : Option RunOutcome → RunOutcome
or_executed (some o) = o
or_executed none = executed

unfoldable pub resolved_outcome : State → RunOutcome
resolved_outcome s =
    if is_escalated s.outcome
    then escalated
    else if is_empty s.errors
    then or_executed s.outcome
    else failed

abbrev pub or_now : Option ℕ → ℕ → ℕ
or_now (some t) now = t
or_now none now = now

-- `to_run_record(now=now)`, whose run id is the incident's; `none` is the OrchestratorError.
unfoldable pub to_run_record : State → ℕ → Option RunRecord
unfolding resolved_outcome
to_run_record s now = elim s.context [
  | none ↦ none
  | some context ↦ some (record {
    run_id = "run_" <> s.incident_id;
    incident_id = s.incident_id;
    scenario_id = s.scenario_id;
    started_at = or_now s.started_at now;
    finished_at = some (or_now s.finished_at now);
    outcome = resolved_outcome s;
    context = context;
    plans = s.plans;
    evidence = s.evidence;
    tournament = s.tournament;
    verdict = s.verdict;
    prod_applied_plan_id = s.prod_applied_plan_id;
    prod_outcome = s.prod_outcome;
    escalation_reason = s.escalation_reason;
  })
]
