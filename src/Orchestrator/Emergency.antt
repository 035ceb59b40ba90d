-- ===== src/Orchestrator/Emergency.antt =====
-- src/understudy/orchestrator/cleanup.py and timeouts.py: what is done when an incident runs out of
-- its time. The services are a parameter: whether the n-th call to them raises, and with which text.
-- Cancellation of the escalation itself is left out.
pub mod Reached
use understudy.Common.{
  ℕ, suc, ◌+◌, String, Bool, true, false, Option, none, some, List, [], ◌∷◌, ◌++◌, length, str_eq,
  if◌then◌else◌, ◌<>◌,
}
use understudy.Contracts.Enums.{escalated}
use understudy.Contracts.Incident.{TwinHandle}
use understudy.Contracts.Run.{RunRecord}
use understudy.Orchestrator.State.{State, to_run_record}

-- A call to a service.
pub data Call : Type 0 where
  unregister_twin : String → Call
  teardown_all : String → Call
  escalate_pagerduty : String → String → Call
  record_run : RunRecord → Call

abbrev pub Services : Type 0
Services = ℕ → Call → Option String

-- The error of a call that raises.
abbrev described : String → Option String → List String
described call none = []
described call (some text) = (call <> " failed: " <> text) ∷ []

-- The text for an incident without an id.
abbrev pub or_unknown : String → String
or_unknown i = if str_eq i "" then "unknown" else i

-- `state.model_copy(update=updates)`
abbrev pub escalated_state : State → ℕ → String → State
escalated_state s now reason = record {
  incident_id = s.incident_id;
  context = s.context;
  plans = s.plans;
  twins = s.twins;
  evidence = s.evidence;
  tournament = s.tournament;
  verdict = s.verdict;
  outcome = some escalated;
  errors = s.errors;
  alert = s.alert;
  started_at = s.started_at;
  finished_at = some now;
  prod_applied_plan_id = s.prod_applied_plan_id;
  prod_outcome = s.prod_outcome;
  escalation_reason = some reason;
  escalated_flag = true;
  scenario_id = s.scenario_id;
}

module _ (services : Services) where
  -- The loop over the twins from the n-th call on: the calls and the errors.
  unfoldable pub unregister_all : ℕ → List TwinHandle → List Call × List String
  unregister_all n [] = ([], [])
  unregister_all n (t ∷ ts) =
      let rest = unregister_all (suc n) ts in
      let call = unregister_twin t.twin_id in
      (
        call ∷ rest.0,
        described ("unregister_twin(" <> t.twin_id <> ")") (services n call) ++ rest.1,
      )

  unfoldable pub cleanup_incident_twins : List TwinHandle → String → List Call × List String
  unfolding unregister_all
  cleanup_incident_twins twins incident =
      let unregistered = unregister_all 0 twins in
      if str_eq incident "" then unregistered else (
        unregistered.0 ++ teardown_all incident ∷ [],
        unregistered.1
            ++ described ("teardown_all(" <> incident <> ")")
                (services (length twins) (teardown_all incident)),
      )

  -- The record of an incident with a context is written, and returned even if writing it raises.
  abbrev pub persisted : Option RunRecord → List Call
  persisted none = []
  persisted (some r) = record_run r ∷ []

  abbrev pub emergency_record : State → ℕ → String → Option RunRecord
  emergency_record s now reason = elim s.context [
    | none ↦ none
    | some c ↦ to_run_record (escalated_state s now reason) now
  ]

  unfoldable pub execute_emergency_escalation : State → ℕ → String → List Call × Option RunRecord
  unfolding cleanup_incident_twins to_run_record
  execute_emergency_escalation s now reason =
      let r = emergency_record s now reason in
      (
        (cleanup_incident_twins s.twins s.incident_id).0
            ++ escalate_pagerduty (or_unknown s.incident_id) reason ∷ persisted r,
        r,
      )
