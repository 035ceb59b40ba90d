-- ===== src/Tests/Emergency.antt =====
-- An incident runs out of its time while every service is down.
use understudy.Common.{false, none, some, [], ◌∷◌, pos}
use understudy.Contracts.Incident.{TwinHandle, ready}
use understudy.Orchestrator.State.{State}
use understudy.Orchestrator.Emergency.{Services}
use understudy.Tests.Candidates.{situation}

abbrev down : Services
down n call = some "503"

abbrev twin : TwinHandle
twin = record {
  twin_id = "twin_0";
  incident_id = "inc_1";
  candidate_index = pos 0;
  namespace = "ust-twin-0";
  database = "twin_0";
  forked_from_snapshot_at = 0;
  ready_at = none;
  state = ready;
}

abbrev stuck : State
stuck = record {
  incident_id = "inc_1";
  context = some situation;
  plans = [];
  twins = twin ∷ [];
  evidence = [];
  tournament = none;
  verdict = none;
  outcome = none;
  errors = [];
  alert = none;
  started_at = none;
  finished_at = none;
  prod_applied_plan_id = none;
  prod_outcome = none;
  escalation_reason = none;
  escalated_flag = false;
  scenario_id = none;
}
