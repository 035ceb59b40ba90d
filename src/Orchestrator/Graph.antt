-- ===== src/Orchestrator/Graph.antt =====
-- src/understudy/orchestrator/graph.py: the nodes of the control loop, the routers, the edges of
-- `build_graph`, and the runner that turns a node's exception into an error. The nodes themselves
-- are a parameter. A compiled LangGraph runs one node, merges what it returns by the reducers,
-- takes the edge that the router names, and stops at END; an exception of a reducer leaves it.
pub mod Termination
pub mod Guards
use understudy.Common.{
  ℕ, zero, suc, String, Bool, true, false, not, ◌||◌, Option, none, some, List, [], ◌∷◌, is_empty,
  if◌then◌else◌, str_eq,
}
use understudy.Contracts.Enums.{is_pass, is_decided}
use understudy.Contracts.Run.{ProdOutcome, resolved, not_resolved, worsened}
use understudy.Orchestrator.State.{State, Update, no_update, apply_update, is_escalated}

pub data Node : Type 0 where
  ingest gather_context plan_candidates fork_fleet register_mirrors apply_candidates : Node
  observe tournament safety_kernel actuate notify_slack escalate_pagerduty : Node
  teardown_fleet record_run handle_failure end : Node

abbrev pub is_end : Node → Bool
is_end end = true
is_end _ = false

abbrev pub has_errors : State → Bool
has_errors s = not (is_empty s.errors)

unfoldable pub route_linear : Node → State → Node
route_linear next_node s = if has_errors s then handle_failure else next_node

abbrev pub has_winner : Option String → Bool
has_winner none = false
has_winner (some w) = not (str_eq w "")

-- A tournament result that names the plan it decided for.
abbrev pub is_won : State → Bool
is_won s = elim s.tournament [
  | none ↦ false
  | some t ↦ if is_decided t.outcome then has_winner t.winner_plan_id else false
]

unfoldable pub route_tournament : State → Node
route_tournament s =
    if has_errors s
    then handle_failure
    else if not (is_won s) || is_escalated s.outcome
    then escalate_pagerduty
    else safety_kernel

abbrev pub is_resolved : Option ProdOutcome → Bool
is_resolved (some resolved) = true
is_resolved _ = false

unfoldable pub route_actuation : State → Node
route_actuation s =
    if has_errors s
    then handle_failure
    else if not (is_resolved s.prod_outcome)
    then escalate_pagerduty
    else notify_slack

abbrev pub is_passed : State → Bool
is_passed s = elim s.verdict [ none ↦ false | some v ↦ is_pass v.verdict ]

unfoldable pub route_safety_kernel : State → Node
route_safety_kernel s =
    if has_errors s
    then handle_failure
    else if not (is_passed s) || is_escalated s.outcome
    then escalate_pagerduty
    else actuate

-- The edges that `build_graph` adds.
unfoldable pub next : Node → State → Node
unfolding route_linear route_tournament route_actuation route_safety_kernel
next ingest s = route_linear gather_context s
next gather_context s = route_linear plan_candidates s
next plan_candidates s = route_linear fork_fleet s
next fork_fleet s = route_linear register_mirrors s
next register_mirrors s = route_linear apply_candidates s
next apply_candidates s = route_linear observe s
next observe s = route_linear tournament s
next tournament s = route_tournament s
next safety_kernel s = route_safety_kernel s
next actuate s = route_actuation s
next notify_slack s = route_linear teardown_fleet s
next escalate_pagerduty s = route_linear teardown_fleet s
next teardown_fleet s = route_linear record_run s
next record_run s = route_linear end s
next handle_failure s = end
next end s = end

pub data NodeResult : Type 0 where
  returns : Update → NodeResult
  raises : String → NodeResult

-- `_runner`: an exception becomes one error text.
abbrev pub runner : NodeResult → Update
runner (returns u) = u
runner (raises text) = record {
  incident_id = none;
  context = none;
  plans = none;
  twins = none;
  evidence = none;
  tournament = none;
  verdict = none;
  outcome = none;
  errors = some (text ∷ []);
  alert = none;
  started_at = none;
  finished_at = none;
  prod_applied_plan_id = none;
  prod_outcome = none;
  escalation_reason = none;
  escalated_flag = none;
  scenario_id = none;
}

pub data Run : Type 0 where
  finished : State → Run
  refused : Run
  out_of_fuel : Run

module _ (node : Node → State → NodeResult) where
  abbrev pub step : Node → State → Option State
  step n s = apply_update s (runner (node n s))

  -- From node `n` on, for at most `k` nodes: the nodes entered, each with the state it is given,
  -- and what the run comes to.
  unfoldable pub run : ℕ → Node → State → List (Node × State) × Run
  unfolding apply_update next
  run zero n s = if is_end n then ([], finished s) else ([], out_of_fuel)
  run (suc k) n s = if is_end n then ([], finished s) else elim (step n s) [
    | none ↦ ((n, s) ∷ [], refused)
    | some t ↦ let later = run k (next n t) t in ((n, s) ∷ later.0, later.1)
  ]
