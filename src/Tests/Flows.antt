-- ===== src/Tests/Flows.antt =====
-- A run of the control loop, updates, inverses, a tournament and a verdict on concrete values.
use understudy.Common.{
  ℕ, String, Bool, true, false, Option, none, some, List, [], ◌∷◌, ◌++◌, map, ℤ, pos, neg, ◌+ℤ◌,
  ◌≡◌, refl, ◌↔◌, decimal, decimal_of, arith,
}
use understudy.Contracts.Enums.{scale_workload, is_no_action}
use understudy.Contracts.Plan.{RemediationPlan, irreversible, header, inverse, deployment, planner}
use understudy.Contracts.Evidence.{CandidateScore}
use understudy.Orchestrator.State.{State, Update, no_update, apply_update, reduce_incident_id}
use understudy.Orchestrator.State.Lifecycle.{Keeps, apply_all, apply_all-Keeps}
use understudy.Orchestrator.Reconcile.{reconcile}
use understudy.Orchestrator.Reconcile.Order.{new_ids, reconcile-keeps_ids}
use understudy.Orchestrator.Reconcile.Lookup.{first_with, last_with, or_else, reconcile-finds}
use understudy.Orchestrator.Graph.{Node, ingest, NodeResult, returns, raises, run, observe}
use understudy.Orchestrator.Graph.Termination.{Stops, run-Stops}
use understudy.Orchestrator.Graph.Guards.{
  Entered, EndsWell, last_node, run-enters_guarded, run-ends_recorded,
}
use understudy.Planner.Inverse.{
  Result, ok, Hints, synthesize_inverse, inverse_builder, build_inverse_scale_workload,
}
use understudy.Planner.Inverse.Laws.{
  synthesize_inverse-mirrors, synthesize_inverse-none_iff, scale-round_trip,
}
use understudy.Tournament.Arbiter.{
  arbitrate, assertion_error, conclude, runner_up_of, derive_winner_from_scores, score_margin,
  sorted_scores, insert_score,
}
use understudy.Tournament.Floats.{round_4}
use understudy.Tests.Floats.{low, low-IsAccurate}
use understudy.Tournament.Arbiter.Deciding.{
  decision, Asserts, arbitrate-ignores_advice, arbitrate-Asserts,
}

abbrev start : State
start = record {
  incident_id = "inc_1";
  context = none;
  plans = [];
  twins = [];
  evidence = [];
  tournament = none;
  verdict = none;
  outcome = none;
  errors = [];
  alert = none;
  started_at = none;
  finished_at = none;
  prod_applied_plan_id = none;
  prod_outcome = none;
  escalation_reason = none;
  escalated_flag = false;
  scenario_id = none;
}

-- An update that starts the incident, pages somebody and reports an error.
abbrev paged : Update
paged = record {
  incident_id = some "inc_1";
  context = none;
  plans = none;
  twins = none;
  evidence = none;
  tournament = none;
  verdict = none;
  outcome = none;
  errors = some ("late" ∷ []);
  alert = none;
  started_at = some 5;
  finished_at = none;
  prod_applied_plan_id = none;
  prod_outcome = none;
  escalation_reason = none;
  escalated_flag = some true;
  scenario_id = none;
}

abbrev get_state : Option State → State
get_state none = start
get_state (some s) = s

apply_all-Keeps_example : Keeps start (get_state (apply_all start (paged ∷ no_update ∷ [])))
unfolding apply_all apply_update reduce_incident_id reconcile
apply_all-Keeps_example =
    apply_all-Keeps (paged ∷ no_update ∷ []) start
      (get_state (apply_all start (paged ∷ no_update ∷ []))) refl

-- Nodes that return nothing, but for `observe`, which raises.
abbrev quiet : Node → State → NodeResult
quiet observe s = raises "TimeoutError: probe"
quiet n s = returns no_update

run-Stops_example : Stops (run quiet 14 ingest start).1
run-Stops_example = run-Stops quiet start

run-enters_guarded_example : Entered (run quiet 14 ingest start).0
run-enters_guarded_example = run-enters_guarded quiet 14 start

run-ends_recorded_example :
    EndsWell (last_node ingest (run quiet 14 ingest start).0) (run quiet 14 ingest start).1
run-ends_recorded_example = run-ends_recorded quiet 14 start

-- Values that are their own ids.
abbrev id : String → String
id s = s

reconcile-keeps_ids_example :
    map id (reconcile id ("p1" ∷ "p2" ∷ []) (some ("p3" ∷ "p1" ∷ "p3" ∷ [])))
    ≡ map id ("p1" ∷ "p2" ∷ []) ++ new_ids id ("p1" ∷ "p2" ∷ []) (some ("p3" ∷ "p1" ∷ "p3" ∷ []))
reconcile-keeps_ids_example =
    reconcile-keeps_ids id ("p1" ∷ "p2" ∷ []) (some ("p3" ∷ "p1" ∷ "p3" ∷ [])) refl

reconcile-finds_example :
    first_with id "p1" (reconcile id ("p1" ∷ "p2" ∷ []) (some ("p3" ∷ "p1" ∷ [])))
    ≡ or_else (last_with id "p1" ("p3" ∷ "p1" ∷ [])) (first_with id "p1" ("p1" ∷ "p2" ∷ []))
reconcile-finds_example = reconcile-finds id "p1" ("p1" ∷ "p2" ∷ []) ("p3" ∷ "p1" ∷ []) refl

abbrev scaling : RemediationPlan
scaling = irreversible (record {
  plan_id = "p1";
  candidate_index = pos 0;
  action = scale_workload;
  params = record {
    workload = "checkout";
    target_commit = none;
    replica_delta = some (pos 2);
    flag_name = none;
    config_key = none;
    config_value = none;
  };
  target_resources = (record { namespace = "ust-prod"; kind = deployment; name = "checkout" }) ∷ [];
  declared_blast_set = "checkout" ∷ [];
  rationale = "more replicas";
  origin = planner;
  playbook_id = none;
})

abbrev no_hints : Hints
no_hints = record {
  context = none;
  current_commit = none;
  current_config_value = none;
  cluster_workloads = none;
  config_lookup = none;
}

abbrev plan_of : Result (Option RemediationPlan) → RemediationPlan
plan_of (ok (some p)) = p
plan_of _ = scaling

abbrev down : RemediationPlan
down = plan_of (synthesize_inverse scaling no_hints)

abbrev up : RemediationPlan
up = plan_of (synthesize_inverse down no_hints)

synthesize_inverse-mirrors_example :
    ((header down).action ≡ (header scaling).action)
    × ((header down).params.workload ≡ (header scaling).params.workload)
    × ((header down).target_resources ≡ (header scaling).target_resources)
    × ((header down).declared_blast_set ≡ (header scaling).declared_blast_set)
    × ((header down).candidate_index ≡ (header scaling).candidate_index)
    × ((header down).origin ≡ (header scaling).origin)
    × (inverse down ≡ none)
unfolding synthesize_inverse inverse_builder build_inverse_scale_workload neg decimal decimal_of
synthesize_inverse-mirrors_example = synthesize_inverse-mirrors scaling down no_hints refl

synthesize_inverse-none_iff_example :
    (synthesize_inverse scaling no_hints ≡ ok none) ↔ (is_no_action (header scaling).action ≡ true)
synthesize_inverse-none_iff_example = synthesize_inverse-none_iff scaling no_hints

scale-round_trip_example :
    (delta : ℤ) × ((header scaling).params.replica_delta ≡ some delta)
    × ((header down).params.replica_delta ≡ some (neg delta))
    × (delta +ℤ neg delta ≡ pos 0)
    × ((header up).params.replica_delta ≡ some delta)
unfolding synthesize_inverse inverse_builder build_inverse_scale_workload neg decimal decimal_of
scale-round_trip_example = scale-round_trip scaling down up no_hints no_hints refl refl refl

abbrev score : String → ℕ → Bool → CandidateScore
score p c d = record {
  plan_id = p;
  composite = c;
  components = [];
  disqualified = d;
  disqualification_reason = none;
}

abbrev scores : List CandidateScore
scores = score "a" 66100 false ∷ score "b" 216100 false ∷ score "c" 1000000 true ∷ []

arbitrate-ignores_advice_example :
    decision (arbitrate low (some ("a" ∷ [])) none "inc_1" (pos 150000) 7 scores)
    ≡ decision (arbitrate low none (some ("b" ∷ [])) "inc_2" (pos 150000) 8 scores)
arbitrate-ignores_advice_example =
    arbitrate-ignores_advice low (some ("a" ∷ [])) none none (some ("b" ∷ [])) "inc_1" "inc_2"
      (pos 150000) 7 8 scores

arbitrate-Asserts_example : Asserts (arbitrate low none none "inc_1" (pos 150000) 7 scores)
arbitrate-Asserts_example =
    arbitrate-Asserts low none none "inc_1" (pos 150000) 7 1500 low-IsAccurate (omega arith) refl
      scores
      (
        ((661, refl), omega arith),
        (((2161, refl), omega arith), (((10000, refl), omega arith), tt)),
      )

-- At an ambiguity margin of six places, 0.150001, the assertion fails on the same scores.
assertion-fails : arbitrate low none none "inc_1" (pos 150001) 7 scores ≡ assertion_error
unfolding arbitrate conclude runner_up_of derive_winner_from_scores score_margin round_4
    sorted_scores insert_score ◌+ℤ◌ neg
assertion-fails = refl
