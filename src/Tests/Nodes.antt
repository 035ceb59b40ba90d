-- ===== src/Tests/Nodes.antt =====
-- The nodes around the safety kernel and the actuator, on a won tournament.
use understudy.Common.{
  none, List, ◌+ℤ◌, neg, add, set_of, insert_sorted, sorted, union, strip, lstrip, rstrip, is_space,
  str_leb, refl,
}
use understudy.Kernel.Facts.{find_fact, find_key}
use understudy.Kernel.Context.{
  get_fact, get_raw, get_int, get_bool, get_float, get_str, get_datetime, get_set, register,
  int_const, bool_const, real_const, string_const, datetime_const, lookup_fact, has_fact,
  find_const, matches_subscript, ◌>>=◌,
}
use understudy.Kernel.Invariants.{
  replica_floor, migration_boundary, mutation_budget, evidence_sufficiency, add_deployments,
  mutated_services, max_unavailable, replica_deltas, floor_condition, floor_conditions, commit_name,
}
use understudy.Kernel.Targets.{
  namespace_scope, single_writer, reversibility, add_namespaces, canonical_items,
}
use understudy.Kernel.Blast.{
  blast_containment, add_names, add_dicts, add_fact_targets, plan_services, target_services,
  direct_callers, all_callers, facts_size,
}
use understudy.Common.{true, false, Option, some, [], ◌∷◌, pos, ◌≡◌}
use understudy.Contracts.Enums.{decided, RunOutcome}
use understudy.Contracts.Plan.{RemediationPlan}
use understudy.Contracts.Evidence.{TournamentResult, CandidateEvidence}
use understudy.Contracts.Incident.{IncidentContext}
use understudy.Kernel.Facts.{Fact}
use understudy.Kernel.Verify.{
  KernelVerdict, proof_invariants, verify, verify_from, on_build, on_check, all_missing,
}
use understudy.Kernel.Verify.Catalogue.{IsSafe}
use understudy.Actuator.{
  apply_to_production, assert_k10_authorisation, sampled, recorded, applied, probed,
  build_pre_actuation_run_record,
}
use understudy.Actuator.Authorised.{Authorised}
use understudy.Orchestrator.State.{State}
use understudy.Orchestrator.Nodes.{
  safety_kernel, facts_for, with_namespaces, actuate, verdict_update, of_incident,
}
use understudy.Orchestrator.Nodes.Proved.{
  IsWinner, actuate-Authorised, safety_kernel-IsSafe, kernel,
}
use understudy.Tests.Solver.{substituting, substituting-IsSound}
use understudy.Tests.Kernels.{host, plan, facts}
use understudy.Tests.Safe.{verdict_of}
use understudy.Tests.Production.{restart, passed, recovery}

abbrev tournament_won : TournamentResult
tournament_won = record {
  incident_id = "inc_1";
  outcome = decided;
  scores = [];
  llm_ranking = none;
  llm_agreement = none;
  winner_plan_id = some "p1";
  runner_up_plan_id = none;
  margin = some (pos 500000);
  decided_at = 7;
}

abbrev state_with : RemediationPlan → Option KernelVerdict → State
state_with p v = record {
  incident_id = "inc_1";
  context = none;
  plans = p ∷ [];
  twins = [];
  evidence = [];
  tournament = some tournament_won;
  verdict = v;
  outcome = none;
  errors = [];
  alert = none;
  started_at = none;
  finished_at = none;
  prod_applied_plan_id = none;
  prod_outcome = none;
  escalation_reason = none;
  escalated_flag = false;
  scenario_id = none;
}

actuate-Authorised_example :
    (true ≡ true)
    × (p : RemediationPlan) × (v : KernelVerdict) × IsWinner (state_with restart (some passed)) p
    × (some passed ≡ some v)
    × Authorised p v 200 60000000
unfolding actuate apply_to_production assert_k10_authorisation
actuate-Authorised_example =
    actuate-Authorised 60000000 true true true (λ _. true) none recovery 200 (λ _. "denied")
      (state_with restart (some passed)) sampled
      (recorded (build_pre_actuation_run_record restart passed 200 none)
        ∷ applied restart
        ∷ probed
        ∷ [])
      refl

abbrev given : RemediationPlan → Option CandidateEvidence → Option IncidentContext → List Fact
given p e c = facts

abbrev verdict : KernelVerdict
verdict =
    of_incident "inc_1"
      (verdict_of (verify substituting (λ _. 0) 5000 "inc_1" 9 host proof_invariants plan facts))

abbrev no_outcome : Option RunOutcome
no_outcome = none

safety_kernel-IsSafe_example :
    (no_outcome ≡ none)
    × (p : RemediationPlan) × IsWinner (state_with plan none) p
    × IsSafe host p (
        facts_for given 9
          (kernel given (λ _. "") "" substituting substituting-IsSound (λ _. 0) 5000 "inc_1" 9 host)
          (λ _. "")
          ""
          (state_with plan none)
          p)
unfolding verify verify_from on_build on_check all_missing proof_invariants substituting
    replica_floor namespace_scope migration_boundary blast_containment single_writer mutation_budget
    evidence_sufficiency reversibility get_fact get_raw get_int get_bool get_float get_str
    get_datetime get_set register int_const bool_const real_const string_const datetime_const
    lookup_fact has_fact find_const matches_subscript find_fact find_key ◌>>=◌ ◌+ℤ◌ neg add set_of
    insert_sorted sorted union add_deployments mutated_services max_unavailable replica_deltas
    floor_condition floor_conditions commit_name add_namespaces canonical_items strip lstrip rstrip
    is_space str_leb add_names add_dicts add_fact_targets plan_services target_services
    direct_callers all_callers facts_size safety_kernel facts_for with_namespaces
safety_kernel-IsSafe_example =
    safety_kernel-IsSafe given (λ _. "") "" substituting substituting-IsSound (λ _. 0) 5000 "inc_1"
      9 host (state_with plan none) (verdict_update (some verdict) none none) verdict refl refl refl
