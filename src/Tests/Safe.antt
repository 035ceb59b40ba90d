-- ===== src/Tests/Safe.antt =====
-- A verdict on the restart of one service by all the PROOF invariants.
use understudy.Common.{
  none, List, ◌+ℤ◌, neg, add, set_of, insert_sorted, sorted, union, strip, lstrip, rstrip, is_space,
  str_leb, refl,
}
use understudy.Contracts.Enums.{pass}
use understudy.Kernel.Facts.{find_fact, find_key}
use understudy.Kernel.Context.{
  Outcome, ok, get_fact, get_raw, get_int, get_bool, get_float, get_str, get_datetime, get_set,
  register, int_const, bool_const, real_const, string_const, datetime_const, lookup_fact, has_fact,
  find_const, matches_subscript, ◌>>=◌,
}
use understudy.Kernel.Invariants.{
  replica_floor, migration_boundary, mutation_budget, evidence_sufficiency, add_deployments,
  mutated_services, max_unavailable, replica_deltas, floor_condition, floor_conditions, commit_name,
}
use understudy.Kernel.Targets.{
  namespace_scope, single_writer, reversibility, add_namespaces, canonical_items,
}
use understudy.Kernel.Blast.{
  blast_containment, add_names, add_dicts, add_fact_targets, plan_services, target_services,
  direct_callers, all_callers, facts_size,
}
use understudy.Kernel.Invariants.Bounds.{ReplicaFloor, WithinBudget}
use understudy.Kernel.Invariants.Migration.{MigrationBoundary}
use understudy.Kernel.Targets.Scope.{NamespaceScope}
use understudy.Kernel.Targets.Overlap.{SingleWriter}
use understudy.Kernel.Targets.Inverse.{Reversible}
use understudy.Kernel.Blast.Contained.{BlastContained}
use understudy.Kernel.Verify.{
  KernelVerdict, proof_invariants, verify, verify_from, on_build, on_check, all_missing, timed_out,
}
use understudy.Kernel.Verify.Catalogue.{DefaultEvidence, verify-pass-IsSafe}
use understudy.Tests.Solver.{substituting, substituting-IsSound}
use understudy.Tests.Kernels.{host, plan, facts}

abbrev pub verdict_of : Outcome KernelVerdict → KernelVerdict
verdict_of (ok v) = v
verdict_of _ = record {
  incident_id = "";
  plan_id = "";
  verdict = pass;
  results = List.[];
  missing_facts = List.[];
  human_reason = timed_out;
  evaluated_at = none;
}

-- The eight proofs succeed.
verify-pass-IsSafe_example :
    ReplicaFloor plan facts
    × NamespaceScope host plan facts
    × MigrationBoundary host plan facts
    × BlastContained host plan facts
    × SingleWriter host plan facts
    × WithinBudget plan facts
    × DefaultEvidence facts
    × Reversible host plan facts
unfolding verify verify_from on_build on_check all_missing proof_invariants substituting
    replica_floor namespace_scope migration_boundary blast_containment single_writer mutation_budget
    evidence_sufficiency reversibility get_fact get_raw get_int get_bool get_float get_str
    get_datetime get_set register int_const bool_const real_const string_const datetime_const
    lookup_fact has_fact find_const matches_subscript find_fact find_key ◌>>=◌ ◌+ℤ◌ neg add set_of
    insert_sorted sorted union add_deployments mutated_services max_unavailable replica_deltas
    floor_condition floor_conditions commit_name add_namespaces canonical_items strip lstrip rstrip
    is_space str_leb add_names add_dicts add_fact_targets plan_services target_services
    direct_callers all_callers facts_size
verify-pass-IsSafe_example =
    verify-pass-IsSafe substituting substituting-IsSound (λ _. 0) 5000 "inc_1" 9 host plan facts
      (verdict_of (verify substituting (λ _. 0) 5000 "inc_1" 9 host proof_invariants plan facts))
      refl refl
