-- ===== src/Tests/Kernels.antt =====
-- A restart of one service with the facts that the kernel reads, and what the invariants build.
use understudy.Common.{
  true, false, none, some, List, [], ◌∷◌, pos, of_ℤ, ratio, ◌+ℤ◌, neg, add, set_of, insert_sorted,
  sorted, union, strip, lstrip, rstrip, is_space, str_leb, refl,
}
use understudy.Contracts.Enums.{restart_workload, rollback_deploy}
use understudy.Contracts.Plan.{
  RemediationPlan, irreversible, reversible, Header, ResourceRef, deployment, params_for, planner,
}
use understudy.Kernel.Facts.{
  FactName, plain, sub, Fact, Value, scalar, coll, int, bool, real, str, time, ref, mapping, simple,
  config, find_fact, find_key,
}
use understudy.Kernel.Term.{Formula, constant}
use understudy.Kernel.Context.{
  Host, new_context, ok, Action, get_fact, get_raw, get_int, get_bool, get_float, get_str,
  get_datetime, get_set, register, int_const, bool_const, real_const, string_const, datetime_const,
  lookup_fact, has_fact, find_const, matches_subscript, ◌>>=◌,
}
use understudy.Kernel.Invariants.{
  replica_floor, migration_boundary, mutation_budget, evidence_sufficiency, add_deployments,
  mutated_services, max_unavailable, replica_deltas, floor_condition, floor_conditions, commit_name,
  default_max_evidence_age, default_min_probe_samples, default_mirror_drop_ceiling,
}
use understudy.Kernel.Targets.{
  namespace_scope, single_writer, reversibility, add_namespaces, canonical_items,
}
use understudy.Kernel.Invariants.Bounds.{WithinBudget, ReplicaFloor}
use understudy.Kernel.Verify.Catalogue.{DefaultEvidence}
use understudy.Kernel.Verify.Meaning.{
  mutation_budget-means, evidence_sufficiency-means, replica_floor-means, namespace_scope-means,
  migration_boundary-means, blast_containment-means, single_writer-means, reversibility-means,
}
use understudy.Kernel.Invariants.Migration.{MigrationBoundary}
use understudy.Kernel.Targets.Scope.{NamespaceScope}
use understudy.Kernel.Targets.Overlap.{SingleWriter}
use understudy.Kernel.Targets.Inverse.{Reversible}
use understudy.Kernel.Blast.Contained.{BlastContained}
use understudy.Kernel.Blast.{
  blast_containment, add_names, add_dicts, add_fact_targets, plan_services, target_services,
  direct_callers, all_callers, facts_size,
}

abbrev pub host : Host
host = record { show = λ _. ""; fromisoformat = λ _. none }

abbrev pub checkout : ResourceRef
checkout = record { namespace = "ust-prod"; kind = deployment; name = "checkout" }

abbrev pub restart : Header
restart = record {
  plan_id = "p1";
  candidate_index = pos 0;
  action = restart_workload;
  params = params_for "checkout";
  target_resources = checkout ∷ [];
  declared_blast_set = "checkout" ∷ [];
  rationale = "";
  origin = planner;
  playbook_id = none;
}

abbrev pub plan : RemediationPlan
plan = reversible restart (irreversible restart)

abbrev pub fact : FactName → Value → Fact
fact n v = record { name = n; value = simple v; source = config; observed_at = 0 }

abbrev pub facts : List Fact
facts =
    fact (plain "prod_mutations_in_window") (scalar (int (pos 0)))
    ∷ fact (plain "mutation_budget") (scalar (int (pos 1)))
    ∷ fact (plain "evidence_age_seconds") (scalar (real (of_ℤ (pos 30))))
    ∷ fact (plain "probe_sample_count") (scalar (int (pos 90)))
    ∷ fact (plain "max_drop_ratio") (scalar (real (ratio (pos 1) 100)))
    ∷ fact (sub "min_replicas" "checkout") (scalar (int (pos 2)))
    ∷ fact (sub "replicas" "checkout") (scalar (int (pos 4)))
    ∷ fact (sub "healthy_replicas" "checkout") (scalar (int (pos 4)))
    ∷ fact (sub "max_unavailable" "checkout") (scalar (int (pos 1)))
    ∷ fact (plain "authorized_namespace") (scalar (str "ust-prod"))
    ∷ fact (plain "plan_target_namespaces") (coll (str "ust-prod" ∷ []))
    ∷ fact (plain "plan_has_inverse") (scalar (bool true))
    ∷ fact (plain "plan_targets") (coll [])
    ∷ fact (plain "inverse_targets") (coll [])
    ∷ fact (plain "in_flight_plan_targets") (coll [])
    ∷ fact (plain "declared_blast_set") (coll (str "checkout" ∷ []))
    ∷ fact (plain "observed_blast_set") (coll (str "checkout" ∷ []))
    ∷ fact (sub "dependents" "checkout") (coll [])
    ∷ []

abbrev formula_with : RemediationPlan → List Fact → Action Formula → Formula
formula_with p fs act = elim (act (new_context host p fs)).0 [ ok f ↦ f | _ ↦ constant false ]

abbrev formula_of : Action Formula → Formula
formula_of = formula_with plan facts

-- Two other deployments are worked on, one of them given as a dict.
abbrev busy_facts : List Fact
busy_facts =
    fact (plain "plan_targets") (coll (ref checkout ∷ []))
    ∷ fact (plain "in_flight_plan_targets") (
        coll (
          mapping (("kind", "Deployment") ∷ ("namespace", "ust-prod") ∷ ("name", "cart") ∷ [])
          ∷ str "Deployment/ust-prod/payments"
          ∷ []))
    ∷ []

abbrev rollback : RemediationPlan
rollback = irreversible (record restart {
  action = rollback_deploy;
  params = record (params_for "checkout") { target_commit = some "abc123" };
})

-- The last migration is older than the commit that the rollback goes to, which contains none.
abbrev rollback_facts : List Fact
rollback_facts =
    fact (plain "last_migration_commit_time") (scalar (time 100))
    ∷ fact (sub "rollback_target_commit_time" "abc123") (scalar (time 250))
    ∷ fact (sub "target_contains_migration" "abc123") (scalar (bool false))
    ∷ []

-- One mutation of one allowed.
mutation_budget-means_example : WithinBudget plan facts
unfolding mutation_budget get_fact get_raw get_int get_bool get_float get_str get_datetime get_set
    register int_const bool_const real_const string_const datetime_const lookup_fact has_fact
    find_const matches_subscript find_fact find_key ◌>>=◌ ◌+ℤ◌
mutation_budget-means_example =
    mutation_budget-means host plan facts (formula_of mutation_budget) refl refl

-- Evidence of thirty seconds' age, ninety samples and one request in a hundred dropped.
evidence_sufficiency-means_example : DefaultEvidence facts
unfolding evidence_sufficiency get_fact get_raw get_int get_bool get_float get_str get_datetime
    get_set register int_const bool_const real_const string_const datetime_const lookup_fact
    has_fact find_const matches_subscript find_fact find_key ◌>>=◌
evidence_sufficiency-means_example =
    evidence_sufficiency-means host plan facts
      (formula_of (
        evidence_sufficiency default_max_evidence_age default_min_probe_samples
          default_mirror_drop_ceiling))
      refl refl

-- Four replicas of at least two, with one at most away.
replica_floor-means_example : ReplicaFloor plan facts
unfolding replica_floor get_fact get_raw get_int get_bool get_float get_str get_datetime get_set
    register int_const bool_const real_const string_const datetime_const lookup_fact has_fact
    find_const matches_subscript find_fact find_key ◌>>=◌ ◌+ℤ◌ neg add set_of insert_sorted sorted
    union add_deployments mutated_services max_unavailable replica_deltas floor_condition
    floor_conditions commit_name add_namespaces canonical_items strip lstrip rstrip is_space str_leb
replica_floor-means_example =
    replica_floor-means host plan facts (formula_of replica_floor) refl refl

-- The plan stays in ust-prod.
namespace_scope-means_example : NamespaceScope host plan facts
unfolding namespace_scope get_fact get_raw get_int get_bool get_float get_str get_datetime get_set
    register int_const bool_const real_const string_const datetime_const lookup_fact has_fact
    find_const matches_subscript find_fact find_key ◌>>=◌ ◌+ℤ◌ neg add set_of insert_sorted sorted
    union add_deployments mutated_services max_unavailable replica_deltas floor_condition
    floor_conditions commit_name add_namespaces canonical_items strip lstrip rstrip is_space str_leb
namespace_scope-means_example =
    namespace_scope-means host plan facts (formula_of namespace_scope) refl refl

-- A rollback to a commit after the last migration.
migration_boundary-means_example : MigrationBoundary host rollback rollback_facts
unfolding migration_boundary get_fact get_raw get_int get_bool get_float get_str get_datetime
    get_set register int_const bool_const real_const string_const datetime_const lookup_fact
    has_fact find_const matches_subscript find_fact find_key ◌>>=◌ ◌+ℤ◌ neg add set_of insert_sorted
    sorted union add_deployments mutated_services max_unavailable replica_deltas floor_condition
    floor_conditions commit_name add_namespaces canonical_items strip lstrip rstrip is_space str_leb
migration_boundary-means_example =
    migration_boundary-means host rollback rollback_facts
      (formula_with rollback rollback_facts migration_boundary) refl refl

-- The two deployments in flight are others than that of the plan.
single_writer-means_example : SingleWriter host plan busy_facts
unfolding single_writer get_fact get_raw get_int get_bool get_float get_str get_datetime get_set
    register int_const bool_const real_const string_const datetime_const lookup_fact has_fact
    find_const matches_subscript find_fact find_key ◌>>=◌ ◌+ℤ◌ neg add set_of insert_sorted sorted
    union add_deployments mutated_services max_unavailable replica_deltas floor_condition
    floor_conditions commit_name add_namespaces canonical_items strip lstrip rstrip is_space str_leb
single_writer-means_example =
    single_writer-means host plan busy_facts (formula_with plan busy_facts single_writer) refl refl

-- The inverse restarts the same workload.
reversibility-means_example : Reversible host plan facts
unfolding reversibility get_fact get_raw get_int get_bool get_float get_str get_datetime get_set
    register int_const bool_const real_const string_const datetime_const lookup_fact has_fact
    find_const matches_subscript find_fact find_key ◌>>=◌ ◌+ℤ◌ neg add set_of insert_sorted sorted
    union add_deployments mutated_services max_unavailable replica_deltas floor_condition
    floor_conditions commit_name add_namespaces canonical_items strip lstrip rstrip is_space str_leb
reversibility-means_example =
    reversibility-means host plan facts (formula_of reversibility) refl refl

-- Only the restarted service is affected.
blast_containment-means_example : BlastContained host plan facts
unfolding blast_containment get_fact get_raw get_int get_bool get_float get_str get_datetime get_set
    register int_const bool_const real_const string_const datetime_const lookup_fact has_fact
    find_const matches_subscript find_fact find_key ◌>>=◌ ◌+ℤ◌ neg add set_of insert_sorted sorted
    union add_deployments mutated_services max_unavailable replica_deltas floor_condition
    floor_conditions commit_name add_namespaces canonical_items strip lstrip rstrip is_space str_leb
    add_names add_dicts add_fact_targets plan_services target_services direct_callers all_callers
    facts_size
blast_containment-means_example =
    blast_containment-means host plan facts (formula_of blast_containment) refl refl
