-- ===== src/Kernel/Invariants.antt =====
-- src/understudy/kernel/invariants: the `build` method of each formal invariant. Each reads facts
-- and returns the formula whose negation the solver checks. The proofs are in the children.
pub mod Bounds
pub mod Migration
pub mod Floor
use understudy.Common.{
  ℕ, String, Bool, true, false, not, ◌&&◌, ◌||◌, Option, none, some, List, [], ◌∷◌, ◌++◌, ℤ, pos,
  neg, Ratio, ratio, of_ℤ, is_empty, str_eq, if◌then◌else◌, add, sorted,
}
use understudy.Contracts.Enums.{is_no_action, is_rollback, is_scale, is_restart}
use understudy.Contracts.Plan.{RemediationPlan, header, ResourceRef, is_deployment, params_for}
use understudy.Kernel.Facts.{FactName, plain, sub, int, real}
use understudy.Kernel.Term.{
  Term, lit, plus, Formula, constant, truth, ge, le, negation, conj, z3_and,
}
use understudy.Kernel.Context.{
  Context, Outcome, ok, Action, pure, ◌>>=◌, ◌>>◌, has_fact, get_int, int_const, bool_const,
  real_const, string_const, datetime_const,
}

abbrev pub get_plan : Action RemediationPlan
get_plan c = (ok c.plan, c)

abbrev pub asks_fact : FactName → Action Bool
asks_fact n c = (ok (has_fact c n), c)

-- `conditions[0]` of a single condition, `z3.And(*conditions)` of any other number.
abbrev pub conjunction : List Formula → Formula
conjunction (f ∷ []) = f
conjunction fs = z3_and fs

unfoldable pub add_deployments : List ResourceRef → List String → List String
unfolding add
add_deployments [] services = services
add_deployments (t ∷ ts) services =
    add_deployments ts (if is_deployment t.kind then add t.name services else services)

-- The Deployments that a plan names, by its `workload` and by its target resources.
unfoldable pub mutated_services : RemediationPlan → List String
unfolding add_deployments add
mutated_services p =
    let h = header p in
    add_deployments h.target_resources
      (if str_eq h.params.workload "" then [] else add h.params.workload [])

abbrev pub targets_deployment : String → List ResourceRef → Bool
targets_deployment svc [] = false
targets_deployment svc (t ∷ ts) =
    (is_deployment t.kind && str_eq t.name svc) || targets_deployment svc ts

abbrev pub delta_or_zero : Option ℤ → ℤ
delta_or_zero none = pos 0
delta_or_zero (some d) = d

-- maxUnavailable, where the facts give it.
unfoldable pub max_unavailable : String → Action ℤ
max_unavailable svc = do
  known ← asks_fact (sub "max_unavailable" svc)
  if known then get_int (sub "max_unavailable" svc) else pure (pos 1)

abbrev pub scales : RemediationPlan → String → Bool
scales p svc = is_scale (header p).action && str_eq (header p).params.workload svc

abbrev pub restarts : RemediationPlan → String → Bool
restarts p svc =
    is_restart (header p).action
    && (str_eq (header p).params.workload svc || targets_deployment svc (header p).target_resources)

-- The effect of the plan on the desired and on the healthy replicas of a service.
unfoldable pub replica_deltas : RemediationPlan → String → Action (ℤ × ℤ)
unfolding max_unavailable
replica_deltas p svc =
    if scales p svc
    then pure (
      delta_or_zero (header p).params.replica_delta,
      delta_or_zero (header p).params.replica_delta,
    )
    else if restarts p svc
    then (do u ← max_unavailable svc; pure (pos 0, neg u))
    else pure (pos 0, pos 0)

unfoldable pub floor_condition : RemediationPlan → String → Action Formula
floor_condition p svc = do
  min_reps ← int_const (sub "min_replicas" svc)
  reps ← int_const (sub "replicas" svc)
  healthy_reps ← int_const (sub "healthy_replicas" svc)
  deltas ← replica_deltas p svc
  pure (
      z3_and (
        ge (plus reps (lit (int deltas.0))) min_reps
        ∷ ge (plus healthy_reps (lit (int deltas.1))) min_reps
        ∷ []))

unfoldable pub floor_conditions : RemediationPlan → List String → Action (List Formula)
floor_conditions p [] = pure []
floor_conditions p (svc ∷ rest) = do
  f ← floor_condition p svc
  fs ← floor_conditions p rest
  pure (f ∷ fs)

-- k01_replica_floor.py
unfoldable pub replica_floor : Action Formula
replica_floor = do
  p ← get_plan
  if is_empty (mutated_services p)
      then pure (constant true)
      else do fs ← floor_conditions p (sorted (mutated_services p)); pure (conjunction fs)

abbrev is_true_text : Option String → Bool
is_true_text none = false
is_true_text (some s) = not (str_eq s "")

-- The name with the target commit as its key, where there is such a fact, or the plain name.
unfoldable pub commit_name : String → Option String → Action FactName
commit_name base none = pure (plain base)
commit_name base (some commit) = do
  known ← asks_fact (sub base commit)
  pure (if not (str_eq commit "") && known then sub base commit else plain base)

-- k03_migration_boundary.py
unfoldable pub migration_boundary : Action Formula
migration_boundary = do
  p ← get_plan
  if not (is_rollback (header p).action) then pure (constant true) else do
    last_migration ← datetime_const (plain "last_migration_commit_time")
    time_name ← commit_name "rollback_target_commit_time" (header p).params.target_commit
    target_commit_time ← datetime_const time_name
    flag_name ← commit_name "target_contains_migration" (header p).params.target_commit
    target_has_migration ← bool_const flag_name
    pure
        (z3_and (ge target_commit_time last_migration ∷ negation (truth target_has_migration) ∷ []))

-- k07_mutation_budget.py
unfoldable pub mutation_budget : Action Formula
mutation_budget = do
  p ← get_plan
  if is_no_action (header p).action then pure (constant true) else do
    mutations ← int_const (plain "prod_mutations_in_window")
    budget ← int_const (plain "mutation_budget")
    pure (le (plus mutations (lit (int (pos 1)))) budget)

abbrev pub default_max_evidence_age : Ratio
default_max_evidence_age = of_ℤ (pos 300)

abbrev pub default_min_probe_samples : ℤ
default_min_probe_samples = pos 60

abbrev pub default_mirror_drop_ceiling : Ratio
default_mirror_drop_ceiling = ratio (pos 5) 100

-- k08_evidence_sufficiency.py
unfoldable pub evidence_sufficiency : Ratio → ℤ → Ratio → Action Formula
evidence_sufficiency max_age min_samples ceiling = do
  evidence_age ← real_const (plain "evidence_age_seconds")
  sample_count ← int_const (plain "probe_sample_count")
  drop_ratio ← real_const (plain "max_drop_ratio")
  pure (
      z3_and (
        le evidence_age (lit (real max_age))
        ∷ ge sample_count (lit (int min_samples))
        ∷ le drop_ratio (lit (real ceiling))
        ∷ []))
