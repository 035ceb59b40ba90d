-- ===== src/Planner/Normalise.antt =====
-- src/understudy/planner/validate.py: how a candidate plan is held against the environment, and how
-- the plans that survive are numbered. A set is a list; the log entries are left out.
pub mod Blast
pub mod Sources
pub mod Grounded
pub mod Reverts
pub mod Numbering
pub mod Survivors
use understudy.Common.{
  ℕ, zero, suc, ◌+◌, String, Bool, true, false, not, ◌&&◌, ◌||◌, Option, none, some, ◌>>=◌, List,
  [], ◌∷◌, ◌++◌, length, is_empty, ℤ, pos, str_eq, if◌then◌else◌, member, is_subset, set_of, sorted,
  insert_sorted, lookup_in, find_first, strip, starts_with, decimal, ◌<>◌, map,
}
use understudy.Contracts.Enums.{ActionType, is_no_action, is_rollback, no_action}
use understudy.Contracts.Plan.{
  ActionParams, params_for, Header, Origin, planner, RemediationPlan, irreversible, reversible,
  header, inverse, ResourceRef,
}
use understudy.Contracts.Incident.{
  IncidentContext, DeployRef, DependencyGraphSnapshot, DependencyEdge,
}
use understudy.Graph.Service.{
  Adjacency, has_key, entry, link, blank, closure, size, ServiceGraph, Reached, reached,
  unknown_service, out_of_fuel, reachable_set,
}
use understudy.Planner.Inverse.{
  Hints, Result, ok, planner_error, synthesize_inverse, is_blank, or_text,
}
use understudy.Planner.Prompt.{cand_id}

-- The commit that is meant, or one of which either is the start of the other.
abbrev pub is_commit : String → DeployRef → Bool
is_commit ref d =
    str_eq d.commit_sha ref || starts_with d.commit_sha ref || starts_with ref d.commit_sha

-- The workload has an image in the deploy, where a workload is given.
abbrev pub has_digest : Option String → DeployRef → Bool
has_digest none d = true
has_digest (some w) d = not (is_blank (lookup_in w d.image_digests))

unfoldable pub resolve_commit_ref : Option String → List DeployRef → Option String → Option String
unfolding strip starts_with
resolve_commit_ref commit deploys workload =
    if is_blank commit || str_eq (strip (or_text commit)) ""
    then none
    else elim (find_first (is_commit (strip (or_text commit))) deploys) [
      | none ↦ none
      | some d ↦ if has_digest workload d then some d.commit_sha else none
    ]

unfoldable pub resolve_workload_name : String → List String → Option String
unfolding strip
resolve_workload_name workload valid =
    if str_eq workload ""
    then none
    else if member (strip workload) valid
    then some (strip workload)
    else none

-- The loop that maps a target to its callers.
unfoldable pub link_callers : List DependencyEdge → Adjacency → Adjacency
unfolding link
link_callers [] d = d
link_callers (e ∷ es) d =
    link_callers es (if has_key e.target d then link e.target e.source d else d)

-- The two kinds of graph that a blast set is checked against.
pub data BlastGraph : Type 0 where
  of_snapshot : DependencyGraphSnapshot → BlastGraph
  of_graph : ServiceGraph → BlastGraph

abbrev pub nodes_of : BlastGraph → List String
nodes_of (of_snapshot g) = g.nodes
nodes_of (of_graph g) = g.nodes

unfoldable pub callers_in : DependencyGraphSnapshot → Adjacency
unfolding link_callers set_of
callers_in g = link_callers g.edges (blank (set_of g.nodes))

abbrev pub found : Reached → Option (List String)
found (reached r) = some r
found unknown_service = none
found out_of_fuel = none

-- The services that the target's failure reaches; `none` stands for the GraphError.
unfoldable pub reachable_in : BlastGraph → String → Option (List String)
unfolding callers_in closure reachable_set
reachable_in (of_snapshot g) target =
    let d = callers_in g in closure (length (entry target d) + size d) d [] (entry target d)
reachable_in (of_graph g) target =
    if str_eq target "" then some [] else found (reachable_set g target)

abbrev pub allowable : String → List String → List String
allowable target reachable = if str_eq target "" then [] else target ∷ reachable

unfoldable pub compute_blast_set_validity : List String → String → BlastGraph → Bool
unfolding reachable_in
compute_blast_set_validity declared target g =
    if not (str_eq target "") && not (member target (nodes_of g))
    then false
    else elim (reachable_in g target) [
      | none ↦ false
      | some r ↦ is_subset declared (nodes_of g) && is_subset declared (allowable target r)
    ]

abbrev pub or_else_set : Option (List String) → List String → List String
or_else_set (some s) d = s
or_else_set none d = d

-- The workloads that exist.
abbrev pub valid_workloads_of : IncidentContext → Option (List String) → List String
valid_workloads_of context cluster = or_else_set cluster context.dependency_graph.nodes

abbrev pub with_commit : Option String → ActionParams → ActionParams
with_commit c p = record {
  workload = p.workload;
  target_commit = c;
  replica_delta = p.replica_delta;
  flag_name = p.flag_name;
  config_key = p.config_key;
  config_value = p.config_value;
}

abbrev pub with_workload : String → ActionParams → ActionParams
with_workload w p = record {
  workload = w;
  target_commit = p.target_commit;
  replica_delta = p.replica_delta;
  flag_name = p.flag_name;
  config_key = p.config_key;
  config_value = p.config_value;
}

abbrev pub with_params : ActionParams → Header → Header
with_params params p = record {
  plan_id = p.plan_id;
  candidate_index = p.candidate_index;
  action = p.action;
  params = params;
  target_resources = p.target_resources;
  declared_blast_set = p.declared_blast_set;
  rationale = p.rationale;
  origin = p.origin;
  playbook_id = p.playbook_id;
}

abbrev pub plan_with : Header → Option RemediationPlan → RemediationPlan
plan_with p none = irreversible p
plan_with p (some inv) = reversible p inv

-- Goes on only if the test holds; otherwise the plan is dropped.
abbrev pub require : Bool → Option Bool
require true = some true
require false = none

abbrev all_named : List ResourceRef → List String → Bool
all_named [] valid = true
all_named (r ∷ rs) valid = member r.name valid && all_named rs valid

-- The commit of a rollback; that of another action stays.
unfoldable pub resolved_commit : Header → String → List DeployRef → Option (Option String)
unfolding resolve_commit_ref
resolved_commit p workload deploys =
    if is_rollback p.action
    then elim (resolve_commit_ref p.params.target_commit deploys (some workload)) [
      | none ↦ none
      | some c ↦ some (some c)
    ]
    else some p.params.target_commit

-- The checks of the inverse that the plan comes with.
unfoldable pub checked_inverse :
    Option RemediationPlan → List String → List DeployRef → Option (Option RemediationPlan)
unfolding resolve_commit_ref
checked_inverse none valid deploys = some none
checked_inverse (some inv) valid deploys =
    let p = header inv in
    if not (str_eq p.params.workload "") && not (member p.params.workload valid)
    then none
    else if is_rollback p.action && not (is_blank p.params.target_commit)
    then elim (resolve_commit_ref p.params.target_commit deploys (some p.params.workload)) [
      | none ↦ none
      | some c ↦
          some (some (plan_with (with_params (with_commit (some c) p.params) p) (inverse inv)))
    ]
    else some (some inv)

abbrev pub no_error {ℓ} : {A : Type ℓ} → Result A → Option A
no_error (ok a) = some a
no_error (planner_error f) = none

abbrev pub hints_of : IncidentContext → List String → Hints
hints_of context valid = record {
  context = some context;
  current_commit = none;
  current_config_value = none;
  cluster_workloads = some valid;
  config_lookup = none;
}

-- Dropped plans are `none`.
unfoldable pub normalise_plan :
    RemediationPlan → IncidentContext → Option (List String) → Option RemediationPlan
unfolding resolve_workload_name resolved_commit compute_blast_set_validity checked_inverse
    synthesize_inverse
normalise_plan plan context cluster =
    let valid = valid_workloads_of context cluster in
    let p = header plan in
    if is_no_action p.action
    then (if not (is_empty p.declared_blast_set)
        then none
        else if not (str_eq p.params.workload "") && not (member p.params.workload valid)
        then none
        else some plan)
    else (do
      workload ← resolve_workload_name p.params.workload valid
      _ ← require (all_named p.target_resources valid)
      commit ← resolved_commit p workload context.recent_deploys
      _ ← require (
          compute_blast_set_validity p.declared_blast_set workload
            (of_snapshot context.dependency_graph))
      given ← checked_inverse (inverse plan) valid context.recent_deploys
      let updated = with_params (with_commit commit (with_workload workload p.params)) p
      inv ← no_error (synthesize_inverse (plan_with updated given) (hints_of context valid))
      some (plan_with updated inv))

unfoldable pub normalised :
    List RemediationPlan → IncidentContext → Option (List String) → List RemediationPlan
unfolding normalise_plan
normalised [] context cluster = []
normalised (p ∷ ps) context cluster =
    let rest = normalised ps context cluster in
    elim (normalise_plan p context cluster) [ none ↦ rest | some q ↦ q ∷ rest ]

abbrev pub with_id : String → ℕ → Header → Header
with_id i n p = record {
  plan_id = i;
  candidate_index = pos n;
  action = p.action;
  params = p.params;
  target_resources = p.target_resources;
  declared_blast_set = p.declared_blast_set;
  rationale = p.rationale;
  origin = p.origin;
  playbook_id = p.playbook_id;
}

abbrev pub reindexed_inverse : ℕ → Option RemediationPlan → Option RemediationPlan
reindexed_inverse n none = none
reindexed_inverse n (some inv) =
    some (plan_with (with_id (cand_id n <> "_inv") n (header inv)) (inverse inv))

-- The loop that numbers the survivors.
unfoldable pub reindex : ℕ → List RemediationPlan → List RemediationPlan
unfolding decimal
reindex n [] = []
reindex n (p ∷ ps) =
    plan_with (with_id (cand_id n) n (header p)) (reindexed_inverse n (inverse p))
    ∷ reindex (suc n) ps

abbrev first_of : List String → String → String
first_of [] d = d
first_of (s ∷ ss) d = s

-- The workload that a plan to do nothing names.
unfoldable pub idle_workload : IncidentContext → List String → String
unfolding sorted
idle_workload context valid =
    if member context.alert.service valid
    then context.alert.service
    else if not (is_empty valid)
    then first_of (sorted valid) ""
    else if not (str_eq context.alert.service "")
    then context.alert.service
    else "data-service"

unfoldable pub create_no_action_plan :
    IncidentContext → ℕ → Option String → Origin → Option (List String) → String → RemediationPlan
unfolding idle_workload decimal
create_no_action_plan context n plan_id origin cluster rationale = irreversible (record {
  plan_id = if is_blank plan_id then cand_id n else or_text plan_id;
  candidate_index = pos n;
  action = no_action;
  params = params_for (idle_workload context (valid_workloads_of context cluster));
  target_resources = [];
  declared_blast_set = [];
  rationale = rationale;
  origin = origin;
  playbook_id = none;
})

abbrev pub does_nothing : RemediationPlan → Bool
does_nothing p = is_no_action (header p).action

abbrev pub any {ℓ} : {A : Type ℓ} → (A → Bool) → List A → Bool
any p [] = false
any p (x ∷ xs) = p x || any p xs

unfoldable pub ensure_no_action_candidate :
    List RemediationPlan → IncidentContext → Option (List String) → Origin → List RemediationPlan
unfolding create_no_action_plan
ensure_no_action_candidate plans context cluster origin =
    if any does_nothing plans
    then plans
    else plans
      ++ create_no_action_plan context (length plans) none origin cluster
          "Maintain current state without automated mutation"
        ∷ []

unfoldable pub normalise_plans :
    List RemediationPlan → IncidentContext → Option (List String) → Bool → List RemediationPlan
unfolding normalised reindex ensure_no_action_candidate
normalise_plans plans context cluster ensure_no_action =
    let numbered = reindex 0 (normalised plans context cluster) in
    if ensure_no_action
    then ensure_no_action_candidate numbered context cluster planner
    else numbered
