-- ===== src/Kernel/Blast.antt =====
-- src/understudy/kernel/invariants/k04_blast_containment.py: observed ⊆ declared ⊆ reachable.
-- `while queue` runs on fuel: each pop takes one entry, and each service adds the callers of its
-- fact once, so the entries of all facts bound the pops.
pub mod Contained
use understudy.Common.{
  ℕ, zero, suc, ◌+◌, String, Bool, true, false, not, ◌&&◌, Option, none, some, List, [], ◌∷◌, ◌++◌,
  map, is_empty, length, keep, str_eq, if◌then◌else◌, add, set_of, union, member, sorted, strip,
  lookup_in,
}
use understudy.Contracts.Enums.{is_no_action}
use understudy.Contracts.Plan.{RemediationPlan, header, ResourceRef, is_deployment}
use understudy.Kernel.Facts.{
  plain, sub, Scalar, str, ref, mapping, Value, scalar, coll, FactValue, simple, table, Fact,
  find_key,
}
use understudy.Kernel.Term.{Formula, constant}
use understudy.Kernel.Context.{Host, Context, ok, Action, pure, ◌>>=◌, get_raw, get_set}
use understudy.Kernel.Invariants.{get_plan, asks_fact, conjunction}
use understudy.Kernel.Targets.{str_of, get_host, contained, text_at}

-- `str(x).strip()`
abbrev pub stripped : Host → List Scalar → List String
stripped h xs = map (λ x. strip (str_of h (scalar x))) xs

-- Adds the stripped names of the Deployments.
unfoldable pub add_names : List ResourceRef → List String → List String
add_names [] acc = acc
add_names (r ∷ rs) acc = add_names rs (if is_deployment r.kind then add (strip r.name) acc else acc)

abbrev pub refs_in : List Scalar → List ResourceRef
refs_in [] = []
refs_in (ref r ∷ xs) = r ∷ refs_in xs
refs_in (x ∷ xs) = refs_in xs

abbrev pub is_deployment_text : Option Value → Bool
is_deployment_text (some (scalar (str s))) = str_eq s "Deployment"
is_deployment_text _ = false

abbrev pub add_named : Host → Option Value → List String → List String
add_named h none acc = acc
add_named h (some v) acc = add (strip (str_of h v)) acc

-- Adds the stripped names of the dicts that stand for a Deployment.
unfoldable pub add_dicts : List Scalar → List String → List String
add_dicts [] acc = acc
add_dicts (mapping kvs ∷ xs) acc = elim (lookup_in "name" kvs) [
  | none ↦ add_dicts xs acc
  | some n ↦
      add_dicts xs (if str_eq (text_at "kind" kvs) "Deployment" then add (strip n) acc else acc)
]
add_dicts (_ ∷ xs) acc = add_dicts xs acc

-- The services that the fact `plan_targets` names, a collection or one value.
unfoldable pub add_fact_targets : Host → FactValue → List String → List String
unfolding add_names add_dicts
add_fact_targets h (simple (coll xs)) acc = add_dicts xs (add_names (refs_in xs) acc)
add_fact_targets h (simple (scalar x)) acc = add_dicts (x ∷ []) (add_names (refs_in (x ∷ [])) acc)
add_fact_targets h (table kvs) acc =
    if is_deployment_text (find_key "kind" kvs) then add_named h (find_key "name" kvs) acc else acc

unfoldable pub plan_services : RemediationPlan → List String
unfolding add_names
plan_services p =
    let h = header p in
    add_names h.target_resources
      (if str_eq h.params.workload "" then [] else add (strip h.params.workload) [])

unfoldable pub target_services : RemediationPlan → Action (List String)
target_services p = do
  known ← asks_fact (plain "plan_targets")
  if known
      then (do
        raw ← get_raw (plain "plan_targets")
        h ← get_host
        pure (add_fact_targets h raw (plan_services p)))
      else pure (plan_services p)

-- Each target with its direct callers: the set, and the queue of the callers.
unfoldable pub direct_callers :
    List String → List String → List String → Action (List String × List String)
direct_callers [] reachable queue = pure (reachable, queue)
direct_callers (svc ∷ rest) reachable queue = do
  deps ← get_set (sub "dependents" svc)
  h ← get_host
  direct_callers rest (union (add svc reachable) (stripped h deps)) (queue ++ stripped h deps)

unfoldable pub all_callers : ℕ → List String → List String → List String → Action (List String)
all_callers zero visited queue reachable = pure reachable
all_callers (suc fuel) visited [] reachable = pure reachable
all_callers (suc fuel) visited (curr ∷ queue) reachable = elim (member curr visited) [
  | true ↦ all_callers fuel visited queue reachable
  | false ↦ (do
    known ← asks_fact (sub "dependents" curr)
    elim known [
      | true ↦ (do
        deps ← get_set (sub "dependents" curr)
        h ← get_host
        all_callers fuel (add curr visited)
            (queue ++ keep (λ d. not (member d (add curr visited))) (stripped h deps))
            (union (add curr reachable) (stripped h deps)))
      | false ↦ all_callers fuel (add curr visited) queue (add curr reachable)
    ])
]

abbrev value_size : Value → ℕ
value_size (coll xs) = length xs
value_size (scalar x) = 0

abbrev entries_size : List (String × Value) → ℕ
entries_size [] = 0
entries_size ((k, v) ∷ rest) = value_size v + entries_size rest

abbrev fact_size : FactValue → ℕ
fact_size (simple v) = value_size v
fact_size (table kvs) = entries_size kvs

unfoldable pub facts_size : List Fact → ℕ
facts_size [] = 0
facts_size (f ∷ fs) = fact_size f.value + facts_size fs

abbrev pub get_fuel : List String → Action ℕ
get_fuel queue c = (ok (suc (length queue + facts_size c.facts)), c)

unfoldable pub blast_containment : Action Formula
blast_containment = do
  p ← get_plan
  has_declared ← asks_fact (plain "declared_blast_set")
  has_observed ← asks_fact (plain "observed_blast_set")
  if is_no_action (header p).action
        && not has_declared
        && not has_observed
        && is_empty (header p).declared_blast_set
      then pure (constant true)
      else do
        raw_declared ← get_set (plain "declared_blast_set")
        raw_observed ← get_set (plain "observed_blast_set")
        h ← get_host
        let declared =
            union (set_of (stripped h raw_declared)) (map strip (header p).declared_blast_set)
        let observed = set_of (stripped h raw_observed)
        targets ← target_services p
        direct ← direct_callers (sorted targets) [] []
        fuel ← get_fuel direct.1
        reachable ← all_callers fuel [] direct.1 direct.0
        pure (
            conjunction
              (contained (sorted observed) declared ++ contained (sorted declared) reachable))
