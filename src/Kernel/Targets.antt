-- ===== src/Kernel/Targets.antt =====
-- src/understudy/kernel/invariants: the formal invariants over sets of texts, k02_namespace_scope.py,
-- k05_single_writer.py and k09_reversibility.py. Python's sets are lists; the code sorts them.
pub mod Scope
pub mod Overlap
pub mod Inverse
use understudy.Common.{
  ◌<>◌, ℕ, String, Bool, true, false, not, ◌&&◌, ◌||◌, Option, none, some, List, [], ◌∷◌, ◌++◌, map,
  ℤ, pos, is_empty, length, str_eq, if◌then◌else◌, ◌==◌, add, set_of, sorted, union, lookup_in,
}
use understudy.Contracts.Enums.{is_no_action}
use understudy.Contracts.Plan.{
  RemediationPlan, header, inverse, ResourceRef, is_deployment, kind_text,
}
use understudy.Kernel.Facts.{
  FactName, plain, sub, Scalar, int, bool, real, str, time, ref, mapping, Value, scalar, coll,
  FactValue, simple, table, find_key,
}
use understudy.Kernel.Term.{
  Term, lit, Formula, constant, truth, eq, ge, le, negation, conj, z3_and, z3_or,
}
use understudy.Kernel.Context.{
  Host, Context, ok, Action, pure, ◌>>=◌, ◌>>◌, has_fact, get_raw, get_set, bool_const,
  string_const,
}
use understudy.Kernel.Invariants.{get_plan, asks_fact, conjunction}

-- `str(value)`
abbrev pub str_of : Host → Value → String
str_of h (scalar (str s)) = s
str_of h v = h.show v

-- `{str(x) for x in xs}`
abbrev pub texts : Host → List Scalar → List String
texts h xs = set_of (map (λ x. str_of h (scalar x)) xs)

abbrev pub get_host : Action Host
get_host c = (ok c.host, c)

-- Adds the namespaces that are not empty.
unfoldable pub add_namespaces : List ResourceRef → List String → List String
add_namespaces [] acc = acc
add_namespaces (r ∷ rs) acc =
    add_namespaces rs (if str_eq r.namespace "" then acc else add r.namespace acc)

abbrev pub text_lit : String → Term
text_lit s = lit (str s)

abbrev pub all_in_namespace : Term → List String → List Formula
all_in_namespace auth [] = []
all_in_namespace auth (ns ∷ rest) = eq (text_lit ns) auth ∷ all_in_namespace auth rest

-- k02_namespace_scope.py
unfoldable pub namespace_scope : Action Formula
namespace_scope = do
  auth_ns ← string_const (plain "authorized_namespace")
  raw_target_ns ← get_set (plain "plan_target_namespaces")
  h ← get_host
  p ← get_plan
  let namespaces = add_namespaces (header p).target_resources (texts h raw_target_ns)
  if is_empty namespaces
      then pure (constant true)
      else pure (conjunction (all_in_namespace auth_ns (sorted namespaces)))

-- `target.get(key, "")` of texts
abbrev pub text_at : String → List (String × String) → String
text_at k kvs = elim (lookup_in k kvs) [ none ↦ "" | some s ↦ s ]

-- `_canonical_target` of a ResourceRef, and of any item
abbrev pub canonical_ref : ResourceRef → String
canonical_ref r = kind_text r.kind <> "/" <> r.namespace <> "/" <> r.name

abbrev pub canonical_target : Host → Scalar → String
canonical_target h (ref r) = canonical_ref r
canonical_target h (mapping kvs) =
    text_at "kind" kvs <> "/" <> text_at "namespace" kvs <> "/" <> text_at "name" kvs
canonical_target h x = str_of h (scalar x)

-- `target.get(key, "")`, as the f-string shows it
abbrev pub field_text : Host → String → List (String × Value) → String
field_text h k kvs = elim (find_key k kvs) [ none ↦ "" | some v ↦ str_of h v ]

-- What `x or ""` replaces by the empty text.
abbrev pub is_falsy : Value → Bool
is_falsy (scalar (str s)) = str_eq s ""
is_falsy (scalar (bool b)) = not b
is_falsy (scalar (int (pos n))) = n == 0
is_falsy (coll []) = true
is_falsy _ = false

abbrev pub field_or_empty : Host → String → List (String × Value) → String
field_or_empty h k kvs = elim (find_key k kvs) [
  | none ↦ ""
  | some v ↦ if is_falsy v then "" else str_of h v
]

-- The targets of a raw fact: the items of a collection, or the one value.
unfoldable pub canonical_items : Host → FactValue → List String
canonical_items h (simple (coll xs)) = map (canonical_target h) xs
canonical_items h (simple (scalar x)) = canonical_target h x ∷ []
canonical_items h (table kvs) =
    (field_text h "kind" kvs
      <> "/"
      <> field_or_empty h "namespace" kvs
      <> "/"
      <> field_text h "name" kvs)
    ∷ []

abbrev pub refs_of : List ResourceRef → List String
refs_of rs = map canonical_ref rs

abbrev pub all_differ : String → List String → List Formula
all_differ p [] = []
all_differ p (f ∷ fs) = negation (eq (text_lit p) (text_lit f)) ∷ all_differ p fs

abbrev pub all_pairs_differ : List String → List String → List Formula
all_pairs_differ [] fs = []
all_pairs_differ (p ∷ ps) fs = all_differ p fs ++ all_pairs_differ ps fs

-- k05_single_writer.py
unfoldable pub single_writer : Action Formula
single_writer = do
  p ← get_plan
  has_targets ← asks_fact (plain "plan_targets")
  has_in_flight ← asks_fact (plain "in_flight_plan_targets")
  if is_no_action (header p).action
        && not has_targets
        && not has_in_flight
        && is_empty (header p).target_resources
      then pure (constant true)
      else do
        raw_plan_targets ← get_raw (plain "plan_targets")
        raw_in_flight ← get_raw (plain "in_flight_plan_targets")
        h ← get_host
        let plan_targets =
            union (set_of (canonical_items h raw_plan_targets))
              (refs_of (header p).target_resources)
        let in_flight_targets = set_of (canonical_items h raw_in_flight)
        if is_empty plan_targets || is_empty in_flight_targets
            then pure (constant true)
            else pure
                (conjunction (all_pairs_differ (sorted plan_targets) (sorted in_flight_targets)))

abbrev pub equals_each : String → List String → List Formula
equals_each p [] = []
equals_each p (i ∷ is) = eq (text_lit p) (text_lit i) ∷ equals_each p is

-- One condition for each text of the first set: it is one of the second.
abbrev pub contained : List String → List String → List Formula
contained [] inside = []
contained (p ∷ ps) inside =
    (if is_empty inside then constant false else z3_or (equals_each p (sorted inside)))
    ∷ contained ps inside

abbrev pub inverse_refs : RemediationPlan → List String
inverse_refs p = elim (inverse p) [ none ↦ [] | some q ↦ refs_of (header q).target_resources ]

-- k09_reversibility.py
unfoldable pub reversibility : Action Formula
reversibility = do
  p ← get_plan
  if is_no_action (header p).action then pure (constant true) else do
    has_inverse ← bool_const (plain "plan_has_inverse")
    raw_plan_targets ← get_set (plain "plan_targets")
    raw_inv_targets ← get_set (plain "inverse_targets")
    h ← get_host
    let plan_targets =
        union (set_of (map (canonical_target h) raw_plan_targets))
          (refs_of (header p).target_resources)
    let inv_targets = union (set_of (map (canonical_target h) raw_inv_targets)) (inverse_refs p)
    pure (
        z3_and (
          (truth has_inverse
            ∷ eq (lit (int (pos (length inv_targets)))) (lit (int (pos (length plan_targets))))
            ∷ contained (sorted plan_targets) inv_targets)
          ++ contained (sorted inv_targets) plan_targets))
