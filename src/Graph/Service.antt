-- ===== src/Graph/Service.antt =====
-- src/understudy/graph/service_graph.py: ServiceDependencyGraph. A dict is a list of its items and
-- a set a list in some order; the descriptions and the clock are left out.
pub mod Links
pub mod Closure
pub mod Shares
use understudy.Common.{
  ℕ, zero, suc, ◌+◌, String, Bool, true, false, not, ◌&&◌, ◌||◌, Option, none, some, List, [], ◌∷◌,
  ◌++◌, map, length, str_eq, if◌then◌else◌, member, add, set_of, sorted, insert_sorted, lookup_in,
  Ratio, ratio, pos, zero_ratio,
}

abbrev pub Edge : Type 0
Edge = String × String

abbrev pub Adjacency : Type 0
Adjacency = List (String × List String)

pub record ServiceGraph : Type 0 where
  pub nodes : List String
  pub edges : List Edge
  pub dependencies : Adjacency
  pub dependents : Adjacency
  pub request_shares : List (String × Ratio)

-- `n in d`
abbrev pub has_key : String → Adjacency → Bool
has_key n [] = false
has_key n ((k, vs) ∷ d) = str_eq n k || has_key n d

-- `d.get(n, set())`
abbrev pub entry : String → Adjacency → List String
entry n [] = []
entry n ((k, vs) ∷ d) = if str_eq n k then vs else entry n d

-- `d[n].add(v)`
unfoldable pub link : String → String → Adjacency → Adjacency
link n v [] = []
link n v ((k, vs) ∷ d) = if str_eq n k then (k, add v vs) ∷ d else (k, vs) ∷ link n v d

-- `{n: set() for n in nodes}`
abbrev pub blank : List String → Adjacency
blank [] = []
blank (n ∷ ns) = (n, []) ∷ blank ns

-- The loop over the edges, for the dependents; an edge with an unknown end is passed over.
unfoldable pub link_dependents : List Edge → Adjacency → Adjacency
unfolding link
link_dependents [] d = d
link_dependents ((src, dst) ∷ es) d =
    link_dependents es (if has_key src d && has_key dst d then link dst src d else d)

-- The same loop, for the dependencies.
unfoldable pub link_dependencies : List Edge → Adjacency → Adjacency
unfolding link
link_dependencies [] d = d
link_dependencies ((src, dst) ∷ es) d =
    link_dependencies es (if has_key src d && has_key dst d then link src dst d else d)

-- The constructor.
unfoldable pub new_graph : List String → List Edge → List (String × Ratio) → ServiceGraph
unfolding link_dependents link_dependencies set_of sorted
new_graph nodes edges shares =
    let ns = sorted (set_of nodes) in
    record {
      nodes = ns;
      edges = edges;
      dependencies = link_dependencies edges (blank ns);
      dependents = link_dependents edges (blank ns);
      request_shares = shares;
    }

-- `dependents`; `none` is the GraphError for an unknown service.
unfoldable pub dependents_of : ServiceGraph → String → Option (List String)
dependents_of g service =
    if has_key service g.dependents then some (entry service g.dependents) else none

-- The `while` loop of `reachable_set`; `none` when the fuel runs out.
unfoldable pub closure : ℕ → Adjacency → List String → List String → Option (List String)
closure zero d visited [] = some visited
closure zero d visited (n ∷ queue) = none
closure (suc fuel) d visited [] = some visited
closure (suc fuel) d visited (n ∷ queue) = elim (member n visited) [
  | true ↦ closure fuel d visited queue
  | false ↦ closure fuel d (n ∷ visited) (queue ++ entry n d)
]

-- How many callers the dict holds.
abbrev pub size : Adjacency → ℕ
size [] = 0
size ((k, vs) ∷ d) = length vs + size d

pub data Reached : Type 0 where
  reached : List String → Reached
  unknown_service out_of_fuel : Reached

abbrev pub as_reached : Option (List String) → Reached
as_reached (some r) = reached r
as_reached none = out_of_fuel

unfoldable pub reachable_set : ServiceGraph → String → Reached
unfolding closure
reachable_set g service =
    if has_key service g.dependents
    then as_reached (
        closure (length (entry service g.dependents) + size g.dependents) g.dependents []
          (entry service g.dependents))
    else unknown_service

-- DEFAULT_DEMO_REQUEST_SHARES
abbrev pub default_demo_request_shares : List (String × Ratio)
default_demo_request_shares =
    ("edge-gateway", ratio (pos 40) 100)
    ∷ ("auth-service", ratio (pos 30) 100)
    ∷ ("data-service", ratio (pos 20) 100)
    ∷ ("worker", ratio (pos 10) 100)
    ∷ []

abbrev pub or_value : Option Ratio → Ratio → Ratio
or_value (some r) d = r
or_value none d = d

unfoldable pub request_share : ServiceGraph → String → Ratio
request_share g service =
    if member service g.nodes
    then or_value (lookup_in service g.request_shares)
        (or_value (lookup_in service default_demo_request_shares) (ratio (pos 1) (length g.nodes)))
    else zero_ratio
