-- ===== src/Graph/CrossCheck.antt =====
-- src/understudy/graph/service_graph.py: `cross_check`, with the models of graph/models.py. Sets
-- are lists without order; the texts of the messages are left out.
pub mod Matching
use understudy.Common.{
  ℕ, String, Bool, true, false, not, ◌&&◌, ◌||◌, Option, none, some, List, [], ◌∷◌, map, keep,
  is_empty, str_eq, if◌then◌else◌, member, lookup_in, Ratio, ratio, pos, leb_ratio, zero_ratio,
  over_ratio, ten_thousandths,
}
use understudy.Graph.Service.{Edge, ServiceGraph, or_value}

pub record ObservedTraffic : Type 0 where
  pub services : List String
  pub edges : List Edge
  pub request_counts : List (String × Ratio)
  pub total_requests : Ratio

pub record CrossCheckReport : Type 0 where
  pub is_ok : Bool
  pub declared_services : List String
  pub observed_services : List String
  pub declared_edges : List Edge
  pub observed_edges : List Edge
  pub undeclared_services : List String
  pub undeclared_edges : List Edge
  pub missing_services : List String
  pub missing_edges : List Edge

-- `discrepancy` is the GraphDiscrepancyError with its details; a report comes with the graph after.
pub data Checked : Type 0 where
  report : CrossCheckReport → ServiceGraph → Checked
  discrepancy : List String → List Edge → List String → List Edge → Checked

abbrev pub edge_eq : Edge → Edge → Bool
edge_eq (a, b) (c, d) = str_eq a c && str_eq b d

abbrev pub member_edge : Edge → List Edge → Bool
member_edge e [] = false
member_edge e (f ∷ fs) = edge_eq e f || member_edge e fs

-- `xs - ys`
abbrev pub without : List String → List String → List String
without xs ys = keep (λ x. not (member x ys)) xs

abbrev pub without_edges : List Edge → List Edge → List Edge
without_edges xs ys = keep (λ x. not (member_edge x ys)) xs

abbrev pub has_traffic : ObservedTraffic → Bool
has_traffic o = not (leb_ratio o.total_requests zero_ratio)

abbrev pub missing_services_of : ServiceGraph → ObservedTraffic → List String
missing_services_of g o = if has_traffic o then without g.nodes o.services else []

abbrev pub missing_edges_of : ServiceGraph → ObservedTraffic → List Edge
missing_edges_of g o = if has_traffic o then without_edges g.edges o.edges else []

-- No mismatch was noted.
abbrev pub is_clean : ServiceGraph → ObservedTraffic → Bool
is_clean g o =
    is_empty (without o.services g.nodes)
    && (is_empty (without_edges o.edges g.edges)
        && (is_empty (missing_services_of g o) && is_empty (missing_edges_of g o)))

abbrev pub report_of : Bool → ServiceGraph → ObservedTraffic → CrossCheckReport
report_of ok g o = record {
  is_ok = ok;
  declared_services = g.nodes;
  observed_services = o.services;
  declared_edges = g.edges;
  observed_edges = o.edges;
  undeclared_services = without o.services g.nodes;
  undeclared_edges = without_edges o.edges g.edges;
  missing_services = missing_services_of g o;
  missing_edges = missing_edges_of g o;
}

-- `round(cnt / total, 4)` of a count from 0 on
abbrev pub share_of : ObservedTraffic → String → Ratio
share_of o svc =
    ratio
      (pos (
        ten_thousandths
          (over_ratio (or_value (lookup_in svc o.request_counts) zero_ratio) o.total_requests)))
      10000

abbrev pub with_shares : ServiceGraph → List (String × Ratio) → ServiceGraph
with_shares g shares = record {
  nodes = g.nodes;
  edges = g.edges;
  dependencies = g.dependencies;
  dependents = g.dependents;
  request_shares = shares;
}

-- The shares are calibrated where traffic was seen.
abbrev pub calibrated : ServiceGraph → ObservedTraffic → ServiceGraph
calibrated g o =
    if has_traffic o then with_shares g (map (λ svc. (svc, share_of o svc)) g.nodes) else g

unfoldable pub cross_check : ServiceGraph → ObservedTraffic → Bool → Checked
unfolding over_ratio ten_thousandths
cross_check g o raise_on_mismatch =
    if is_clean g o
    then report (report_of true g o) (calibrated g o)
    else if raise_on_mismatch
    then discrepancy (without o.services g.nodes) (without_edges o.edges g.edges)
        (missing_services_of g o) (missing_edges_of g o)
    else report (report_of false g o) g
