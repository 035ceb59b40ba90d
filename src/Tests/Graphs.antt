-- ===== src/Tests/Graphs.antt =====
-- The service graph of the demonstration, its callers, its shares and a check against traffic.
use understudy.Common.{
  String, true, List, [], ◌∷◌, add, set_of, sorted, insert_sorted, str_leb, member, pos, of_ℤ, ◌≡◌,
  ◌↔◌, refl,
}
use understudy.Graph.Service.{
  Edge, ServiceGraph, new_graph, link, link_dependents, link_dependencies, reached, closure,
  reachable_set,
}
use understudy.Graph.Service.Closure.{Relies, reachable_set-decides}
use understudy.Graph.CrossCheck.{ObservedTraffic, cross_check}
use understudy.Graph.CrossCheck.Matching.{Agrees, is_ok_report, cross_check-ok_iff}

abbrev services : List String
services = "edge" ∷ "auth" ∷ "data" ∷ "worker" ∷ []

abbrev calls : List Edge
calls = ("edge", "auth") ∷ ("auth", "data") ∷ ("worker", "data") ∷ []

abbrev pub demo : ServiceGraph
demo = new_graph services calls []

demo_callers : reachable_set demo "data" ≡ reached ("edge" ∷ "auth" ∷ "worker" ∷ [])
unfolding reachable_set new_graph closure link_dependents link_dependencies link add set_of sorted
    insert_sorted str_leb
demo_callers = refl

reachable_set-decides_example :
    (r : List String) × (reachable_set (new_graph services calls []) "data" ≡ reached r)
    × ((t : String) → (member t r ≡ true) ↔ Relies services calls [] "data" t)
reachable_set-decides_example = reachable_set-decides services calls [] "data" refl

abbrev traffic : ObservedTraffic
traffic = record {
  services = "data" ∷ "auth" ∷ "worker" ∷ "edge" ∷ [];
  edges = calls;
  request_counts = ("edge", of_ℤ (pos 40)) ∷ [];
  total_requests = of_ℤ (pos 100);
}

cross_check-ok_iff_example :
    (is_ok_report (cross_check demo traffic true) ≡ true) ↔ Agrees demo traffic
cross_check-ok_iff_example = cross_check-ok_iff demo traffic true
