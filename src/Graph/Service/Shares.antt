-- ===== src/Graph/Service/Shares.antt =====
-- The request shares of src/understudy/graph/service_graph.py.
use understudy.Common.{
  String, true, some, List, [], ◌∷◌, length, str_eq, ◌≡◌, refl, inl, inr, Bool-cases, Option-cases,
  arith, All, member, lookup_in, Ratio, ratio, pos, IsShare,
}
use understudy.Graph.Service.{ServiceGraph, request_share, default_demo_request_shares}

lookup_in-All :
    (P : Ratio → Type 0) (k : String) (d : List (String × Ratio)) (r : Ratio)
    → All (λ kv. P kv.1) d
    → lookup_in k d ≡ some r
    → P r
lookup_in-All P k [] r h e = cc
lookup_in-All P k ((j, v) ∷ d) r h e = elim (Bool-cases (str_eq k j)) [
  | inl q ↦ let e' = rw q at e in let same : v ≡ r = cc in rw (← same) h.0
  | inr q ↦ lookup_in-All P k d r h.1 (rw q at e)
]

defaults-IsShare : All (λ kv. IsShare kv.1) default_demo_request_shares
defaults-IsShare = ground arith

even-IsShare :
    (service : String) (nodes : List String)
    → member service nodes ≡ true
    → IsShare (ratio (pos 1) (length nodes))
even-IsShare service [] e = cc
even-IsShare service (n ∷ ns) e = ground arith

-- When the calibrated shares lie between 0 and 1, so does the share of any service, declared or not.
pub request_share-IsShare :
    (g : ServiceGraph) (service : String)
    → All (λ kv. IsShare kv.1) g.request_shares
    → IsShare (request_share g service)
unfolding request_share
request_share-IsShare g service h = elim (Bool-cases (member service g.nodes)) [
  | inr e ↦ rw e (refl, refl)
  | inl e ↦ rw e elim (Option-cases (lookup_in service g.request_shares)) [
    | inr (r, q) ↦ rw q (lookup_in-All IsShare service g.request_shares r h q)
    | inl q ↦ rw q elim (Option-cases (lookup_in service default_demo_request_shares)) [
      | inr (r, p) ↦
          rw p (lookup_in-All IsShare service default_demo_request_shares r defaults-IsShare p)
      | inl p ↦ rw p (even-IsShare service g.nodes e)
    ]
  ]
]
