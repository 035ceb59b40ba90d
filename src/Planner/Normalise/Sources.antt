-- ===== src/Planner/Normalise/Sources.antt =====
-- The declared blast sets that src/understudy/planner/validate.py lets through, for both kinds of
-- graph: snapshots, and graphs built from declarations.
use understudy.Common.{
  String, true, false, List, [], str_eq, ◌≡◌, refl, ◌∙◌, ◌⊎◌, inl, inr, ◌↔◌, Bool-cases, All,
  member, set_of, member-set_of, member-sorted, Ratio,
}
use understudy.Contracts.Incident.{DependencyGraphSnapshot}
use understudy.Graph.Service.{Edge, new_graph}
use understudy.Graph.Service.Closure.{Relies, reachable_set-decides}
use understudy.Planner.Normalise.{
  BlastGraph, of_snapshot, of_graph, reachable_in, compute_blast_set_validity,
}
use understudy.Planner.Normalise.Blast.{
  CallsOn, Affected, subset-All, subset-empty, snapshot-valid_iff, snapshot-valid_empty,
}

module _ (nodes : List String) (edges : List Edge) (shares : List (String × Ratio)) where
  nodes-new_graph : (s : String) → member s (new_graph nodes edges shares).nodes ≡ member s nodes
  unfolding new_graph
  nodes-new_graph s = member-sorted s (set_of nodes) ∙ member-set_of s nodes

  graph-valid_iff :
      (declared : List String) (target : String)
      → str_eq target "" ≡ false
      → (compute_blast_set_validity declared target (of_graph (new_graph nodes edges shares))
          ≡ true)
        ↔ ((member target nodes ≡ true)
            × All (Affected nodes target (Relies nodes edges shares target)) declared)
  unfolding compute_blast_set_validity reachable_in
  graph-valid_iff declared target e =
      let known = nodes-new_graph target in
      elim (Bool-cases (member target nodes)) [
        | inr m ↦ rw (e, known, m) ((λ h. absurd cc), λ h. absurd cc)
        | inl m ↦
            let (r, q, exact) = reachable_set-decides nodes edges shares target m in
            let agree =
              subset-All nodes target (Relies nodes edges shares target)
                (new_graph nodes edges shares).nodes r declared nodes-new_graph exact in
            rw (e, known, m, q, e) ((λ h. (refl, agree.0 h)), λ h. agree.1 h.1)
      ]

  graph-valid_empty :
      (declared : List String) (target : String)
      → str_eq target "" ≡ true
      → (compute_blast_set_validity declared target (of_graph (new_graph nodes edges shares))
          ≡ true)
        ↔ (declared ≡ [])
  unfolding compute_blast_set_validity reachable_in
  graph-valid_empty declared target e =
      rw (e, e) (subset-empty (new_graph nodes edges shares).nodes declared)

-- Where the services and their calls come from: a snapshot, or the declarations of a graph.
pub data GraphSource : Type 0 where
  from_snapshot : DependencyGraphSnapshot → GraphSource
  from_declarations : List String → List Edge → List (String × Ratio) → GraphSource

abbrev pub graph_from : GraphSource → BlastGraph
graph_from (from_snapshot g) = of_snapshot g
graph_from (from_declarations nodes edges shares) = of_graph (new_graph nodes edges shares)

abbrev pub services : GraphSource → List String
services (from_snapshot g) = g.nodes
services (from_declarations nodes edges shares) = nodes

-- The second calls the first, directly or through others.
abbrev pub RelyOn : GraphSource → String → String → Type 0
RelyOn (from_snapshot g) = CallsOn g
RelyOn (from_declarations nodes edges shares) = Relies nodes edges shares

-- Nothing is declared for no target; for a known target, known services that are it or rely on it.
abbrev pub IsValidFor : GraphSource → List String → String → Type 0
IsValidFor src declared target =
    ((str_eq target "" ≡ true) × (declared ≡ []))
    ⊎ ((str_eq target "" ≡ false)
        × ((member target (services src) ≡ true)
            × All (λ s. (member s (services src) ≡ true) × ((s ≡ target) ⊎ RelyOn src target s))
                declared))

by_target :
    {V K : Type 0} (target : String) (declared : List String)
    → (str_eq target "" ≡ true → V ↔ (declared ≡ []))
    → (str_eq target "" ≡ false → V ↔ K)
    → V ↔ (((str_eq target "" ≡ true) × (declared ≡ [])) ⊎ ((str_eq target "" ≡ false) × K))
by_target target declared empty full = elim (Bool-cases (str_eq target "")) [
  | inl e ↦ (
    (λ v. inl (e, (empty e).0 v)),
    λ x. elim x [ inl (_, d) ↦ (empty e).1 d | inr (n, k) ↦ absurd cc ],
  )
  | inr e ↦ (
    (λ v. inr (e, (full e).0 v)),
    λ x. elim x [ inl (n, d) ↦ absurd cc | inr (_, k) ↦ (full e).1 k ],
  )
]

-- Against a snapshot of the graph, and against a graph built from declarations: with a target, a
-- declared blast set is valid exactly if the target is known and every declared service is known and
-- is the target or calls it, directly or through others; with an empty target, exactly if nothing is
-- declared.
pub compute_blast_set_validity_iff :
    (declared : List String) (target : String) (src : GraphSource)
    → (compute_blast_set_validity declared target (graph_from src) ≡ true)
      ↔ IsValidFor src declared target
compute_blast_set_validity_iff declared target (from_snapshot g) =
    by_target target declared (snapshot-valid_empty g declared target)
      (snapshot-valid_iff g declared target)
compute_blast_set_validity_iff declared target (from_declarations nodes edges shares) =
    by_target target declared (graph-valid_empty nodes edges shares declared target)
      (graph-valid_iff nodes edges shares declared target)
