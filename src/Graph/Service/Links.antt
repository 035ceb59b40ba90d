-- ===== src/Graph/Service/Links.antt =====
-- The adjacency that the constructor of ServiceDependencyGraph builds, against the edges.
use understudy.Common.{
  String, Bool, true, false, ◌&&◌, ◌||◌, List, [], ◌∷◌, str_eq, eq_iff, ◌≡◌, refl, ◌∙◌, inl, inr,
  Bool-cases, arith, member, member-add, set_of, sorted, member-set_of, member-sorted, Ratio,
}
use understudy.Graph.Service.{
  Edge, Adjacency, has_key, entry, link, blank, link_dependents, new_graph,
}

abbrev pub has_edge : String → String → List Edge → Bool
has_edge s t [] = false
has_edge s t ((src, dst) ∷ es) = (str_eq s src && str_eq t dst) || has_edge s t es

pub has_key-link : (k n v : String) (d : Adjacency) → has_key k (link n v d) ≡ has_key k d
unfolding link
has_key-link k n v [] = refl
has_key-link k n v ((j, vs) ∷ d) = elim (Bool-cases (str_eq n j)) [
  | inl e ↦ rw e refl
  | inr e ↦ rw (e, has_key-link k n v d) refl
]

pub entry-link :
    (s t n v : String) (d : Adjacency)
    → member t (entry s (link n v d))
      ≡ (member t (entry s d) || (str_eq s n && (has_key n d && str_eq t v)))
unfolding link
entry-link s t n v [] = ground arith
entry-link s t n v ((j, vs) ∷ d) = elim (Bool-cases (str_eq n j)) [
  | inl e ↦
      rw (e, (eq_iff n j).0 e)
        elim (Bool-cases (str_eq s j)) [
          | inl q ↦ rw (q, member-add t v vs) (ground (arith, eq_iff j j))
          | inr q ↦ rw q (ground arith)
        ]
  | inr e ↦ rw e elim (Bool-cases (str_eq s j)) [
    | inl q ↦ let no = apart s n j q e in rw (q, no) (ground arith)
    | inr q ↦ rw (q, entry-link s t n v d) refl
  ]
]
  where
    apart : (s n j : String) → str_eq s j ≡ true → str_eq n j ≡ false → str_eq s n ≡ false
    apart s n j q e = ground (arith, eq_iff s j, eq_iff s n, eq_iff n j)

entry-link_dependents :
    (s t : String) (es : List Edge) (d : Adjacency)
    → member t (entry s (link_dependents es d))
      ≡ (member t (entry s d) || (has_edge t s es && (has_key t d && has_key s d)))
unfolding link_dependents
entry-link_dependents s t [] d = ground arith
entry-link_dependents s t ((src, dst) ∷ es) d = elim (Bool-cases (has_key src d && has_key dst d)) [
  | inl e ↦ rw e (
      entry-link_dependents s t es (link dst src d)
      ∙ rw (entry-link s t dst src d, has_key-link t dst src d, has_key-link s dst src d)
          (ground (arith, eq_iff t src, eq_iff s dst)))
  | inr e ↦ rw e (entry-link_dependents s t es d ∙ ground (arith, eq_iff t src, eq_iff s dst))
]

pub has_key-blank : (n : String) (ns : List String) → has_key n (blank ns) ≡ member n ns
has_key-blank n [] = refl
has_key-blank n (m ∷ ns) = rw (has_key-blank n ns) refl

pub entry-blank : (t n : String) (ns : List String) → member t (entry n (blank ns)) ≡ false
entry-blank t n [] = refl
entry-blank t n (m ∷ ns) = elim (Bool-cases (str_eq n m)) [
  | inl e ↦ rw e refl
  | inr e ↦ rw (e, entry-blank t n ns) refl
]

has_key-link_dependents :
    (k : String) (es : List Edge) (d : Adjacency) → has_key k (link_dependents es d) ≡ has_key k d
unfolding link_dependents
has_key-link_dependents k [] d = refl
has_key-link_dependents k ((src, dst) ∷ es) d = elim (Bool-cases (has_key src d && has_key dst d)) [
  | inl e ↦ rw e (has_key-link_dependents k es (link dst src d) ∙ has_key-link k dst src d)
  | inr e ↦ rw e (has_key-link_dependents k es d)
]

module _ (nodes : List String) (edges : List Edge) (shares : List (String × Ratio)) where
  -- The services of the graph are the keys of the dependents.
  pub has_key-new_graph :
      (s : String) → has_key s (new_graph nodes edges shares).dependents ≡ member s nodes
  unfolding new_graph
  has_key-new_graph s =
      has_key-link_dependents s edges (blank (sorted (set_of nodes)))
      ∙ has_key-blank s (sorted (set_of nodes))
      ∙ member-sorted s (set_of nodes)
      ∙ member-set_of s nodes

  -- The dependents of `s` are the services with a declared edge to it, both ends being declared.
  pub entry-new_graph :
      (s t : String)
      → member t (entry s (new_graph nodes edges shares).dependents)
        ≡ (has_edge t s edges && (member t nodes && member s nodes))
  unfolding new_graph
  entry-new_graph s t =
      entry-link_dependents s t edges (blank (sorted (set_of nodes)))
      ∙ rw
          (
            entry-blank t s (sorted (set_of nodes)),
            has_key-blank t (sorted (set_of nodes)),
            has_key-blank s (sorted (set_of nodes)),
            member-sorted t (set_of nodes),
            member-set_of t nodes,
            member-sorted s (set_of nodes),
            member-set_of s nodes,
          )
          refl
