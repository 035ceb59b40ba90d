-- ===== src/Planner/Normalise/Blast.antt =====
-- The declared blast sets that src/understudy/planner/validate.py lets through.
use understudy.Common.{
  String, Bool, true, false, ◌&&◌, ◌||◌, List, [], ◌∷◌, str_eq, eq_iff, ◌≡◌, refl, sym, ◌∙◌, ◌⊎◌,
  inl, inr, ◌↔◌, Bool-cases, arith, All, member, is_subset, set_of, member-set_of,
}
use understudy.Contracts.Incident.{DependencyEdge, DependencyGraphSnapshot}
use understudy.Graph.Service.{Adjacency, has_key, entry, link, blank}
use understudy.Graph.Service.Links.{has_key-link, entry-link, has_key-blank, entry-blank}
use understudy.Graph.Service.Closure.{Calls, direct, through, search-decides}
use understudy.Planner.Normalise.{
  link_callers, callers_in, of_snapshot, reachable_in, compute_blast_set_validity,
}

abbrev pub has_call : String → String → List DependencyEdge → Bool
has_call t s [] = false
has_call t s (e ∷ es) = (str_eq t e.source && str_eq s e.target) || has_call t s es

entry-link_callers :
    (s t : String) (es : List DependencyEdge) (d : Adjacency)
    → member t (entry s (link_callers es d))
      ≡ (member t (entry s d) || (has_call t s es && has_key s d))
unfolding link_callers
entry-link_callers s t [] d = ground arith
entry-link_callers s t (e ∷ es) d = elim (Bool-cases (has_key e.target d)) [
  | inl k ↦ rw k (
      entry-link_callers s t es (link e.target e.source d)
      ∙ rw (entry-link s t e.target e.source d, has_key-link s e.target e.source d)
          (ground (arith, eq_iff s e.target)))
  | inr k ↦ rw k (entry-link_callers s t es d ∙ ground (arith, eq_iff s e.target))
]

module _ (nodes : List String) (target : String) (Rel : String → Type 0) where
  abbrev pub Affected : String → Type 0
  Affected s = (member s nodes ≡ true) × ((s ≡ target) ⊎ Rel s)

  pub subset-All :
      (names r declared : List String)
      → ((s : String) → member s names ≡ member s nodes)
      → ((t : String) → (member t r ≡ true → Rel t) × (Rel t → member t r ≡ true))
      → ((is_subset declared names && is_subset declared (target ∷ r)) ≡ true)
        ↔ All Affected declared
  subset-All names r [] same exact = ((λ _. tt), λ _. refl)
  subset-All names r (s ∷ ss) same exact =
      let later = subset-All names r ss same exact in
      let here = same s in
      (
        (λ h. ((ground arith, reached h), later.0 (ground arith))),
        λ (a, rest). let k = later.1 rest in let m = known a.1 in ground (arith, a.0),
      )
    where
      reached :
          ((member s names && is_subset ss names)
              && ((str_eq s target || member s r) && is_subset ss (target ∷ r)))
            ≡ true
          → (s ≡ target) ⊎ Rel s
      reached h = elim (Bool-cases (str_eq s target)) [
        | inl e ↦ inl ((eq_iff s target).0 e)
        | inr e ↦ inr ((exact s).0 (ground arith))
      ]

      known : (s ≡ target) ⊎ Rel s → (str_eq s target || member s r) ≡ true
      known (inl e) = let q = (eq_iff s target).1 e in ground arith
      known (inr c) = let q = (exact s).1 c in ground arith

pub subset-empty :
    (names declared : List String)
    → ((is_subset declared names && is_subset declared []) ≡ true) ↔ (declared ≡ [])
subset-empty names [] = ((λ _. refl), λ _. refl)
subset-empty names (s ∷ ss) = ((λ h. absurd (ground arith)), λ h. absurd cc)

module _ (g : DependencyGraphSnapshot) where
  -- `t` calls `s`, which the snapshot knows.
  abbrev pub CallsDirectly : String → String → Type 0
  CallsDirectly t s = (has_call t s g.edges && member s g.nodes) ≡ true

  -- `t` calls `s`, directly or through others.
  pub data CallsOn (s : String) : String → Type 0 where
    itself : {t : String} → CallsDirectly t s → CallsOn s t
    another : {u t : String} → CallsOn s u → CallsDirectly t u → CallsOn s t

  entry-callers_in :
      (s t : String)
      → member t (entry s (callers_in g)) ≡ (has_call t s g.edges && member s g.nodes)
  unfolding callers_in
  entry-callers_in s t =
      entry-link_callers s t g.edges (blank (set_of g.nodes))
      ∙ rw
          (
            entry-blank t s (set_of g.nodes),
            has_key-blank s (set_of g.nodes),
            member-set_of s g.nodes,
          )
          refl

  of_Calls : (s t : String) → Calls (callers_in g) s t → CallsOn s t
  of_Calls s t (direct h) = itself (sym (entry-callers_in s t) ∙ h)
  of_Calls s t (through {u} c h) = another (of_Calls s u c) (sym (entry-callers_in u t) ∙ h)

  to_Calls : (s t : String) → CallsOn s t → Calls (callers_in g) s t
  to_Calls s t (itself h) = direct (entry-callers_in s t ∙ h)
  to_Calls s t (another {u} c h) = through (to_Calls s u c) (entry-callers_in u t ∙ h)

  -- A known service that is the target or calls it.
  abbrev pub IsAffected : String → String → Type 0
  IsAffected target s = (member s g.nodes ≡ true) × ((s ≡ target) ⊎ CallsOn target s)

  -- The declared blast set of a workload passes against a snapshot of the graph exactly if the
  -- snapshot has the workload, and every declared service is one of the snapshot and is the workload
  -- or calls it, directly or through others.
  pub snapshot-valid_iff :
      (declared : List String) (target : String)
      → str_eq target "" ≡ false
      → (compute_blast_set_validity declared target (of_snapshot g) ≡ true)
        ↔ ((member target g.nodes ≡ true) × All (IsAffected target) declared)
  unfolding compute_blast_set_validity reachable_in
  snapshot-valid_iff declared target e =
      let (r, q, exact) = search-decides (callers_in g) target in
      let agree =
        subset-All g.nodes target (CallsOn target) g.nodes r declared (λ s. refl)
          (λ t.
            ((λ m. of_Calls target t ((exact t).0 m)), λ c. (exact t).1 (to_Calls target t c))) in
      elim (Bool-cases (member target g.nodes)) [
        | inr m ↦ rw (e, m) ((λ h. absurd cc), λ h. absurd cc)
        | inl m ↦ rw (e, m, q, e) ((λ h. (refl, agree.0 h)), λ h. agree.1 h.1)
      ]

  pub snapshot-valid_empty :
      (declared : List String) (target : String)
      → str_eq target "" ≡ true
      → (compute_blast_set_validity declared target (of_snapshot g) ≡ true) ↔ (declared ≡ [])
  unfolding compute_blast_set_validity reachable_in
  snapshot-valid_empty declared target e =
      let (r, q, exact) = search-decides (callers_in g) target in
      rw (e, q, e) (subset-empty g.nodes declared)
