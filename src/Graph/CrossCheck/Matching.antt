-- ===== src/Graph/CrossCheck/Matching.antt =====
-- What a check of src/understudy/graph/service_graph.py against traffic says.
use understudy.Common.{
  String, Bool, true, false, not, ◌&&◌, List, [], ◌∷◌, keep, is_empty, ◌≡◌, refl, sym, ◌∙◌, All,
  ◌↔◌, ◌⊎◌, inl, inr, Bool-cases, member, &&-left, &&-right,
}
use understudy.Graph.Service.{Edge, ServiceGraph}
use understudy.Graph.CrossCheck.{
  ObservedTraffic, Checked, report, member_edge, without, without_edges, has_traffic,
  missing_services_of, missing_edges_of, is_clean, cross_check,
}

module _ {A : Type 0} (p : A → Bool) where
  nothing_kept :
      (xs : List A) → is_empty (keep (λ x. not (p x)) xs) ≡ true → All (λ x. p x ≡ true) xs
  nothing_kept [] e = tt
  nothing_kept (x ∷ xs) e = elim (Bool-cases (p x)) [
    | inl q ↦ (q, nothing_kept xs (rw q at e))
    | inr q ↦ let e' = rw q at e in absurd cc
  ]

  keep-none : (xs : List A) → All (λ x. p x ≡ true) xs → is_empty (keep (λ x. not (p x)) xs) ≡ true
  keep-none [] h = refl
  keep-none (x ∷ xs) h = rw (h.0) (keep-none xs h.1)

-- Every service of the first list is in the second one, and so for edges.
abbrev pub Within : List String → List String → Type 0
Within xs ys = All (λ x. member x ys ≡ true) xs

abbrev pub WithinEdges : List Edge → List Edge → Type 0
WithinEdges xs ys = All (λ e. member_edge e ys ≡ true) xs

-- All that was seen is declared, and where there was traffic, all that is declared was seen.
abbrev pub Agrees : ServiceGraph → ObservedTraffic → Type 0
Agrees g o =
    Within o.services g.nodes
    × WithinEdges o.edges g.edges
    × ((has_traffic o ≡ false) ⊎ (Within g.nodes o.services × WithinEdges g.edges o.edges))

abbrev pub is_ok_report : Checked → Bool
is_ok_report (report r g) = r.is_ok
is_ok_report _ = false

ok-clean :
    (g : ServiceGraph) (o : ObservedTraffic) (b : Bool)
    → is_ok_report (cross_check g o b) ≡ is_clean g o
unfolding cross_check
ok-clean g o b = elim (Bool-cases (is_clean g o)) [
  | inl e ↦ rw e refl
  | inr e ↦ rw e elim (Bool-cases b) [ inl q ↦ rw q refl | inr q ↦ rw q refl ]
]

clean-Agrees : (g : ServiceGraph) (o : ObservedTraffic) → is_clean g o ≡ true → Agrees g o
clean-Agrees g o e = (
  nothing_kept (λ x. member x g.nodes) o.services (&&-left _ _ e),
  nothing_kept (λ x. member_edge x g.edges) o.edges
      (&&-left _ _ (&&-right (is_empty (without o.services g.nodes)) _ e)),
  elim (Bool-cases (has_traffic o)) [
    | inr n ↦ inl n
    | inl n ↦
        let seen =
          &&-right (is_empty (without_edges o.edges g.edges)) _
            (&&-right (is_empty (without o.services g.nodes)) _ e) in
        let seen' = rw n at seen in
        inr (
          nothing_kept (λ x. member x o.services) g.nodes (&&-left _ _ seen'),
          nothing_kept (λ x. member_edge x o.edges) g.edges
              (&&-right (is_empty (without g.nodes o.services)) _ seen'),
        )
  ],
)

Agrees-clean : (g : ServiceGraph) (o : ObservedTraffic) → Agrees g o → is_clean g o ≡ true
Agrees-clean g o (a, b, c) =
    rw
      (
        keep-none (λ x. member x g.nodes) o.services a,
        keep-none (λ x. member_edge x g.edges) o.edges b,
      )
      (missing c)
  where
    missing :
        ((has_traffic o ≡ false) ⊎ (Within g.nodes o.services × WithinEdges g.edges o.edges))
        → (is_empty (missing_services_of g o) && is_empty (missing_edges_of g o)) ≡ true
    missing (inl n) = rw n refl
    missing (inr (x, y)) = elim (Bool-cases (has_traffic o)) [
      | inr n ↦ rw n refl
      | inl n ↦
          rw
            (
              n,
              keep-none (λ x. member x o.services) g.nodes x,
              keep-none (λ x. member_edge x o.edges) g.edges y,
            )
            refl
    ]

-- Whether or not a mismatch raises: the report is "OK" exactly when all services and edges seen are
-- declared and, where there was traffic, all that are declared were seen.
pub cross_check-ok_iff :
    (g : ServiceGraph) (o : ObservedTraffic) (raise_on_mismatch : Bool)
    → (is_ok_report (cross_check g o raise_on_mismatch) ≡ true) ↔ Agrees g o
cross_check-ok_iff g o b =
    ((λ e. clean-Agrees g o (sym (ok-clean g o b) ∙ e)), λ a. ok-clean g o b ∙ Agrees-clean g o a)
