-- ===== src/Orchestrator/Reconcile/Lookup.antt =====
-- What a lookup by id finds in reconciled values.
use understudy.Common.{
  String, false, Option, none, some, List, [], ◌∷◌, is_empty, if◌then◌else◌, str_eq, eq_iff, ◌≡◌,
  refl, sym, ◌∙◌, inl, inr, Bool-cases, Option-cases, arith,
}
use understudy.Orchestrator.Reconcile.{put, get, remove, values, by_id, pop_each, reconcile}
use understudy.Orchestrator.Reconcile.Order.{
  Keyed, by_id-Keyed, remove-Keyed, get-key, pop_each-none, pop_each-some,
}

module _ {ℓ} {A : Type ℓ} where
  abbrev pub or_else : Option A → Option A → Option A
  or_else (some a) b = some a
  or_else none b = b

  get-put :
      (k j : String) (u : A) (d : List (String × A))
      → get k (put j u d) ≡ (if str_eq k j then some u else get k d)
  unfolding get put
  get-put k j u [] = refl
  get-put k j u ((i, w) ∷ d) = elim (Bool-cases (str_eq j i)) [
    | inl e ↦ rw (e, (eq_iff j i).0 e) (ground arith)
    | inr e ↦ elim (Bool-cases (str_eq k i)) [
      | inl q ↦ elim (Bool-cases (str_eq k j)) [
        | inl p ↦ ground (arith, eq_iff k i, eq_iff k j, eq_iff j i)
        | inr p ↦ rw (e, q, p) refl
      ]
      | inr q ↦ rw (e, q, get-put k j u d) refl
    ]
  ]

  get-remove :
      (k j : String) (d : List (String × A)) → str_eq k j ≡ false → get k (remove j d) ≡ get k d
  unfolding get remove
  get-remove k j [] n = refl
  get-remove k j ((i, w) ∷ d) n = elim (Bool-cases (str_eq j i)) [
    | inl e ↦ let same = (eq_iff j i).0 e in rw e (sym (rw (← same) (rw n refl)))
    | inr e ↦ rw (e, get-remove k j d n) refl
  ]

  module _ (key : A → String) where
    abbrev pub first_with : String → List A → Option A
    first_with k [] = none
    first_with k (x ∷ xs) = if str_eq k (key x) then some x else first_with k xs

    abbrev pub last_with : String → List A → Option A
    last_with k [] = none
    last_with k (x ∷ xs) = or_else (last_with k xs) (if str_eq k (key x) then some x else none)

    get-by_id :
        (k : String) (us : List A) (d : List (String × A))
        → get k (by_id key us d) ≡ or_else (last_with k us) (get k d)
    unfolding by_id
    get-by_id k [] d = refl
    get-by_id k (u ∷ us) d =
        get-by_id k us (put (key u) u d)
        ∙ rw (get-put k (key u) u d) elim (Option-cases (last_with k us)) [
          | inl e ↦ elim (Bool-cases (str_eq k (key u))) [
            | inl q ↦ rw (e, q) refl
            | inr q ↦ rw (e, q) refl
          ]
          | inr (x, e) ↦ rw e refl
        ]

    first_with-values :
        (k : String) (d : List (String × A)) → Keyed key d → first_with k (values d) ≡ get k d
    unfolding get
    first_with-values k [] h = refl
    first_with-values k ((j, w) ∷ d) h = rw (h.0, first_with-values k d h.1) refl

    first_with-pop_each :
        (k : String) (cs : List A) (d : List (String × A))
        → Keyed key d
        → first_with k (pop_each key cs d) ≡ or_else (get k d) (first_with k cs)
    unfolding pop_each
    first_with-pop_each k [] d h =
        first_with-values k d h
        ∙ elim (Option-cases (get k d)) [ inl e ↦ rw e refl | inr (u, e) ↦ rw e refl ]
    first_with-pop_each k (c ∷ cs) d h = elim (Option-cases (get (key c) d)) [
      | inl e ↦ rw (pop_each-none key c cs d e) elim (Bool-cases (str_eq k (key c))) [
        | inl q ↦ rw (q, (eq_iff k (key c)).0 q, e) refl
        | inr q ↦ rw q (first_with-pop_each k cs d h)
      ]
      | inr (u, e) ↦
          let named = get-key key (key c) u d h e in
          rw (pop_each-some key c u cs d e) elim (Bool-cases (str_eq k (key c))) [
            | inl q ↦ rw (named, q, (eq_iff k (key c)).0 q, e) refl
            | inr q ↦
                rw (named, q)
                  (first_with-pop_each k cs (remove (key c) d) (remove-Keyed key (key c) d h)
                    ∙ rw (get-remove k (key c) d q) refl)
          ]
    ]

    -- When something is there already: under each id the reconciled list has the last of the updates
    -- with that id, and where no update has it, what was there.
    pub reconcile-finds :
        (k : String) (current updates : List A)
        → is_empty current ≡ false
        → first_with k (reconcile key current (some updates))
          ≡ or_else (last_with k updates) (first_with k current)
    unfolding reconcile
    reconcile-finds k current updates e = rw e (
        first_with-pop_each k current (by_id key updates []) (by_id-Keyed key updates [] tt)
        ∙ rw (get-by_id k updates []) (simplify (last_with k updates)))
      where
        simplify :
            (o : Option A)
            → or_else (or_else o none) (first_with k current) ≡ or_else o (first_with k current)
        simplify none = refl
        simplify (some x) = refl
