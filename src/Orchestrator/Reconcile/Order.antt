-- ===== src/Orchestrator/Reconcile/Order.antt =====
-- The ids of reconciled values, src/understudy/orchestrator/state.py.
use understudy.Common.{
  String, Bool, not, member, keep, if◌then◌else◌, ◌∙◌, false, Option, none, some, List, [], ◌∷◌,
  ◌++◌, map, is_empty, str_eq, eq_iff, ◌≡◌, refl, sym, ap, inl, inr, Bool-cases, Option-cases,
}
use understudy.Orchestrator.Reconcile.{put, get, remove, values, by_id, pop_each, reconcile}

module _ {ℓ} {A : Type ℓ} (key : A → String) where
  -- Every item stands under its own id.
  abbrev pub Keyed : List (String × A) → Type 0
  Keyed [] = Unit
  Keyed ((j, w) ∷ d) = (key w ≡ j) × Keyed d

  put-Keyed : (u : A) (d : List (String × A)) → Keyed d → Keyed (put (key u) u d)
  unfolding put
  put-Keyed u [] h = (refl, tt)
  put-Keyed u ((j, w) ∷ d) h = elim (Bool-cases (str_eq (key u) j)) [
    | inl e ↦ rw e ((eq_iff (key u) j).0 e, h.1)
    | inr e ↦ rw e (h.0, put-Keyed u d h.1)
  ]

  pub by_id-Keyed : (us : List A) (d : List (String × A)) → Keyed d → Keyed (by_id key us d)
  unfolding by_id
  by_id-Keyed [] d h = h
  by_id-Keyed (u ∷ us) d h = by_id-Keyed us (put (key u) u d) (put-Keyed u d h)

  pub remove-Keyed : (k : String) (d : List (String × A)) → Keyed d → Keyed (remove k d)
  unfolding remove
  remove-Keyed k [] h = h
  remove-Keyed k ((j, w) ∷ d) h = elim (Bool-cases (str_eq k j)) [
    | inl e ↦ rw e h.1
    | inr e ↦ rw e (h.0, remove-Keyed k d h.1)
  ]

  pub get-key :
      (k : String) (u : A) (d : List (String × A)) → Keyed d → get k d ≡ some u → key u ≡ k
  unfolding get
  get-key k u [] h e = cc
  get-key k u ((j, w) ∷ d) h e = elim (Bool-cases (str_eq k j)) [
    | inl q ↦ let e' = rw q at e in let same = (eq_iff k j).0 q in let there = h.0 in cc
    | inr q ↦ get-key k u d h.1 (rw q at e)
  ]

  pub pop_each-none :
      (c : A) (cs : List A) (d : List (String × A))
      → get (key c) d ≡ none
      → pop_each key (c ∷ cs) d ≡ c ∷ pop_each key cs d
  unfolding pop_each
  pop_each-none c cs d e = rw (e, pop_each) refl

  pub pop_each-some :
      (c u : A) (cs : List A) (d : List (String × A))
      → get (key c) d ≡ some u
      → pop_each key (c ∷ cs) d ≡ u ∷ pop_each key cs (remove (key c) d)
  unfolding pop_each
  pop_each-some c u cs d e = rw (e, pop_each) refl

  keys : List (String × A) → List String
  keys [] = []
  keys ((j, w) ∷ d) = j ∷ keys d

  values-keys : (d : List (String × A)) → Keyed d → map key (values d) ≡ keys d
  unfolding keys
  values-keys [] h = refl
  values-keys ((j, w) ∷ d) h = rw (h.0, values-keys d h.1) refl

  remove-put :
      (k j : String) (v : A) (d : List (String × A))
      → remove k (put j v d) ≡ (if str_eq k j then remove k d else put j v (remove k d))
  unfolding put remove
  remove-put k j v [] = elim (Bool-cases (str_eq k j)) [ inl e ↦ rw e refl | inr e ↦ rw e refl ]
  remove-put k j v ((i, w) ∷ d) = elim (Bool-cases (str_eq j i)) [
    | inl e ↦
        let same = (eq_iff j i).0 e in
        elim (Bool-cases (str_eq k i)) [
          | inl q ↦ rw (e, same, q) refl
          | inr q ↦ rw (e, same, q) (rw ((eq_iff i i).1 refl) refl)
        ]
    | inr e ↦ elim (Bool-cases (str_eq k i)) [
      | inl q ↦ elim (Bool-cases (str_eq k j)) [
        | inl p ↦
            let s = (eq_iff k i).0 q in
            let t = (eq_iff k j).0 p in let r = (eq_iff j i).1 (sym t ∙ s) in absurd cc
        | inr p ↦ rw (e, q, p) refl
      ]
      | inr q ↦
          rw (e, q, remove-put k j v d)
            elim (Bool-cases (str_eq k j)) [ inl p ↦ rw p refl | inr p ↦ rw (p, e) refl ]
    ]
  ]

  abbrev other_id : String → A → Bool
  other_id k u = not (str_eq k (key u))

  remove-by_id :
      (k : String) (us : List A) (d : List (String × A))
      → remove k (by_id key us d) ≡ by_id key (keep (other_id k) us) (remove k d)
  unfolding by_id
  remove-by_id k [] d = refl
  remove-by_id k (u ∷ us) d =
      remove-by_id k us (put (key u) u d)
      ∙ rw (remove-put k (key u) u d)
          elim (Bool-cases (str_eq k (key u))) [ inl e ↦ rw e refl | inr e ↦ rw e refl ]

  remove-none : (k : String) (d : List (String × A)) → get k d ≡ none → remove k d ≡ d
  unfolding get remove
  remove-none k [] e = refl
  remove-none k ((j, w) ∷ d) e = elim (Bool-cases (str_eq k j)) [
    | inl q ↦ let e' = rw q at e in absurd cc
    | inr q ↦ rw (q, remove-none k d (rw q at e)) refl
  ]

  -- The ids of the updates that are not seen yet, each once, in the order of their first occurrence.
  abbrev pub ids_beyond : List String → List A → List String
  ids_beyond seen [] = []
  ids_beyond seen (u ∷ us) =
      if member (key u) seen
      then ids_beyond seen us
      else key u ∷ ids_beyond (seen ++ (key u ∷ [])) us

  abbrev pub new_ids : List A → Option (List A) → List String
  new_ids current none = []
  new_ids current (some us) = ids_beyond (map key current) us

  keys-put :
      (k : String) (u : A) (d : List (String × A))
      → keys (put k u d) ≡ (if member k (keys d) then keys d else keys d ++ (k ∷ []))
  unfolding put keys
  keys-put k u [] = refl
  keys-put k u ((j, w) ∷ d) = elim (Bool-cases (str_eq k j)) [
    | inl e ↦ rw e refl
    | inr e ↦
        rw (e, keys-put k u d)
          elim (Bool-cases (member k (keys d))) [ inl q ↦ rw q refl | inr q ↦ rw q refl ]
  ]

  append_assoc : (xs ys zs : List String) → (xs ++ ys) ++ zs ≡ xs ++ (ys ++ zs)
  append_assoc [] ys zs = refl
  append_assoc (x ∷ xs) ys zs = ap (λ r. x ∷ r) (append_assoc xs ys zs)

  append_nil : (xs : List String) → xs ++ [] ≡ xs
  append_nil [] = refl
  append_nil (x ∷ xs) = ap (λ r. x ∷ r) (append_nil xs)

  keys-by_id :
      (us : List A) (d : List (String × A))
      → keys (by_id key us d) ≡ keys d ++ ids_beyond (keys d) us
  unfolding by_id
  keys-by_id [] d = sym (append_nil (keys d))
  keys-by_id (u ∷ us) d = elim (Bool-cases (member (key u) (keys d))) [
    | inl e ↦
        let same : keys (put (key u) u d) ≡ keys d = keys-put (key u) u d ∙ rw e refl in
        keys-by_id us (put (key u) u d) ∙ rw (same, e) refl
    | inr e ↦
        let longer : keys (put (key u) u d) ≡ keys d ++ (key u ∷ []) =
          keys-put (key u) u d ∙ rw e refl in
        keys-by_id us (put (key u) u d)
        ∙ rw (longer, e)
            (append_assoc (keys d) (key u ∷ []) (ids_beyond (keys d ++ (key u ∷ [])) us))
  ]

  ids_beyond-keep :
      (k : String) (seen : List String) (us : List A)
      → ids_beyond seen (keep (other_id k) us) ≡ ids_beyond (k ∷ seen) us
  ids_beyond-keep k seen [] = refl
  ids_beyond-keep k seen (u ∷ us) = elim (Bool-cases (str_eq k (key u))) [
    | inl e ↦
        let back = (eq_iff (key u) k).1 (sym ((eq_iff k (key u)).0 e)) in
        rw (e, back) (ids_beyond-keep k seen us)
    | inr e ↦ elim (Bool-cases (str_eq (key u) k)) [
      | inl q ↦ let back = (eq_iff k (key u)).1 (sym ((eq_iff (key u) k).0 q)) in absurd cc
      | inr q ↦ elim (Bool-cases (member (key u) seen)) [
        | inl m ↦ rw (e, q, m) (ids_beyond-keep k seen us)
        | inr m ↦ rw (e, q, m) (ap (λ r. key u ∷ r) (ids_beyond-keep k (seen ++ (key u ∷ [])) us))
      ]
    ]
  ]

  pop_each-ids :
      (cs us : List A)
      → map key (pop_each key cs (by_id key us [])) ≡ map key cs ++ ids_beyond (map key cs) us
  unfolding pop_each keys remove
  pop_each-ids [] us = values-keys (by_id key us []) (by_id-Keyed us [] tt) ∙ keys-by_id us []
  pop_each-ids (c ∷ cs) us =
      let d = by_id key us [] in
      let less : remove (key c) d ≡ by_id key (keep (other_id (key c)) us) [] =
        remove-by_id (key c) us [] in
      let later : map key (pop_each key cs (remove (key c) d))
          ≡ map key cs ++ ids_beyond (key c ∷ map key cs) us =
        rw less (
          pop_each-ids cs (keep (other_id (key c)) us)
          ∙ ap (λ r. map key cs ++ r) (ids_beyond-keep (key c) (map key cs) us)) in
      elim (Option-cases (get (key c) d)) [
        | inl e ↦
            rw (pop_each-none c cs d e)
              (ap (λ r. key c ∷ r) (rw (remove-none (key c) d e) at later))
        | inr (u, e) ↦
            rw (pop_each-some c u cs d e, get-key (key c) u d (by_id-Keyed us [] tt) e)
              (ap (λ r. key c ∷ r) later)
      ]

  -- When something is there already, whatever the update: the ids of the reconciled list are the
  -- current ids, in their order, and then the ids of the updates that are not among them, each once
  -- and in the order of their first occurrence; without an update, the current ids alone.
  pub reconcile-keeps_ids :
      (current : List A) (update : Option (List A))
      → is_empty current ≡ false
      → map key (reconcile key current update) ≡ map key current ++ new_ids current update
  unfolding reconcile
  reconcile-keeps_ids current none e = sym (append_nil (map key current))
  reconcile-keeps_ids current (some us) e = rw e (pop_each-ids current us)
