-- ===== src/Graph/Service/Closure.antt =====
-- The search of `reachable_set` against the chains of callers.
use mathlib.Core.Path.{subst}
use understudy.Common.{
  ℕ, zero, suc, ◌+◌, ◌≤◌, String, true, false, ◌&&◌, ◌||◌, some, List, [], ◌∷◌, ◌++◌, length,
  length-append, str_eq, eq_iff, if◌then◌else◌, ◌≡◌, refl, sym, ◌∙◌, inl, inr, ◌↔◌, Bool-cases,
  arith, member, Ratio,
}
use understudy.Graph.Service.{
  Edge, Adjacency, entry, new_graph, closure, size, reached, reachable_set,
}
use understudy.Graph.Service.Links.{has_edge, has_key-new_graph, entry-new_graph}

member-append :
    (x : String) (xs ys : List String) → member x (xs ++ ys) ≡ (member x xs || member x ys)
member-append x [] ys = refl
member-append x (z ∷ xs) ys = rw (member-append x xs ys) (ground arith)

module _ (d : Adjacency) where
  -- The callers that the services not yet visited will bring.
  abbrev waiting : List String → Adjacency → ℕ
  waiting visited [] = 0
  waiting visited ((k, vs) ∷ e) = (if member k visited then 0 else length vs) + waiting visited e

  waiting-visit :
      (n : String) (visited : List String) (e : Adjacency)
      → waiting (n ∷ visited) e ≤ waiting visited e
  waiting-visit n visited [] = omega arith
  waiting-visit n visited ((k, vs) ∷ e) = ground (arith, waiting-visit n visited e)

  waiting-entry :
      (n : String) (visited : List String) (e : Adjacency)
      → member n visited ≡ false
      → waiting (n ∷ visited) e + length (entry n e) ≤ waiting visited e
  waiting-entry n visited [] h = omega arith
  waiting-entry n visited ((k, vs) ∷ e) h = elim (Bool-cases (str_eq n k)) [
    | inl q ↦
        let same = (eq_iff n k).0 q in
        ground (arith, waiting-visit n visited e, eq_iff n k, eq_iff k n)
    | inr q ↦ ground (arith, waiting-entry n visited e h, eq_iff n k, eq_iff k n)
  ]

  closure-ends :
      (fuel : ℕ) (visited queue : List String)
      → length queue + waiting visited d ≤ fuel
      → (r : List String) × (closure fuel d visited queue ≡ some r)
  unfolding closure
  closure-ends zero visited [] h = (visited, refl)
  closure-ends zero visited (n ∷ queue) h = absurd (omega arith)
  closure-ends (suc fuel) visited [] h = (visited, refl)
  closure-ends (suc fuel) visited (n ∷ queue) h = elim (Bool-cases (member n visited)) [
    | inl e ↦ let (r, q) = closure-ends fuel visited queue (omega arith) in (r, rw (e, closure) q)
    | inr e ↦
        let (r, q) =
          closure-ends fuel (n ∷ visited) (queue ++ entry n d)
            (omega (arith, waiting-entry n visited d e, length-append queue (entry n d))) in
        (r, rw (e, closure) q)
  ]

  module _ (s : String) where
    -- The services that call `s`, directly or through others.
    pub data Calls : String → Type 0 where
      direct : {t : String} → member t (entry s d) ≡ true → Calls t
      through : {u t : String} → Calls u → member t (entry u d) ≡ true → Calls t

    record Inv (visited queue : List String) : Type 0 where
      started :
          (t : String) → member t (entry s d) ≡ true → (member t queue || member t visited) ≡ true
      sound : (t : String) → (member t queue || member t visited) ≡ true → Calls t
      closed :
          (u t : String)
          → member u visited ≡ true
          → member t (entry u d) ≡ true
          → (member t queue || member t visited) ≡ true

    -- What the search ends with.
    abbrev Exact : List String → Type 0
    Exact r = (t : String) → (member t r ≡ true → Calls t) × (Calls t → member t r ≡ true)

    Inv-Exact : (visited : List String) → Inv visited [] → Exact visited
    Inv-Exact visited i t = (i.sound t, complete t)
      where
        complete : (t : String) → Calls t → member t visited ≡ true
        complete t (direct h) = i.started t h
        complete t (through {u} c h) = i.closed u t (complete u c) h

    Inv-skip :
        (n : String) (visited queue : List String)
        → member n visited ≡ true
        → Inv visited (n ∷ queue)
        → Inv visited queue
    Inv-skip n visited queue e i = record {
      started = λ t h. let k = i.started t h in ground (arith, eq_iff t n);
      sound = λ t h. i.sound t (ground arith);
      closed = λ u t h m. let k = i.closed u t h m in ground (arith, eq_iff t n);
    }

    Inv-visit :
        (n : String) (visited queue : List String)
        → Inv visited (n ∷ queue)
        → Inv (n ∷ visited) (queue ++ entry n d)
    Inv-visit n visited queue i = record {
      started =
          λ t h. let k = i.started t h in rw (member-append t queue (entry n d)) (ground arith);
      sound = λ t h. sound t (rw (member-append t queue (entry n d)) at h);
      closed = λ u t h m. rw (member-append t queue (entry n d)) (closed u t h m);
    }
      where
        here : Calls n
        here = i.sound n (ground (arith, eq_iff n n))

        sound :
            (t : String)
            → ((member t queue || member t (entry n d)) || (str_eq t n || member t visited)) ≡ true
            → Calls t
        sound t h = elim (Bool-cases (member t (entry n d))) [
          | inl e ↦ through here e
          | inr e ↦ i.sound t (ground arith)
        ]

        closed :
            (u t : String)
            → (str_eq u n || member u visited) ≡ true
            → member t (entry u d) ≡ true
            → ((member t queue || member t (entry n d)) || (str_eq t n || member t visited)) ≡ true
        closed u t h m = elim (Bool-cases (str_eq u n)) [
          | inl e ↦ let m' = rw ((eq_iff u n).0 e) at m in ground arith
          | inr e ↦ let k = i.closed u t (rw e at h) m in ground arith
        ]

    closure-Exact :
        (fuel : ℕ) (visited queue r : List String)
        → Inv visited queue
        → closure fuel d visited queue ≡ some r
        → Exact r
    unfolding closure
    closure-Exact zero visited [] r i e =
        let same : visited ≡ r = cc in subst Exact same (Inv-Exact visited i)
    closure-Exact zero visited (n ∷ queue) r i e = cc
    closure-Exact (suc fuel) visited [] r i e =
        let same : visited ≡ r = cc in subst Exact same (Inv-Exact visited i)
    closure-Exact (suc fuel) visited (n ∷ queue) r i e = elim (Bool-cases (member n visited)) [
      | inl q ↦
          closure-Exact fuel visited queue r (Inv-skip n visited queue q i) (rw (q, closure) at e)
      | inr q ↦
          closure-Exact fuel (n ∷ visited) (queue ++ entry n d) r (Inv-visit n visited queue i)
            (rw (q, closure) at e)
    ]

  waiting-size : (e : Adjacency) → waiting [] e ≡ size e
  waiting-size [] = refl
  waiting-size ((k, vs) ∷ e) = omega (arith, waiting-size e)

  Inv-start : (s : String) → Inv s [] (entry s d)
  Inv-start s = record {
    started = λ t h. ground arith;
    sound = λ t h. direct (ground arith);
    closed = λ u t h m. cc;
  }

  -- The fuel is enough, and the search finds the callers of `s` and theirs, and no others.
  pub search-decides :
      (s : String)
      → (r : List String) × (closure (length (entry s d) + size d) d [] (entry s d) ≡ some r)
        × ((t : String) → (member t r ≡ true → Calls s t) × (Calls s t → member t r ≡ true))
  search-decides s =
      let fuel = length (entry s d) + size d in
      let (r, e) = closure-ends fuel [] (entry s d) (omega (arith, waiting-size d)) in
      (r, e, closure-Exact s fuel [] (entry s d) r (Inv-start s) e)

module _ (nodes : List String) (edges : List Edge) (shares : List (String × Ratio)) where
  -- A declared edge between declared services.
  abbrev pub Declared : String → String → Type 0
  Declared t u = (has_edge t u edges && (member t nodes && member u nodes)) ≡ true

  -- `t` relies on `s`, through a chain of declared edges.
  pub data Relies (s : String) : String → Type 0 where
    on_it : {t : String} → Declared t s → Relies s t
    on_other : {u t : String} → Relies s u → Declared t u → Relies s t

  abbrev adjacency : Adjacency
  adjacency = (new_graph nodes edges shares).dependents

  of_Calls : (s t : String) → Calls adjacency s t → Relies s t
  of_Calls s t (direct h) = on_it (sym (entry-new_graph nodes edges shares s t) ∙ h)
  of_Calls s t (through {u} c h) =
      on_other (of_Calls s u c) (sym (entry-new_graph nodes edges shares u t) ∙ h)

  to_Calls : (s t : String) → Relies s t → Calls adjacency s t
  to_Calls s t (on_it h) = direct (entry-new_graph nodes edges shares s t ∙ h)
  to_Calls s t (on_other {u} c h) =
      through (to_Calls s u c) (entry-new_graph nodes edges shares u t ∙ h)

  -- For a declared service the search ends, and what it returns holds exactly the services that
  -- rely on it through a chain of declared edges.
  pub reachable_set-decides :
      (s : String)
      → member s nodes ≡ true
      → (r : List String) × (reachable_set (new_graph nodes edges shares) s ≡ reached r)
        × ((t : String) → (member t r ≡ true) ↔ Relies s t)
  unfolding reachable_set
  reachable_set-decides s h =
      let (r, e, exact) = search-decides adjacency s in
      (
        r,
        rw (has_key-new_graph nodes edges shares s, h, e) refl,
        λ t. ((λ k. of_Calls s t ((exact t).0 k)), λ k. (exact t).1 (to_Calls s t k)),
      )
