-- ===== src/Orchestrator/Reconcile.antt =====
-- src/understudy/orchestrator/state.py: `reduce_plans`, `reduce_twins` and `reduce_evidence`, which
-- differ in the key only. A dict is a list of its items in insertion order. The values of an update
-- are already validated; one value alone stands for the list of it.
pub mod Order
pub mod Lookup
use understudy.Common.{
  String, Bool, Option, none, some, List, [], ◌∷◌, ◌++◌, map, is_empty, if◌then◌else◌, str_eq,
}

module _ {ℓ} {A : Type ℓ} where
  -- `d[k] = v`: an existing key keeps its place.
  unfoldable pub put : String → A → List (String × A) → List (String × A)
  put k v [] = (k, v) ∷ []
  put k v ((j, w) ∷ d) = if str_eq k j then (j, v) ∷ d else (j, w) ∷ put k v d

  unfoldable pub get : String → List (String × A) → Option A
  get k [] = none
  get k ((j, w) ∷ d) = if str_eq k j then some w else get k d

  unfoldable pub remove : String → List (String × A) → List (String × A)
  remove k [] = []
  remove k ((j, w) ∷ d) = if str_eq k j then d else (j, w) ∷ remove k d

  abbrev pub values : List (String × A) → List A
  values [] = []
  values ((j, w) ∷ d) = w ∷ values d

  module _ (key : A → String) where
    -- `{key(v): v for v in updates}`, on top of `d`
    unfoldable pub by_id : List A → List (String × A) → List (String × A)
    unfolding put
    by_id [] d = d
    by_id (u ∷ us) d = by_id us (put (key u) u d)

    -- `[d.pop(key(v), v) for v in current]`, then what is left of `d`
    unfoldable pub pop_each : List A → List (String × A) → List A
    unfolding get remove
    pop_each [] d = values d
    pop_each (c ∷ cs) d = elim (get (key c) d) [
      | some u ↦ u ∷ pop_each cs (remove (key c) d)
      | none ↦ c ∷ pop_each cs d
    ]

    unfoldable pub reconcile : List A → Option (List A) → List A
    unfolding by_id pop_each
    reconcile current none = current
    reconcile current (some updates) =
        if is_empty current then updates else pop_each current (by_id updates [])
