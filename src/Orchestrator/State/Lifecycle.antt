-- ===== src/Orchestrator/State/Lifecycle.antt =====
-- Sequences of updates of src/understudy/orchestrator/state.py.
use mathlib.Core.Path.{subst}
use understudy.Common.{
  ℕ, String, Bool, true, false, Option, none, some, List, [], ◌∷◌, ◌++◌, str_eq, ◌≡◌, refl, sym,
  ◌∙◌, inl, inr, Bool-cases, Option-cases, eq_iff,
}
use understudy.Orchestrator.State.{
  State, Update, apply_update, reduce_incident_id, merged, reduce_errors, reduce_escalated,
  reduce_started_at,
}

-- The updates of a run, in order; `none` when one of them is refused.
unfoldable pub apply_all : State → List Update → Option State
unfolding apply_update
apply_all s [] = some s
apply_all s (u ∷ us) = elim (apply_update s u) [ none ↦ none | some t ↦ apply_all t us ]

-- Later keeps what earlier has fixed.
pub record Keeps (s t : State) : Type 0 where
  pub same_incident : str_eq s.incident_id "" ≡ false → t.incident_id ≡ s.incident_id
  pub errors_grow : (more : List String) × (t.errors ≡ s.errors ++ more)
  pub stays_escalated : s.escalated_flag ≡ true → t.escalated_flag ≡ true
  pub first_start : (n : ℕ) → s.started_at ≡ some n → t.started_at ≡ some n

same-incident :
    (current id : String) (u : Option String)
    → reduce_incident_id current u ≡ some id
    → str_eq current "" ≡ false
    → id ≡ current
unfolding reduce_incident_id
same-incident current id none e n = cc
same-incident current id (some update) e n = elim (Bool-cases (str_eq update "")) [
  | inl q ↦ let e' = rw q at e in cc
  | inr q ↦ elim (Bool-cases (str_eq update current)) [
    | inl p ↦ let e' = rw (q, n, p) at e in let same = (eq_iff update current).0 p in cc
    | inr p ↦ let e' = rw (q, n, p) at e in cc
  ]
]

append_nil : (xs : List String) → xs ≡ xs ++ []
append_nil [] = refl
append_nil (x ∷ xs) = rw (← append_nil xs) refl

append_assoc : (xs ys zs : List String) → xs ++ ys ++ zs ≡ xs ++ (ys ++ zs)
append_assoc [] ys zs = refl
append_assoc (x ∷ xs) ys zs = rw (append_assoc xs ys zs) refl

merged-Keeps :
    (s : State) (u : Update) (id : String)
    → reduce_incident_id s.incident_id u.incident_id ≡ some id
    → Keeps s (merged s u id)
merged-Keeps s u id e = record {
  same_incident = λ n. same-incident s.incident_id id u.incident_id e n;
  errors_grow = grow s.errors u.errors;
  stays_escalated = latch s.escalated_flag u.escalated_flag;
  first_start = first s.started_at u.started_at;
}
  where
    grow :
        (xs : List String) (o : Option (List String))
        → (more : List String) × (reduce_errors xs o ≡ xs ++ more)
    grow xs none = ([], append_nil xs)
    grow xs (some ys) = (ys, refl)

    latch : (b : Bool) (o : Option Bool) → b ≡ true → reduce_escalated b o ≡ true
    latch b none h = h
    latch b (some c) h = rw h refl

    first : (a b : Option ℕ) (n : ℕ) → a ≡ some n → reduce_started_at a b ≡ some n
    first none b n h = cc
    first (some t) b n h = h

pub apply_update-merged :
    (s t : State) (u : Update)
    → apply_update s u ≡ some t
    → (id : String) × (reduce_incident_id s.incident_id u.incident_id ≡ some id)
      × (merged s u id ≡ t)
unfolding apply_update
apply_update-merged s t u e = elim (Option-cases (reduce_incident_id s.incident_id u.incident_id)) [
  | inl q ↦ let e' = rw (q, apply_update) at e in cc
  | inr (id, q) ↦ (id, q, some-injective (merged s u id) t (sym (rw (q, apply_update) refl) ∙ e))
]
  where
    some-injective : (a b : State) → some a ≡ some b → a ≡ b
    some-injective a b h = cc

pub apply_update-Keeps : (s t : State) (u : Update) → apply_update s u ≡ some t → Keeps s t
apply_update-Keeps s t u e =
    let (id, q, same) = apply_update-merged s t u e in
    subst (λ x. Keeps s x) same (merged-Keeps s u id q)

Keeps-trans : (r s t : State) → Keeps r s → Keeps s t → Keeps r t
Keeps-trans r s t a b = record {
  same_incident = λ n. b.same_incident (rw (← sym (a.same_incident n)) n) ∙ a.same_incident n;
  errors_grow = (
    a.errors_grow.0 ++ b.errors_grow.0,
    b.errors_grow.1 ∙ rw (a.errors_grow.1) (append_assoc r.errors a.errors_grow.0 b.errors_grow.0),
  );
  stays_escalated = λ h. b.stays_escalated (a.stays_escalated h);
  first_start = λ n h. b.first_start n (a.first_start n h);
}

Keeps-refl : (s : State) → Keeps s s
Keeps-refl s = record {
  same_incident = λ _. refl;
  errors_grow = ([], append_nil s.errors);
  stays_escalated = λ h. h;
  first_start = λ n h. h;
}

-- Whatever updates the nodes return, when none of them is refused: an incident id, once given, is
-- the same at the end, no error is dropped or reordered, an escalation is not taken back, and the
-- first start time stands.
pub apply_all-Keeps : (us : List Update) (s t : State) → apply_all s us ≡ some t → Keeps s t
unfolding apply_all
apply_all-Keeps [] s t e = let same : s ≡ t = cc in subst (λ x. Keeps s x) same (Keeps-refl s)
apply_all-Keeps (u ∷ us) s t e = elim (Option-cases (apply_update s u)) [
  | inl q ↦ let e' = rw (q, apply_all) at e in cc
  | inr (r, q) ↦
      Keeps-trans s r t (apply_update-Keeps s r u q)
        (apply_all-Keeps us r t (sym (rw (q, apply_all) refl) ∙ e))
]
