-- ===== src/Kernel/Verify/Passing.antt =====
-- The PASS verdicts of src/understudy/kernel/verify.py under a solver that answers soundly.
use understudy.Common.{
  ℕ, suc, String, true, List, [], ◌∷◌, ◌++◌, map, is_empty, ◌==◌, ◌≡◌, refl, sym, ◌∙◌, inl, inr,
  arith, Bool-cases, All, set_of, sorted, member, eq_iff, member-sorted, member-set_of,
}
use understudy.Contracts.Enums.{is_pass}
use understudy.Contracts.Plan.{RemediationPlan}
use understudy.Kernel.Facts.{FactName, Fact}
use understudy.Kernel.Term.{
  Formula, negation, Model, CheckResult, unsat, sat, unknown, Solver, IsSound, holds, holds_all,
}
use understudy.Kernel.Context.{
  Host, Context, Outcome, ok, missing, type_error, value_error, not_implemented, new_context,
}
use understudy.Kernel.Context.Rules.{Inv, Post, Triple, fact_model, holds_all-append}
use understudy.Kernel.Verify.{
  Invariant, KernelVerdict, InvariantResult, name_text, all_missing, note_missing, on_check,
  on_build, verify_from, verify, remaining_ms,
}

-- The loop's list of missing facts, the context's, and the report are empty together.
empty-sorted : (xs : List String) → is_empty (sorted (set_of xs)) ≡ true → is_empty xs ≡ true
empty-sorted [] e = refl
empty-sorted (x ∷ xs) e = absurd (no_member (sorted (set_of (x ∷ xs))) e there)
  where
    there : member x (sorted (set_of (x ∷ xs))) ≡ true
    there = member-sorted x (set_of (x ∷ xs)) ∙ member-set_of x (x ∷ xs) ∙ rw ((eq_iff x x).1 refl)

    no_member : (ys : List String) → is_empty ys ≡ true → member x ys ≡ true → ⊥
    no_member [] e k = cc
    no_member (y ∷ ys) e k = cc

missing-split :
    (miss ns : List FactName)
    → is_empty (map name_text (miss ++ ns)) ≡ true
    → (is_empty miss ≡ true) × (is_empty ns ≡ true)
missing-split [] [] e = (refl, refl)
missing-split [] (n ∷ ns) e = cc
missing-split (k ∷ ks) ns e = cc

missing-joined :
    (miss ns : List FactName)
    → is_empty miss ≡ true
    → is_empty ns ≡ true
    → is_empty (sorted (set_of (map name_text (miss ++ ns)))) ≡ true
unfolding sorted set_of
missing-joined [] [] e f = refl
missing-joined [] (n ∷ ns) e f = cc
missing-joined (k ∷ ks) ns e f = cc

no-missing :
    (miss : List FactName) (c : Context)
    → is_empty (all_missing miss c) ≡ true
    → (is_empty miss ≡ true) × (is_empty c.missing_accessed ≡ true)
unfolding all_missing
no-missing miss c e =
    missing-split miss c.missing_accessed
      (empty-sorted (map name_text (miss ++ c.missing_accessed)) e)

all-missing-empty :
    (miss : List FactName) (c : Context)
    → is_empty miss ≡ true
    → is_empty c.missing_accessed ≡ true
    → is_empty (all_missing miss c) ≡ true
unfolding all_missing
all-missing-empty miss c e f = missing-joined miss c.missing_accessed e f

note_missing-not_empty :
    (n : FactName) (miss : List FactName) → is_empty (note_missing n miss) ≡ true → ⊥
note_missing-not_empty n [] e = cc
note_missing-not_empty n (k ∷ ks) e = ground arith

module _ (check : Solver) (sound : IsSound check) (elapsed : ℕ → ℕ) (timeout_ms : ℕ)
    (incident : String) (now : ℕ) (h : Host) (pl : RemediationPlan) (fs : List Fact) where
  abbrev M : Model
  M = fact_model h fs

  abbrev Good : Context → Type 0
  Good = Inv h fs pl M

  -- `build` makes a formula that, where it holds of the facts, gives `P`.
  abbrev pub Discharges : Invariant → Type 0 → Type 0
  Discharges inv P = Triple h fs pl M (λ f. holds M f ≡ true → P) inv.build

  abbrev Loop :
      ℕ → List Invariant → Context → List InvariantResult → List FactName → Outcome KernelVerdict
  Loop = verify_from check elapsed timeout_ms incident now

  abbrev Passes : Outcome KernelVerdict → Type 0
  Passes r = (v : KernelVerdict) × (r ≡ ok v) × (is_pass v.verdict ≡ true)

  proved :
      (t : ℕ) (fs' : List Formula) (f : Formula)
      → holds_all M fs' ≡ true
      → check t (fs' ++ negation f ∷ []) ≡ unsat
      → holds M f ≡ true
  proved t fs' f good e =
      let no = sym (holds_all-append M fs' (negation f)) ∙ sound.unsat_sound t _ M e in
      ground (arith, no)

  -- What a run that passes from some point on shows of that point.
  abbrev Shows : (Invariant → Type 0) → List Invariant → Context → List FactName → Type 0
  Shows P invs c miss = All P invs × (is_empty miss ≡ true) × (is_empty c.missing_accessed ≡ true)

  module _ (P : Invariant → Type 0) (inv : Invariant) (rest : List Invariant) (c : Context)
      (good : holds_all M c.assertions ≡ true)
      (next : Context → List InvariantResult → List FactName → Outcome KernelVerdict)
      (ih : (results : List InvariantResult) (miss : List FactName)
        → Passes (next c results miss)
        → Shows P rest c miss) where
    on_check-Passes :
        (t : ℕ) (f : Formula) (r : CheckResult)
        → check t (c.assertions ++ negation f ∷ []) ≡ r
        → (holds M f ≡ true → P inv)
        → (results : List InvariantResult) (miss : List FactName)
        → Passes (on_check check elapsed timeout_ms incident now inv r next c results miss)
        → P inv × Shows P rest c miss
    unfolding on_check
    on_check-Passes t f unsat e p results miss passes =
        (p (proved t c.assertions f good e), ih _ miss passes)
    on_check-Passes t f (sat m) e p results miss (v, q, w) =
        elim (Bool-cases (is_empty (all_missing miss c))) [
          | inl none_missing ↦ let q' = rw none_missing at q in cc
          | inr some_missing ↦
              let shows = ih _ miss (v, rw some_missing at q, w) in
              let none_missing = all-missing-empty miss c shows.1 shows.2 in cc
        ]
    on_check-Passes t f unknown e p results miss (v, q, w) = cc

    on_build-Passes :
        (t : ℕ) (r : Outcome Formula)
        → Post h fs pl M (λ f. holds M f ≡ true → P inv) r
        → (results : List InvariantResult) (miss : List FactName)
        → Passes (on_build check elapsed timeout_ms incident now inv t r next c results miss)
        → P inv × Shows P rest c miss
    unfolding on_build
    on_build-Passes t (ok f) p results miss passes =
        on_check-Passes t f (check t (c.assertions ++ negation f ∷ [])) refl p results miss passes
    on_build-Passes t (missing n) p results miss passes =
        absurd (note_missing-not_empty n miss (ih _ (note_missing n miss) passes).1)
    on_build-Passes t type_error p results miss (v, q, w) = cc
    on_build-Passes t value_error p results miss (v, q, w) = cc
    on_build-Passes t not_implemented p results miss (v, q, w) = cc

  passing :
      (P : Invariant → Type 0) (k : ℕ) (invs : List Invariant) (c : Context)
      (results : List InvariantResult) (miss : List FactName)
      → All (λ inv. Discharges inv (P inv)) invs
      → Good c
      → Passes (Loop k invs c results miss)
      → Shows P invs c miss
  unfolding verify_from
  passing P k [] c results miss d g (v, e, p) = elim (Bool-cases (is_empty (all_missing miss c))) [
    | inl q ↦ let none_there = no-missing miss c q in (tt, none_there.0, none_there.1)
    | inr q ↦ let e' = rw q at e in cc
  ]
  passing P k (inv ∷ rest) c results miss d g (v, e, p) =
      elim (Bool-cases (remaining_ms check elapsed timeout_ms incident now k == 0)) [
        | inl q ↦ let e' = rw q at e in cc
        | inr q ↦
            let t = d.0 in
            let s =
              on_build-Passes P inv rest (inv.build c).1 (t.keeps c g).satisfiable
                (Loop (suc k) rest)
                (λ results miss passes.
                  passing P (suc k) rest (inv.build c).1 results miss d.1 (t.keeps c g) passes)
                (remaining_ms check elapsed timeout_ms incident now k) (inv.build c).0
                (t.result c g (t.keeps c g).satisfiable) results miss (v, rw q at e, p) in
            ((s.0, s.1.0), s.1.1, t.accessed c g s.1.2)
      ]

  new-Good : Good (new_context h pl fs)
  new-Good = record { facts = refl; host = refl; plan = refl; satisfiable = refl; bound = λ _. tt }

  -- With sound answers of the solver, whatever the clock readings, a verdict PASS on a list of
  -- invariants each of whose formulas gives `P` means that `P` holds of every one of them.
  pub verify-passes :
      (P : Invariant → Type 0) (invs : List Invariant)
      → All (λ inv. Discharges inv (P inv)) invs
      → (v : KernelVerdict) → verify check elapsed timeout_ms incident now h invs pl fs ≡ ok v
      → is_pass v.verdict ≡ true
      → All P invs
  unfolding verify
  verify-passes P invs d v e p =
      (passing P 0 invs (new_context h pl fs) [] [] d new-Good (v, e, p)).0
