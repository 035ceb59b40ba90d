-- ===== src/Orchestrator/Graph/Guards.antt =====
-- What holds of the state with which a node is entered, and how a run ends.
use understudy.Common.{
  ℕ, zero, suc, true, false, List, [], ◌∷◌, ◌≡◌, refl, inl, inr, Bool-cases, Option-cases, arith,
  All, ◌⊎◌,
}
use understudy.Orchestrator.State.{State, is_escalated}
use understudy.Orchestrator.Graph.{
  Node, ingest, gather_context, plan_candidates, fork_fleet, register_mirrors, apply_candidates,
  observe, tournament, safety_kernel, actuate, notify_slack, escalate_pagerduty, teardown_fleet,
  record_run, handle_failure, end, is_end, next, route_linear, route_tournament, route_actuation,
  route_safety_kernel, NodeResult, Run, finished, refused, out_of_fuel, step, run, has_errors,
  is_won, is_passed, is_resolved,
}
use understudy.Orchestrator.Graph.Termination.{run-end, run-none, run-some}

-- What a node may count on: the kernel checks a plan that won a tournament, production is changed
-- after a PASS verdict only, a resolved incident is one that production was seen to recover from,
-- and except for `handle_failure` no node runs after an error.
abbrev pub Entry : Node → State → Type 0
Entry ingest s = Unit
Entry handle_failure s = has_errors s ≡ true
Entry safety_kernel s =
    (has_errors s ≡ false) × (is_won s ≡ true) × (is_escalated s.outcome ≡ false)
Entry actuate s = (has_errors s ≡ false) × (is_passed s ≡ true) × (is_escalated s.outcome ≡ false)
Entry notify_slack s = (has_errors s ≡ false) × (is_resolved s.prod_outcome ≡ true)
Entry end s = Unit
Entry n s = has_errors s ≡ false

-- A node of the chain that `route_linear` serves.
abbrev Plain : Node → Type 0
Plain n = (s : State) → has_errors s ≡ false → Entry n s

linear-Entry : (n : Node) (s : State) → Plain n → Entry (route_linear n s) s
unfolding route_linear
linear-Entry n s plain = elim (Bool-cases (has_errors s)) [
  | inl e ↦ rw e e
  | inr e ↦ rw e (plain s e)
]

tournament-Entry : (s : State) → Entry (route_tournament s) s
unfolding route_tournament
tournament-Entry s = elim (Bool-cases (has_errors s)) [
  | inl e ↦ rw e e
  | inr e ↦ elim (Bool-cases (is_won s)) [
    | inl w ↦ elim (Bool-cases (is_escalated s.outcome)) [
      | inl o ↦ rw (e, w, o) e
      | inr o ↦ rw (e, w, o) (e, w, o)
    ]
    | inr w ↦ rw (e, w) e
  ]
]

kernel-Entry : (s : State) → Entry (route_safety_kernel s) s
unfolding route_safety_kernel
kernel-Entry s = elim (Bool-cases (has_errors s)) [
  | inl e ↦ rw e e
  | inr e ↦ elim (Bool-cases (is_passed s)) [
    | inl w ↦ elim (Bool-cases (is_escalated s.outcome)) [
      | inl o ↦ rw (e, w, o) e
      | inr o ↦ rw (e, w, o) (e, w, o)
    ]
    | inr w ↦ rw (e, w) e
  ]
]

actuation-Entry : (s : State) → Entry (route_actuation s) s
unfolding route_actuation
actuation-Entry s = elim (Bool-cases (has_errors s)) [
  | inl e ↦ rw e e
  | inr e ↦ elim (Bool-cases (is_resolved s.prod_outcome)) [
    | inl w ↦ rw (e, w) (e, w)
    | inr w ↦ rw (e, w) e
  ]
]

next-Entry : (n : Node) (s : State) → Entry (next n s) s
unfolding next
next-Entry ingest s = linear-Entry gather_context s (λ s e. e)
next-Entry gather_context s = linear-Entry plan_candidates s (λ s e. e)
next-Entry plan_candidates s = linear-Entry fork_fleet s (λ s e. e)
next-Entry fork_fleet s = linear-Entry register_mirrors s (λ s e. e)
next-Entry register_mirrors s = linear-Entry apply_candidates s (λ s e. e)
next-Entry apply_candidates s = linear-Entry observe s (λ s e. e)
next-Entry observe s = linear-Entry tournament s (λ s e. e)
next-Entry tournament s = tournament-Entry s
next-Entry safety_kernel s = kernel-Entry s
next-Entry actuate s = actuation-Entry s
next-Entry notify_slack s = linear-Entry teardown_fleet s (λ s e. e)
next-Entry escalate_pagerduty s = linear-Entry teardown_fleet s (λ s e. e)
next-Entry teardown_fleet s = linear-Entry record_run s (λ s e. e)
next-Entry record_run s = linear-Entry end s (λ s e. tt)
next-Entry handle_failure s = tt
next-Entry end s = tt

abbrev pub Entered : List (Node × State) → Type 0
Entered = All (λ v. Entry v.0 v.1)

-- The last node of a run that got through, or the node that it started from.
abbrev pub last_node : Node → List (Node × State) → Node
last_node n [] = n
last_node n (v ∷ vs) = last_node v.0 vs

-- A run ends without errors at `record_run`, or with `handle_failure`.
abbrev pub EndsWell : Node → Run → Type 0
EndsWell n (finished t) = (n ≡ handle_failure) ⊎ ((n ≡ record_run) × (has_errors t ≡ false))
EndsWell n refused = Unit
EndsWell n out_of_fuel = Unit

module _ (node : Node → State → NodeResult) where
  Entered-from : (k : ℕ) (n : Node) (s : State) → Entry n s → Entered (run node k n s).0
  unfolding run
  Entered-from zero n s en = elim (Bool-cases (is_end n)) [ inl e ↦ rw e tt | inr e ↦ rw e tt ]
  Entered-from (suc k) n s en = elim (Bool-cases (is_end n)) [
    | inl e ↦ rw (run-end node (suc k) n s e) tt
    | inr e ↦ elim (Option-cases (step node n s)) [
      | inl q ↦ rw (run-none node k n s e q) (en, tt)
      | inr (t, q) ↦
          rw (run-some node k n s t e q) (en, Entered-from k (next n t) t (next-Entry n t))
    ]
  ]

  -- Whatever the nodes return or raise, and from any state: in a run from `ingest` the kernel node
  -- is entered with a decided tournament and its winner, `actuate` with a PASS verdict and no
  -- escalation, `notify_slack` with a resolved production, and after an error no node is entered
  -- but `handle_failure`, which is entered after an error only.
  pub run-enters_guarded : (k : ℕ) (s : State) → Entered (run node k ingest s).0
  run-enters_guarded k s = Entered-from k ingest s tt

  after-node :
      (n : Node) (t : State) → is_end n ≡ false → is_end (next n t) ≡ true → EndsWell n (finished t)
  unfolding next route_linear route_tournament route_actuation route_safety_kernel
  after-node handle_failure t o e = inl refl
  after-node end t o e = cc
  after-node record_run t o e = elim (Bool-cases (has_errors t)) [
    | inl q ↦ let e' = rw q at e in cc
    | inr q ↦ inr (refl, q)
  ]
  after-node ingest t o e = absurd (ground arith)
  after-node gather_context t o e = absurd (ground arith)
  after-node plan_candidates t o e = absurd (ground arith)
  after-node fork_fleet t o e = absurd (ground arith)
  after-node register_mirrors t o e = absurd (ground arith)
  after-node apply_candidates t o e = absurd (ground arith)
  after-node observe t o e = absurd (ground arith)
  after-node tournament t o e = absurd (ground arith)
  after-node safety_kernel t o e = absurd (ground arith)
  after-node actuate t o e = absurd (ground arith)
  after-node notify_slack t o e = absurd (ground arith)
  after-node escalate_pagerduty t o e = absurd (ground arith)
  after-node teardown_fleet t o e = absurd (ground arith)

  ends-from :
      (k : ℕ) (before n : Node) (s : State)
      → is_end n ≡ false
      → EndsWell (last_node before (run node k n s).0) (run node k n s).1
  unfolding run
  ends-from zero before n s o = rw o tt
  ends-from (suc k) before n s o = elim (Option-cases (step node n s)) [
    | inl q ↦ rw (run-none node k n s o q) tt
    | inr (t, q) ↦ rw (run-some node k n s t o q) elim (Bool-cases (is_end (next n t))) [
      | inl e ↦ rw (run-end node k (next n t) t e) (after-node n t o e)
      | inr e ↦ ends-from k n (next n t) t e
    ]
  ]

  -- Whatever the nodes return or raise, and from any state: a run from `ingest` that finishes ends
  -- at `record_run` with no error in its final state, or it ends at `handle_failure`.
  pub run-ends_recorded :
      (k : ℕ) (s : State)
      → EndsWell (last_node ingest (run node k ingest s).0) (run node k ingest s).1
  run-ends_recorded k s = ends-from k ingest ingest s refl
