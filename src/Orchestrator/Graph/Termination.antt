-- ===== src/Orchestrator/Graph/Termination.antt =====
-- Ranks of the nodes of src/understudy/orchestrator/graph.py.
use understudy.Common.{
  ℕ, zero, suc, ◌-◌, ◌≤◌, true, false, none, some, [], ◌∷◌, ◌≡◌, refl, inl, inr, Bool-cases,
  Option-cases, arith,
}
use understudy.Orchestrator.State.{State}
use understudy.Orchestrator.Graph.{
  Node, ingest, gather_context, plan_candidates, fork_fleet, register_mirrors, apply_candidates,
  observe, tournament, safety_kernel, actuate, notify_slack, escalate_pagerduty, teardown_fleet,
  record_run, handle_failure, end, next, route_linear, route_tournament, route_actuation,
  route_safety_kernel, NodeResult, Run, finished, refused, out_of_fuel, step, run, is_end,
}

-- How many nodes are left at most.
abbrev pub rank : Node → ℕ
rank ingest = 14
rank gather_context = 13
rank plan_candidates = 12
rank fork_fleet = 11
rank register_mirrors = 10
rank apply_candidates = 9
rank observe = 8
rank tournament = 7
rank safety_kernel = 6
rank actuate = 5
rank notify_slack = 4
rank escalate_pagerduty = 4
rank teardown_fleet = 3
rank record_run = 2
rank handle_failure = 1
rank end = 0

rank-linear : (n : Node) (k : ℕ) (s : State) → rank n ≤ k → 1 ≤ k → rank (route_linear n s) ≤ k
unfolding route_linear
rank-linear n k s a b = ground arith

rank-tournament : (s : State) → rank (route_tournament s) ≤ 6
unfolding route_tournament
rank-tournament s = ground arith

rank-safety_kernel : (s : State) → rank (route_safety_kernel s) ≤ 5
unfolding route_safety_kernel
rank-safety_kernel s = ground arith

rank-actuation : (s : State) → rank (route_actuation s) ≤ 4
unfolding route_actuation
rank-actuation s = ground arith

-- Every edge goes to a node of smaller rank.
pub rank-next : (n : Node) (s : State) → rank (next n s) ≤ rank n - 1
unfolding next
rank-next ingest s = rank-linear gather_context 13 s (omega arith) (omega arith)
rank-next gather_context s = rank-linear plan_candidates 12 s (omega arith) (omega arith)
rank-next plan_candidates s = rank-linear fork_fleet 11 s (omega arith) (omega arith)
rank-next fork_fleet s = rank-linear register_mirrors 10 s (omega arith) (omega arith)
rank-next register_mirrors s = rank-linear apply_candidates 9 s (omega arith) (omega arith)
rank-next apply_candidates s = rank-linear observe 8 s (omega arith) (omega arith)
rank-next observe s = rank-linear tournament 7 s (omega arith) (omega arith)
rank-next tournament s = rank-tournament s
rank-next safety_kernel s = rank-safety_kernel s
rank-next actuate s = rank-actuation s
rank-next notify_slack s = rank-linear teardown_fleet 3 s (omega arith) (omega arith)
rank-next escalate_pagerduty s = rank-linear teardown_fleet 3 s (omega arith) (omega arith)
rank-next teardown_fleet s = rank-linear record_run 2 s (omega arith) (omega arith)
rank-next record_run s = rank-linear end 1 s (omega arith) (omega arith)
rank-next handle_failure s = omega arith
rank-next end s = omega arith

-- The run stops: it finishes, or a reducer refuses an update.
abbrev pub Stops : Run → Type 0
Stops (finished s) = Unit
Stops refused = Unit
Stops out_of_fuel = ⊥

module _ (node : Node → State → NodeResult) where
  pub run-end : (k : ℕ) (n : Node) (s : State) → is_end n ≡ true → run node k n s ≡ ([], finished s)
  unfolding run
  run-end zero n s e = rw e refl
  run-end (suc k) n s e = rw e refl

  pub run-none :
      (k : ℕ) (n : Node) (s : State)
      → is_end n ≡ false
      → step node n s ≡ none
      → run node (suc k) n s ≡ ((n, s) ∷ [], refused)
  unfolding run
  run-none k n s e q = rw (e, run, q) refl

  pub run-some :
      (k : ℕ) (n : Node) (s t : State)
      → is_end n ≡ false
      → step node n s ≡ some t
      → run node (suc k) n s ≡ ((n, s) ∷ (run node k (next n t) t).0, (run node k (next n t) t).1)
  unfolding run
  run-some k n s t e q = rw (e, run, q) refl

  rank-end : (n : Node) → rank n ≡ 0 → is_end n ≡ true
  rank-end end e = refl
  rank-end n e = cc

  run-Stops_from : (k : ℕ) (n : Node) (s : State) → rank n ≤ k → Stops (run node k n s).1
  run-Stops_from zero n s le = rw (run-end zero n s (rank-end n (omega arith))) tt
  run-Stops_from (suc k) n s le = elim (Bool-cases (is_end n)) [
    | inl e ↦ rw (run-end (suc k) n s e) tt
    | inr e ↦ elim (Option-cases (step node n s)) [
      | inl q ↦ rw (run-none k n s e q) tt
      | inr (t, q) ↦
          rw (run-some k n s t e q) (run-Stops_from k (next n t) t (omega (arith, rank-next n t)))
    ]
  ]

  -- Whatever the nodes return or raise: a run from `ingest` with fuel for fourteen nodes stops, at
  -- END or where a reducer refuses an update; it does not run out of fuel.
  pub run-Stops : (s : State) → Stops (run node 14 ingest s).1
  run-Stops s = run-Stops_from 14 ingest s (omega arith)
