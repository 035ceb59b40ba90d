-- ===== src/Orchestrator/Nodes/Proved.antt =====
-- What the control loop's nodes let through to production.
use understudy.Common.{
  ℕ, String, Bool, true, Option, none, some, List, [], ◌∷◌, find_first, eq_iff, if◌then◌else◌, ◌≡◌,
  refl, sym, ap, ◌∙◌, inl, inr, Bool-cases, Option-cases, Memᴰ, head, tail,
}
use understudy.Contracts.Enums.{is_pass, escalated}
use understudy.Contracts.Plan.{RemediationPlan, header}
use understudy.Contracts.Incident.{IncidentContext}
use understudy.Contracts.Evidence.{CandidateEvidence, ProbeSample}
use understudy.Kernel.Facts.{Fact}
use understudy.Kernel.Term.{Solver, IsSound}
use understudy.Kernel.Context.{Host, Outcome, ok, missing, type_error, value_error, not_implemented}
use understudy.Kernel.Verify.{KernelVerdict, Reason, proof_invariants, verify}
use understudy.Kernel.Verify.Catalogue.{IsSafe, verify-pass-IsSafe}
use understudy.Actuator.{Effect, Actuation, ProbeResult, apply_to_production}
use understudy.Actuator.Authorised.{Authorised, apply_to_production-Authorised}
use understudy.Orchestrator.State.{State, Update}
use understudy.Orchestrator.Graph.{returns}
use understudy.Orchestrator.Nodes.{
  has_id, winner_id, winner_plan, facts_for, verified, safety_kernel, Denial, actuate,
  verdict_update, of_incident,
}

-- The plan is one of the state's, and the tournament declared it the winner.
abbrev pub IsWinner : State → RemediationPlan → Type 0
IsWinner s p = Memᴰ p s.plans × (winner_id s ≡ some (header p).plan_id)

has_id-eq :
    (i : Option String) (p : RemediationPlan) → has_id i p ≡ true → i ≡ some (header p).plan_id
has_id-eq none p e = absurd cc
has_id-eq (some i) p e = ap some (sym ((eq_iff (header p).plan_id i).0 e))

find_first-has_id :
    (i : Option String) (ps : List RemediationPlan) (p : RemediationPlan)
    → find_first (has_id i) ps ≡ some p
    → Memᴰ p ps × (i ≡ some (header p).plan_id)
find_first-has_id i [] p e = absurd cc
find_first-has_id i (q ∷ qs) p e = elim (Bool-cases (has_id i q)) [
  | inl h ↦
      let e' = rw h at e in
      let same : q ≡ p = cc in (head (sym same), rw (← same) (has_id-eq i q h))
  | inr h ↦ let (m, k) = find_first-has_id i qs p (rw h at e) in (tail m, k)
]

winner_plan-IsWinner : (s : State) (p : RemediationPlan) → winner_plan s ≡ some p → IsWinner s p
winner_plan-IsWinner s p e = find_first-has_id (winner_id s) s.plans p e

module _ (max_age : ℕ) (enabled has_probe has_store : Bool) (apply : RemediationPlan → Bool)
    (baseline : Option ProbeSample) (probe_result : ProbeResult) (now : ℕ)
    (denial_text : Denial → String) where
  -- The actuator that the node is given.
  abbrev pub production :
      RemediationPlan → KernelVerdict → Option IncidentContext → List Effect × Actuation
  production p v context =
      apply_to_production max_age enabled has_probe has_store apply baseline probe_result p v now
        context

  -- If the actuate node has any effect on production, through the production actuator, then the kill
  -- switch is open, and the state holds a PASS verdict on the plan that the tournament declared the
  -- winner, younger than the limit and at most five seconds ahead.
  pub actuate-Authorised :
      (s : State) (first : Effect) (more : List Effect)
      → (actuate production denial_text s).0 ≡ first ∷ more
      → (enabled ≡ true)
        × (p : RemediationPlan) × (v : KernelVerdict) × IsWinner s p
        × (s.verdict ≡ some v)
        × Authorised p v now max_age
  unfolding actuate
  actuate-Authorised s first more e = elim (Option-cases s.verdict) [
    | inl q ↦ let e' = rw (q, actuate) at e in absurd cc
    | inr (v, q) ↦ elim (Bool-cases (is_pass v.verdict)) [
      | inr b ↦ let e' = rw (q, actuate, b) at e in absurd cc
      | inl b ↦ elim (Option-cases (winner_plan s)) [
        | inl w ↦ let e' = rw (q, actuate, b, w) at e in absurd cc
        | inr (p, w) ↦
            let e' = rw (q, actuate, b, w) at e in
            let (open_, allowed) =
              apply_to_production-Authorised max_age enabled has_probe has_store apply baseline
                probe_result p v now s.context first more e' in
            (open_, p, v, winner_plan-IsWinner s p w, q, allowed)
      ]
    ]
  ]

module _ (extract : RemediationPlan → Option CandidateEvidence → Option IncidentContext → List Fact)
    (now : ℕ) (decide : RemediationPlan → List Fact → Outcome KernelVerdict)
    (reason_text : Reason → String) (error_text : String) (s : State) where
  verified-returns :
      (o : Outcome KernelVerdict) (u : Update)
      → verified extract now decide reason_text error_text s o ≡ returns u
      → (v : KernelVerdict) × (o ≡ ok v)
        × (u.verdict ≡ some (of_incident s.incident_id v))
        × (u.outcome ≡ (if is_pass v.verdict then none else some escalated))
  verified-returns (ok v) u e =
      let updated =
        verdict_update (some (of_incident s.incident_id v))
          (if is_pass v.verdict then none else some escalated)
          (if is_pass v.verdict then none else some (reason_text v.human_reason)) in
      let same : updated ≡ u = cc in
      (v, refl, sym (ap (λ x. x.verdict) same), sym (ap (λ x. x.outcome) same))
  verified-returns (missing n) u e = absurd cc
  verified-returns type_error u e = absurd cc
  verified-returns value_error u e = absurd cc
  verified-returns not_implemented u e = absurd cc

module _ (extract : RemediationPlan → Option CandidateEvidence → Option IncidentContext → List Fact)
    (reason_text : Reason → String) (error_text : String) (check : Solver) (sound : IsSound check)
    (elapsed : ℕ → ℕ) (timeout_ms : ℕ) (incident : String) (now : ℕ) (h : Host) where
  -- The kernel that the node is given.
  abbrev pub kernel : RemediationPlan → List Fact → Outcome KernelVerdict
  kernel p fs = verify check elapsed timeout_ms incident now h proof_invariants p fs

  -- With the kernel of the eight PROOF invariants and a sound solver: if the safety-kernel node
  -- returns an update with a PASS verdict, then there is a plan of the state that the tournament
  -- declared the winner, and all eight safety properties hold of it and of the facts that the node
  -- extracted; and the update does not escalate.
  pub safety_kernel-IsSafe :
      (s : State) (u : Update) (v : KernelVerdict)
      → safety_kernel extract now kernel reason_text error_text s ≡ returns u
      → u.verdict ≡ some v
      → is_pass v.verdict ≡ true
      → (u.outcome ≡ none)
        × (p : RemediationPlan) × IsWinner s p
        × IsSafe h p (facts_for extract now kernel reason_text error_text s p)
  unfolding safety_kernel
  safety_kernel-IsSafe s u v e has passed = elim (Option-cases (winner_plan s)) [
    | inl w ↦
        let e' = rw (w, safety_kernel) at e in
        let same : verdict_update none (some escalated)
              (some "No winning plan available for safety kernel verification")
            ≡ u =
          cc in
        let nothing = ap (λ x. x.verdict) same in absurd cc
    | inr (p, w) ↦
        let facts = facts_for extract now kernel reason_text error_text s p in
        let e' = rw (w, safety_kernel) at e in
        let (x, q, given, outcome) =
          verified-returns extract now kernel reason_text error_text s (kernel p facts) u e' in
        let same : of_incident s.incident_id x ≡ v = cc in
        let verdicts = ap (λ y. is_pass y.verdict) same in
        let passes : is_pass x.verdict ≡ true = verdicts ∙ passed in
        (
          rw passes at outcome,
          p,
          winner_plan-IsWinner s p w,
          verify-pass-IsSafe check sound elapsed timeout_ms incident now h p facts x q passes,
        )
  ]
