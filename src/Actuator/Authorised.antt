-- ===== src/Actuator/Authorised.antt =====
-- The authorisation K10 in src/understudy/actuator/production.py.
use understudy.Common.{
  ℕ, ◌+◌, ◌≤◌, ◌<◌, Bool, true, Option, none, some, List, ◌∷◌, ◌≡◌, inl, inr, Bool-cases,
  Option-cases, arith, leb, ltb, str_eq, eq_iff,
}
use understudy.Contracts.Enums.{is_pass}
use understudy.Contracts.Plan.{RemediationPlan, header}
use understudy.Contracts.Incident.{IncidentContext}
use understudy.Contracts.Evidence.{ProbeSample}
use understudy.Kernel.Verify.{KernelVerdict}
use understudy.Actuator.{assert_k10_authorisation, apply_to_production, Effect, ProbeResult}

-- K10: a PASS verdict on this plan, younger than `max_age` and at most five seconds ahead.
abbrev pub Authorised : RemediationPlan → KernelVerdict → ℕ → ℕ → Type 0
Authorised plan verdict now max_age =
    (is_pass verdict.verdict ≡ true)
    × (verdict.plan_id ≡ (header plan).plan_id)
    × ((at : ℕ) × (verdict.evaluated_at ≡ some at) × (now < at + max_age) × (at ≤ now + 5000000))

k10-Authorised :
    (plan : RemediationPlan) (verdict : KernelVerdict) (now max_age : ℕ)
    → assert_k10_authorisation plan verdict now max_age ≡ none
    → Authorised plan verdict now max_age
unfolding assert_k10_authorisation
k10-Authorised plan verdict now max_age e = elim (Bool-cases (is_pass verdict.verdict)) [
  | inr p ↦ let e' = rw p at e in cc
  | inl p ↦ elim (Bool-cases (str_eq verdict.plan_id (header plan).plan_id)) [
    | inr q ↦ let e' = rw (p, q) at e in cc
    | inl q ↦ elim (Option-cases verdict.evaluated_at) [
      | inl r ↦ let e' = rw (p, q, r) at e in cc
      | inr (at, r) ↦ elim (Bool-cases (leb (at + max_age) now)) [
        | inl s ↦ let e' = rw (p, q, r, s) at e in cc
        | inr s ↦ elim (Bool-cases (ltb (now + 5000000) at)) [
          | inl t ↦ let e' = rw (p, q, r, s, t) at e in cc
          | inr t ↦ (
            p,
            (eq_iff verdict.plan_id (header plan).plan_id).0 q,
            (at, r, ground arith, ground arith),
          )
        ]
      ]
    ]
  ]
]

-- Whatever the settings, the applier and the probe: if the production actuator has any effect at
-- all, a sample, a record or the plan's application, then the kill switch is open and the verdict
-- is a PASS on this plan, younger than the limit and at most five seconds ahead (K10).
pub apply_to_production-Authorised :
    (max_age : ℕ) (enabled has_probe has_store : Bool) (apply : RemediationPlan → Bool)
    (baseline : Option ProbeSample) (probe_result : ProbeResult) (plan : RemediationPlan)
    (verdict : KernelVerdict) (now : ℕ) (context : Option IncidentContext) (first : Effect)
    (more : List Effect)
    → (apply_to_production max_age enabled has_probe has_store apply baseline probe_result plan
        verdict now context).0
      ≡ first ∷ more
    → (enabled ≡ true) × Authorised plan verdict now max_age
unfolding apply_to_production
apply_to_production-Authorised max_age enabled has_probe has_store apply baseline probe_result plan
      verdict now context first more e =
    elim (Option-cases (assert_k10_authorisation plan verdict now max_age)) [
      | inr (f, q) ↦ let e' = rw (q, apply_to_production) at e in cc
      | inl q ↦ elim (Bool-cases enabled) [
        | inr k ↦ let e' = rw (q, apply_to_production, k) at e in cc
        | inl k ↦ (k, k10-Authorised plan verdict now max_age q)
      ]
    ]
