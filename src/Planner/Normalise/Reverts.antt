-- ===== src/Planner/Normalise/Reverts.antt =====
-- What src/understudy/planner/validate.py does with candidates that revert a configuration.
use understudy.Common.{
  String, true, false, Option, none, List, ◌≡◌, inl, inr, Bool-cases, Option-cases, arith,
}
use understudy.Contracts.Enums.{ActionType, revert_config, is_revert_config, is_no_action}
use understudy.Contracts.Plan.{RemediationPlan, header, Header}
use understudy.Contracts.Incident.{IncidentContext}
use understudy.Planner.Inverse.{
  Built, ok, build_inverse_revert_config, resolve_prior_config_value, inverse_builder, is_blank,
}
use understudy.Planner.Inverse.Laws.{synthesized}
use understudy.Planner.Normalise.{
  normalise_plan, valid_workloads_of, hints_of, with_params, with_commit, with_workload, plan_with,
}
use understudy.Planner.Normalise.Grounded.{steps, synthesized-some, header-plan_with}

is_revert : (a : ActionType) → is_revert_config a ≡ true → a ≡ revert_config
is_revert a e = ground arith

-- Without a configuration to look up, the prior value is unknown.
unrevertible :
    (p : Header) (w : String) (context : IncidentContext) (valid : List String) (b : Built)
    → build_inverse_revert_config p w (hints_of context valid) ≡ ok b
    → ⊥
unfolding build_inverse_revert_config resolve_prior_config_value
unrevertible p w context valid b e = elim (Bool-cases (is_blank p.params.config_key)) [
  | inl k ↦ let e' = rw k at e in cc
  | inr k ↦ elim (Option-cases p.params.config_value) [
    | inl v ↦ let e' = rw (k, v) at e in cc
    | inr (x, v) ↦ let e' = rw (k, v) at e in cc
  ]
]

reverted :
    (p : Header) (w : String) (context : IncidentContext) (valid : List String) (b : Built)
    → p.action ≡ revert_config
    → inverse_builder p.action p w (hints_of context valid) ≡ ok b
    → ⊥
unfolding inverse_builder
reverted p w context valid b a e = unrevertible p w context valid b (rw a at e)

-- Every candidate that reverts a configuration is dropped, whatever the environment.
pub normalise_plan-drops_reverts :
    (plan : RemediationPlan) (context : IncidentContext) (cluster : Option (List String))
    → is_revert_config (header plan).action ≡ true
    → normalise_plan plan context cluster ≡ none
normalise_plan-drops_reverts plan context cluster r =
    elim (Option-cases (normalise_plan plan context cluster)) [
      | inl e ↦ e
      | inr (q, e) ↦
          let p = header plan in
          let valid = valid_workloads_of context cluster in
          let changes : is_no_action p.action ≡ false = ground arith in
          let (w, c, given, inv, s1, s2, s3, s4, made, same) =
            steps plan context cluster q changes e in
          let updated = with_params (with_commit c (with_workload w p.params)) p in
          let tried = plan_with updated given in
          let (i, some_i, m) =
            synthesized-some tried (hints_of context valid) inv
              (rw (header-plan_with updated given) changes) made in
          let (b, a, built, of) =
            synthesized tried i (hints_of context valid) (rw some_i at made) in
          let built' = rw (header-plan_with updated given) at built in
          absurd
            (reverted updated updated.params.workload context valid b (is_revert p.action r) built')
    ]
