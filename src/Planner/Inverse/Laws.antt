-- ===== src/Planner/Inverse/Laws.antt =====
-- What an inverse keeps of its plan.
use mathlib.Core.Path.{subst}
use understudy.Common.{
  String, true, false, Option, none, some, ℤ, pos, neg, neg-neg, ◌+ℤ◌, arith, eqb_ℤ, str_eq, ◌≡◌,
  refl, sym, ◌∙◌, ap, ◌↔◌, inl, inr, Bool-cases, Option-cases, ◌⊎◌,
}
use understudy.Contracts.Enums.{
  ActionType, rollback_deploy, restart_workload, scale_workload, disable_flag, revert_config,
  no_action, is_no_action,
}
use understudy.Contracts.Plan.{RemediationPlan, header, inverse, Header}
use understudy.Planner.Inverse.{
  Result, ok, planner_error, Fault, Hints, Built, build_inverse_scale_workload,
  build_inverse_restart_workload, build_inverse_disable_flag, build_inverse_revert_config,
  build_inverse_rollback_deploy, inverse_builder, inverse_of, is_listed, synthesize_inverse,
  is_blank, or_text, resolve_prior_config_value, resolve_pre_incident_commit,
}

-- What a builder makes is of the same action and on the same workload.
abbrev pub Suits : ActionType → String → Result Built → Type 0
Suits a w (ok b) = (b.action ≡ a) × (b.params.workload ≡ w)
Suits a w (planner_error e) = Unit

builder-Suits :
    (a : ActionType) (p : Header) (w : String) (h : Hints) → Suits a w (inverse_builder a p w h)
unfolding inverse_builder build_inverse_scale_workload build_inverse_restart_workload
    build_inverse_disable_flag build_inverse_revert_config build_inverse_rollback_deploy
builder-Suits scale_workload p w h = elim (Option-cases p.params.replica_delta) [
  | inl e ↦ rw e tt
  | inr (delta, e) ↦ elim (Bool-cases (eqb_ℤ delta (pos 0))) [
    | inl q ↦ rw (e, q) tt
    | inr q ↦ rw (e, q) (refl, refl)
  ]
]
builder-Suits restart_workload p w h = (refl, refl)
builder-Suits disable_flag p w h = elim (Bool-cases (is_blank p.params.flag_name)) [
  | inl e ↦ rw e tt
  | inr e ↦ rw e (refl, refl)
]
builder-Suits revert_config p w h = elim (Bool-cases (is_blank p.params.config_key)) [
  | inl e ↦ rw e tt
  | inr e ↦ rw e elim (Option-cases p.params.config_value) [
    | inl q ↦ rw q tt
    | inr (v, q) ↦
        rw q elim (Option-cases (resolve_prior_config_value w (or_text p.params.config_key) h)) [
          | inl r ↦ rw r tt
          | inr (prior, r) ↦ rw r (refl, refl)
        ]
  ]
]
builder-Suits rollback_deploy p w h = elim (Bool-cases (is_blank p.params.target_commit)) [
  | inl e ↦ rw e tt
  | inr e ↦
      rw e elim (Option-cases (resolve_pre_incident_commit w (or_text p.params.target_commit) h)) [
        | inl r ↦ rw r tt
        | inr (c, r) ↦ rw r (refl, refl)
      ]
]
builder-Suits no_action p w h = tt

Result-cases :
    (r : Result Built) → ((b : Built) × (r ≡ ok b)) ⊎ ((e : Fault) × (r ≡ planner_error e))
Result-cases (ok b) = inl (b, refl)
Result-cases (planner_error e) = inr (e, refl)

-- An inverse that is given: the plan is no `no_action`, and its own builder made it.
pub synthesized :
    (plan inv : RemediationPlan) (h : Hints)
    → synthesize_inverse plan h ≡ ok (some inv)
    → (b : Built) × (is_no_action (header plan).action ≡ false)
      × (inverse_builder (header plan).action (header plan) (header plan).params.workload h ≡ ok b)
      × (inverse_of (header plan) b ≡ inv)
unfolding synthesize_inverse
synthesized plan inv h e = elim (Bool-cases (is_no_action (header plan).action)) [
  | inl a ↦ let e' = rw a at e in cc
  | inr a ↦ elim (Bool-cases (str_eq (header plan).params.workload "")) [
    | inl w ↦ let e' = rw (a, w) at e in cc
    | inr w ↦ elim (Bool-cases (is_listed h.cluster_workloads (header plan).params.workload)) [
      | inr l ↦ let e' = rw (a, w, l) at e in cc
      | inl l ↦
          elim (Result-cases
            (inverse_builder (header plan).action (header plan) (header plan).params.workload h)) [
              | inl (b, q) ↦ let e' = rw (a, w, l, q) at e in (b, a, q, cc)
              | inr (f, q) ↦ let e' = rw (a, w, l, q) at e in cc
            ]
    ]
  ]
]

-- An inverse has the action, the workload, the target resources, the declared blast set, the
-- candidate's index and the origin of its plan, and no inverse of its own (K9).
pub synthesize_inverse-mirrors :
    (plan inv : RemediationPlan) (h : Hints)
    → synthesize_inverse plan h ≡ ok (some inv)
    → ((header inv).action ≡ (header plan).action)
      × ((header inv).params.workload ≡ (header plan).params.workload)
      × ((header inv).target_resources ≡ (header plan).target_resources)
      × ((header inv).declared_blast_set ≡ (header plan).declared_blast_set)
      × ((header inv).candidate_index ≡ (header plan).candidate_index)
      × ((header inv).origin ≡ (header plan).origin)
      × (inverse inv ≡ none)
synthesize_inverse-mirrors plan inv h e =
    let (b, a, q, same) = synthesized plan inv h e in
    let p = header plan in
    let suits =
      subst (Suits p.action p.params.workload) q (builder-Suits p.action p p.params.workload h) in
    rw (← same) (suits.0, suits.1, refl, refl, refl, refl, refl)

not_none :
    (plan : RemediationPlan) (h : Hints)
    → is_no_action (header plan).action ≡ false
    → synthesize_inverse plan h ≡ ok none
    → ⊥
unfolding synthesize_inverse
not_none plan h a e = elim (Bool-cases (str_eq (header plan).params.workload "")) [
  | inl w ↦ let e' = rw (a, w) at e in cc
  | inr w ↦ elim (Bool-cases (is_listed h.cluster_workloads (header plan).params.workload)) [
    | inr l ↦ let e' = rw (a, w, l) at e in cc
    | inl l ↦
        elim (Result-cases
          (inverse_builder (header plan).action (header plan) (header plan).params.workload h)) [
            | inl (b, q) ↦ let e' = rw (a, w, l, q) at e in cc
            | inr (f, q) ↦ let e' = rw (a, w, l, q) at e in cc
          ]
  ]
]

-- The result is "no inverse" for `no_action`, and for no other plan.
pub synthesize_inverse-none_iff :
    (plan : RemediationPlan) (h : Hints)
    → (synthesize_inverse plan h ≡ ok none) ↔ (is_no_action (header plan).action ≡ true)
unfolding synthesize_inverse
synthesize_inverse-none_iff plan h = (there, λ a. rw a refl)
  where
    there : synthesize_inverse plan h ≡ ok none → is_no_action (header plan).action ≡ true
    there e = elim (Bool-cases (is_no_action (header plan).action)) [
      | inl a ↦ a
      | inr a ↦ absurd (not_none plan h a e)
    ]

scaled :
    (p : Header) (w : String) (h : Hints) (b : Built)
    → build_inverse_scale_workload p w h ≡ ok b
    → (delta : ℤ) × (p.params.replica_delta ≡ some delta)
      × (eqb_ℤ delta (pos 0) ≡ false)
      × (b.params.replica_delta ≡ some (neg delta))
unfolding build_inverse_scale_workload
scaled p w h b e = elim (Option-cases p.params.replica_delta) [
  | inl q ↦ let e' = rw q at e in cc
  | inr (delta, q) ↦ elim (Bool-cases (eqb_ℤ delta (pos 0))) [
    | inl z ↦ let e' = rw (q, z) at e in cc
    | inr z ↦ let e' = rw (q, z) at e in (delta, q, z, sym (ap (λ r. replicas r) e'))
  ]
]
  where
    replicas : Result Built → Option ℤ
    replicas (ok c) = c.params.replica_delta
    replicas (planner_error _) = none

neg-cancels : (a : ℤ) → a +ℤ neg a ≡ pos 0
unfolding neg ◌+ℤ◌
neg-cancels a = ground arith

scaling :
    (plan inv : RemediationPlan) (h : Hints)
    → (header plan).action ≡ scale_workload
    → synthesize_inverse plan h ≡ ok (some inv)
    → (delta : ℤ) × ((header plan).params.replica_delta ≡ some delta)
      × ((header inv).params.replica_delta ≡ some (neg delta))
unfolding inverse_builder
scaling plan inv h act e =
    let (b, a, q, same) = synthesized plan inv h e in
    let (delta, d, z, r) = scaled (header plan) (header plan).params.workload h b (rw act at q) in
    (delta, d, rw (← same) r)

-- The inverse of a scaling changes the replicas by the opposite of what the plan does, so that both
-- together leave them as they were, and the inverse of the inverse by as much as the plan does.
pub scale-round_trip :
    (plan inv back : RemediationPlan) (h g : Hints)
    → (header plan).action ≡ scale_workload
    → synthesize_inverse plan h ≡ ok (some inv)
    → synthesize_inverse inv g ≡ ok (some back)
    → (delta : ℤ) × ((header plan).params.replica_delta ≡ some delta)
      × ((header inv).params.replica_delta ≡ some (neg delta))
      × (delta +ℤ neg delta ≡ pos 0)
      × ((header back).params.replica_delta ≡ some delta)
scale-round_trip plan inv back h g act e f =
    let (delta, d, r) = scaling plan inv h act e in
    let (delta', d', r') =
      scaling inv back g ((synthesize_inverse-mirrors plan inv h e).0 ∙ act) f in
    let same : delta' ≡ neg delta = cc in
    (delta, d, r, neg-cancels delta, r' ∙ rw (same, neg-neg delta) refl)
