-- ===== src/Planner/Schema/Accepted.antt =====
-- Which candidates src/understudy/planner/validate.py accepts.
use understudy.Common.{
  ℕ, suc, String, Bool, true, false, not, ◌&&◌, Option, none, some, List, [], ◌∷◌, is_empty, ℤ, pos,
  eqb_ℤ, str_eq, strip, if◌then◌else◌, ◌≡◌, ◌↔◌, ◌⊎◌, ◌∙◌, ap, sym, refl, inl, inr, Bool-cases,
  Option-cases, arith, All,
}
use understudy.Contracts.Enums.{
  ActionType, rollback_deploy, restart_workload, scale_workload, disable_flag, revert_config,
  no_action, is_no_action,
}
use understudy.Contracts.Plan.{ActionParams, RemediationPlan}
use understudy.Planner.Inverse.{is_blank}
use understudy.Planner.Prompt.{
  PromptCandidatePlan, PromptInversePlan, prompt_candidate_to_remediation_plan,
}
use understudy.Planner.Schema.{
  inverse_of_no_action, blast_of_no_action, inverse_missing, workload_missing, SchemaError,
  is_absent, validate_params, validate_candidate_schema, Parsed, parsed, schema_error, parse_from,
  validate_and_parse_plans,
}

-- A text that is given and is not empty.
abbrev Filled : Option String → Type 0
Filled o = (s : String) × (o ≡ some s) × (str_eq s "" ≡ false)

-- The parameters that an action needs.
abbrev pub HasParams : ActionType → ActionParams → Type 0
HasParams rollback_deploy p = Filled p.target_commit
HasParams scale_workload p = (d : ℤ) × (p.replica_delta ≡ some d) × (eqb_ℤ d (pos 0) ≡ false)
HasParams disable_flag p = Filled p.flag_name
HasParams revert_config p = Filled p.config_key × ((v : String) × (p.config_value ≡ some v))
HasParams restart_workload p = Unit
HasParams no_action p = Unit

-- A candidate to do nothing, and one to do something.
abbrev pub IdleSchema : PromptCandidatePlan → Type 0
IdleSchema c = (c.inverse ≡ none) × (is_empty c.declared_blast_set ≡ true)

abbrev pub ActiveSchema : Bool → PromptCandidatePlan → Type 0
ActiveSchema require_inverse c =
    (require_inverse ≡ true → (v : PromptInversePlan) × (c.inverse ≡ some v))
    × (str_eq c.params.workload "" ≡ false)
    × HasParams c.action c.params

abbrev pub IsWellFormed : Bool → PromptCandidatePlan → Type 0
IsWellFormed require_inverse c =
    (str_eq (strip c.rationale) "" ≡ false)
    × (if is_no_action c.action then IdleSchema c else ActiveSchema require_inverse c)

blank-Filled : (o : Option String) → (is_blank o ≡ false) ↔ Filled o
blank-Filled none = ((λ e. absurd cc), λ (s, e, n). absurd cc)
blank-Filled (some s) = ((λ e. (s, refl, e)), λ (t, e, n). let same : s ≡ t = cc in rw same n)

validate_params-HasParams :
    (a : ActionType) (p : ActionParams) → (validate_params a p ≡ none) ↔ HasParams a p
unfolding validate_params
validate_params-HasParams rollback_deploy p = elim (Bool-cases (is_blank p.target_commit)) [
  | inl e ↦ rw e ((λ h. absurd cc), λ h. let b = (blank-Filled p.target_commit).1 h in absurd cc)
  | inr e ↦ rw e ((λ h. (blank-Filled p.target_commit).0 e), λ h. refl)
]
validate_params-HasParams disable_flag p = elim (Bool-cases (is_blank p.flag_name)) [
  | inl e ↦ rw e ((λ h. absurd cc), λ h. let b = (blank-Filled p.flag_name).1 h in absurd cc)
  | inr e ↦ rw e ((λ h. (blank-Filled p.flag_name).0 e), λ h. refl)
]
validate_params-HasParams scale_workload p = elim (Option-cases p.replica_delta) [
  | inl e ↦ rw e ((λ h. absurd cc), λ (d, q, n). absurd cc)
  | inr (d, e) ↦ rw e elim (Bool-cases (eqb_ℤ d (pos 0))) [
    | inl z ↦ rw z (
      (λ h. absurd cc),
      λ (x, q, n). let same : d ≡ x = cc in let n' = rw (← same) at n in absurd cc,
    )
    | inr z ↦ rw z ((λ h. (d, refl, z)), λ h. refl)
  ]
]
validate_params-HasParams revert_config p = elim (Bool-cases (is_blank p.config_key)) [
  | inl e ↦ rw e ((λ h. absurd cc), λ (f, v). let b = (blank-Filled p.config_key).1 f in absurd cc)
  | inr e ↦ rw e elim (Option-cases p.config_value) [
    | inl q ↦ rw q ((λ h. absurd cc), λ (f, (v, n)). absurd cc)
    | inr (v, q) ↦ rw q ((λ h. ((blank-Filled p.config_key).0 e, (v, refl))), λ h. refl)
  ]
]
validate_params-HasParams restart_workload p = ((λ h. tt), λ h. refl)
validate_params-HasParams no_action p = ((λ h. tt), λ h. refl)

idle-params :
    (a : ActionType) (p : ActionParams) → is_no_action a ≡ true → validate_params a p ≡ none
unfolding validate_params
idle-params a p e = let same : a ≡ no_action = ground arith in rw same refl

is_absent-false :
    (o : Option PromptInversePlan) → is_absent o ≡ false → (v : PromptInversePlan) × (o ≡ some v)
is_absent-false none e = absurd cc
is_absent-false (some v) e = (v, refl)

pub Parsed-cases :
    (p : Parsed)
    → ((ps : List RemediationPlan) × (p ≡ parsed ps)) ⊎ ((e : SchemaError) × (p ≡ schema_error e))
Parsed-cases (parsed ps) = inl (ps, refl)
Parsed-cases (schema_error e) = inr (e, refl)

module _ (require_inverse : Bool) where
  validate_candidate_schema-IsWellFormed :
      (c : PromptCandidatePlan)
      → (validate_candidate_schema c require_inverse ≡ none) ↔ IsWellFormed require_inverse c
  unfolding validate_candidate_schema
  validate_candidate_schema-IsWellFormed c = elim (Bool-cases (str_eq (strip c.rationale) "")) [
    | inl e ↦ rw e ((λ h. absurd cc), λ h. absurd cc)
    | inr e ↦ elim (Bool-cases (is_no_action c.action)) [
      | inl a ↦ rw (e, a) (idle c a)
      | inr a ↦ rw (e, a) (active c)
    ]
  ]
    where
      idle :
          (c : PromptCandidatePlan)
          → is_no_action c.action ≡ true
          → ((if not (is_absent c.inverse)
                then some inverse_of_no_action
                else if not (is_empty c.declared_blast_set)
                then some blast_of_no_action
                else validate_params c.action c.params)
              ≡ none)
            ↔ ((false ≡ false) × IdleSchema c)
      idle c a = elim (Option-cases c.inverse) [
        | inr (v, q) ↦ rw q ((λ h. absurd cc), λ h. absurd cc)
        | inl q ↦ elim (Bool-cases (is_empty c.declared_blast_set)) [
          | inr b ↦ rw (q, b) ((λ h. absurd cc), λ h. absurd cc)
          | inl b ↦ rw (q, b) ((λ h. (refl, (refl, refl))), λ h. idle-params c.action c.params a)
        ]
      ]

      active :
          (c : PromptCandidatePlan)
          → ((if require_inverse && is_absent c.inverse
                then some inverse_missing
                else if str_eq c.params.workload ""
                then some workload_missing
                else validate_params c.action c.params)
              ≡ none)
            ↔ ((false ≡ false) × ActiveSchema require_inverse c)
      active c =
          let params = validate_params-HasParams c.action c.params in
          elim (Bool-cases (require_inverse && is_absent c.inverse)) [
            | inl r ↦ rw r (
              (λ h. absurd cc),
              λ h. let (v, q) = h.1.0 (ground arith) in let k = rw q at r in absurd (ground arith),
            )
            | inr r ↦ elim (Bool-cases (str_eq c.params.workload "")) [
              | inl w ↦ rw (r, w) ((λ h. absurd cc), λ h. absurd cc)
              | inr w ↦
                  rw (r, w)
                    (
                      (λ h. (
                        refl,
                        ((λ required. is_absent-false c.inverse (ground arith)), refl, params.0 h),
                      )),
                      λ h. params.1 h.1.2,
                    )
            ]
          ]

  -- The plans of the candidates, numbered from `i` on.
  abbrev pub converted : ℕ → List PromptCandidatePlan → List RemediationPlan
  converted i [] = []
  converted i (c ∷ cs) = prompt_candidate_to_remediation_plan c i ∷ converted (suc i) cs

  parse_from-converted :
      (i : ℕ) (cs : List PromptCandidatePlan)
      → All (IsWellFormed require_inverse) cs
      → parse_from i cs require_inverse ≡ parsed (converted i cs)
  unfolding parse_from
  parse_from-converted i [] h = refl
  parse_from-converted i (c ∷ cs) (h, rest) =
      let e = (validate_candidate_schema-IsWellFormed c).1 h in
      let later = parse_from-converted (suc i) cs rest in rw (parse_from, e, later) refl

  parse_from-IsWellFormed :
      (i : ℕ) (cs : List PromptCandidatePlan) (ps : List RemediationPlan)
      → parse_from i cs require_inverse ≡ parsed ps
      → (ps ≡ converted i cs) × All (IsWellFormed require_inverse) cs
  unfolding parse_from
  parse_from-IsWellFormed i [] ps e = (cc, tt)
  parse_from-IsWellFormed i (c ∷ cs) ps e =
      elim (Option-cases (validate_candidate_schema c require_inverse)) [
        | inr (f, q) ↦ let e' = rw (parse_from, q) at e in absurd cc
        | inl q ↦ elim (Parsed-cases (parse_from (suc i) cs require_inverse)) [
          | inr (f, k) ↦ let e' = rw (parse_from, q, k) at e in absurd cc
          | inl (rest, k) ↦
              let e' = rw (parse_from, q, k) at e in
              let (same, formed) = parse_from-IsWellFormed (suc i) cs rest k in
              (cc, ((validate_candidate_schema-IsWellFormed c).0 q, formed))
        ]
      ]

  -- An answer that was read gives plans exactly if it has a candidate and every candidate is well
  -- formed: it has a rationale; to do nothing it has neither an inverse nor a blast set; and to do
  -- something it has a workload, the parameters of its action and, if that is asked for, an inverse.
  -- The plans are then those of the candidates in their order.
  pub validate_and_parse_plans_iff :
      (cs : List PromptCandidatePlan) (ps : List RemediationPlan)
      → (validate_and_parse_plans (some cs) require_inverse ≡ parsed ps)
        ↔ ((is_empty cs ≡ false) × (ps ≡ converted 0 cs) × All (IsWellFormed require_inverse) cs)
  unfolding validate_and_parse_plans
  validate_and_parse_plans_iff [] ps = ((λ e. absurd cc), λ (h, k, l). absurd cc)
  validate_and_parse_plans_iff (c ∷ cs) ps = (
    (λ e. let (same, formed) = parse_from-IsWellFormed 0 (c ∷ cs) ps e in (refl, same, formed)),
    λ (h, same, formed). parse_from-converted 0 (c ∷ cs) formed ∙ ap parsed (sym same),
  )
