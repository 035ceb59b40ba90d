-- ===== src/Planner/Schema.antt =====
-- src/understudy/planner/validate.py: what a model's candidates are checked for before they become
-- plans. A PlannerSchemaValidationError says which check failed, and at which candidate.
pub mod Accepted
use understudy.Common.{
  ℕ, zero, suc, String, Bool, true, false, not, ◌&&◌, ◌||◌, Option, none, some, List, [], ◌∷◌,
  is_empty, ℤ, pos, str_eq, if◌then◌else◌, strip, eqb_ℤ,
}
use understudy.Contracts.Enums.{
  ActionType, rollback_deploy, restart_workload, scale_workload, disable_flag, revert_config,
  no_action, is_no_action,
}
use understudy.Contracts.Plan.{ActionParams, RemediationPlan}
use understudy.Planner.Inverse.{is_blank}
use understudy.Planner.Prompt.{PromptCandidatePlan, prompt_candidate_to_remediation_plan}

pub data SchemaFault : Type 0 where
  parse_failed empty_plans empty_rationale inverse_of_no_action blast_of_no_action inverse_missing :
      SchemaFault
  workload_missing commit_missing delta_missing flag_missing config_missing : SchemaFault

-- The fault with the index of the candidate.
abbrev pub SchemaError : Type 0
SchemaError = SchemaFault × ℕ

abbrev pub is_absent_or_zero : Option ℤ → Bool
is_absent_or_zero none = true
is_absent_or_zero (some d) = eqb_ℤ d (pos 0)

abbrev pub is_absent {ℓ} : {A : Type ℓ} → Option A → Bool
is_absent none = true
is_absent (some _) = false

-- `_ACTION_PARAM_VALIDATORS`
unfoldable pub validate_params : ActionType → ActionParams → Option SchemaFault
validate_params rollback_deploy p = if is_blank p.target_commit then some commit_missing else none
validate_params scale_workload p =
    if is_absent_or_zero p.replica_delta then some delta_missing else none
validate_params disable_flag p = if is_blank p.flag_name then some flag_missing else none
validate_params revert_config p =
    if is_blank p.config_key || is_absent p.config_value then some config_missing else none
validate_params restart_workload p = none
validate_params no_action p = none

-- `_validate_candidate_schema`
unfoldable pub validate_candidate_schema : PromptCandidatePlan → Bool → Option SchemaFault
unfolding validate_params strip
validate_candidate_schema c require_inverse =
    if str_eq (strip c.rationale) ""
    then some empty_rationale
    else if is_no_action c.action
    then (if not (is_absent c.inverse)
        then some inverse_of_no_action
        else if not (is_empty c.declared_blast_set)
        then some blast_of_no_action
        else validate_params c.action c.params)
    else if require_inverse && is_absent c.inverse
    then some inverse_missing
    else if str_eq c.params.workload ""
    then some workload_missing
    else validate_params c.action c.params

pub data Parsed : Type 0 where
  parsed : List RemediationPlan → Parsed
  schema_error : SchemaError → Parsed

abbrev pub with_plan : RemediationPlan → Parsed → Parsed
with_plan p (parsed ps) = parsed (p ∷ ps)
with_plan p (schema_error e) = schema_error e

-- The loop over the candidates.
unfoldable pub parse_from : ℕ → List PromptCandidatePlan → Bool → Parsed
unfolding validate_candidate_schema prompt_candidate_to_remediation_plan
parse_from i [] require_inverse = parsed []
parse_from i (c ∷ cs) require_inverse =
    let rest = parse_from (suc i) cs require_inverse in
    elim (validate_candidate_schema c require_inverse) [
      | some f ↦ schema_error (f, i)
      | none ↦ with_plan (prompt_candidate_to_remediation_plan c i) rest
    ]

-- `validate_and_parse_plans` of an answer that was read, or not.
unfoldable pub validate_and_parse_plans : Option (List PromptCandidatePlan) → Bool → Parsed
unfolding parse_from
validate_and_parse_plans none require_inverse = schema_error (parse_failed, 0)
validate_and_parse_plans (some []) require_inverse = schema_error (empty_plans, 0)
validate_and_parse_plans (some (c ∷ cs)) require_inverse = parse_from 0 (c ∷ cs) require_inverse
