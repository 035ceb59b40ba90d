-- ===== src/Planner/Prompt.antt =====
-- src/understudy/planner/prompt.py: the candidates of a model's answer and the plans that they
-- become. Reading JSON into a PlannerPromptResponse is a parameter where it is needed.
use understudy.Common.{
  ℕ, String, not, ◌&&◌, Option, none, some, List, [], ◌∷◌, pos, str_eq, if◌then◌else◌, decimal,
  ◌<>◌,
}
use understudy.Contracts.Enums.{ActionType, is_no_action, is_revert_config}
use understudy.Contracts.Plan.{
  ResourceRef, deployment, config_map, ActionParams, Header, planner, RemediationPlan, irreversible,
  reversible,
}

pub record PromptInversePlan : Type 0 where
  pub action : ActionType
  pub params : ActionParams
  pub declared_blast_set : List String
  pub rationale : String

pub record PromptCandidatePlan : Type 0 where
  pub action : ActionType
  pub params : ActionParams
  pub declared_blast_set : List String
  pub inverse : Option PromptInversePlan
  pub rationale : String

-- The resource that an action on a workload changes.
abbrev pub resource_for : ActionType → String → ResourceRef
resource_for a w = record {
  namespace = "ust-prod";
  kind = if is_revert_config a then config_map else deployment;
  name = w;
}

abbrev pub cand_id : ℕ → String
cand_id i = "plan_cand_" <> decimal i

-- The inverse that the candidate comes with.
abbrev pub prompt_inverse : ℕ → PromptInversePlan → RemediationPlan
prompt_inverse i v = irreversible (record {
  plan_id = cand_id i <> "_inv";
  candidate_index = pos i;
  action = v.action;
  params = v.params;
  target_resources =
      if not (str_eq v.params.workload "")
      then resource_for v.action v.params.workload ∷ []
      else [];
  declared_blast_set = v.declared_blast_set;
  rationale = v.rationale;
  origin = planner;
  playbook_id = none;
})

abbrev pub prompt_header : ℕ → PromptCandidatePlan → Header
prompt_header i c = record {
  plan_id = cand_id i;
  candidate_index = pos i;
  action = c.action;
  params = c.params;
  target_resources =
      if not (str_eq c.params.workload "") && not (is_no_action c.action)
      then resource_for c.action c.params.workload ∷ []
      else [];
  declared_blast_set = c.declared_blast_set;
  rationale = c.rationale;
  origin = planner;
  playbook_id = none;
}

-- With the id from the index, the origin, the playbook and the namespace at their defaults.
unfoldable pub prompt_candidate_to_remediation_plan : PromptCandidatePlan → ℕ → RemediationPlan
unfolding decimal
prompt_candidate_to_remediation_plan c i = elim c.inverse [
  | none ↦ irreversible (prompt_header i c)
  | some v ↦
      if is_no_action c.action
      then irreversible (prompt_header i c)
      else reversible (prompt_header i c) (prompt_inverse i v)
]
