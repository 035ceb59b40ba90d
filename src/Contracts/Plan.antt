-- ===== src/Contracts/Plan.antt =====
-- src/understudy/contracts/plan.py. The `inverse` of a plan is a plan again, so the plan is a data
-- type over its own fields; `Header` holds the fields beside the inverse.
use understudy.Common.{String, Bool, true, false, Option, none, some, List, ℤ}
use understudy.Contracts.Enums.{ActionType}

pub data ResourceKind : Type 0 where
  deployment config_map secret : ResourceKind

abbrev pub is_deployment : ResourceKind → Bool
is_deployment deployment = true
is_deployment _ = false

pub record ResourceRef : Type 0 where
  pub namespace : String
  pub kind : ResourceKind
  pub name : String

pub record ActionParams : Type 0 where
  pub workload : String
  pub target_commit : Option String
  pub replica_delta : Option ℤ
  pub flag_name : Option String
  pub config_key : Option String
  pub config_value : Option String

-- `ActionParams(workload=...)`, every other field at its default.
abbrev pub params_for : String → ActionParams
params_for w = record {
  workload = w;
  target_commit = none;
  replica_delta = none;
  flag_name = none;
  config_key = none;
  config_value = none;
}

pub data Origin : Type 0 where
  planner playbook shadow : Origin

pub record Header : Type 0 where
  pub plan_id : String
  pub candidate_index : ℤ
  pub action : ActionType
  pub params : ActionParams
  pub target_resources : List ResourceRef
  pub declared_blast_set : List String
  pub rationale : String
  pub origin : Origin
  pub playbook_id : Option String

pub data RemediationPlan : Type 0 where
  irreversible : Header → RemediationPlan
  reversible : Header → RemediationPlan → RemediationPlan

abbrev pub header : RemediationPlan → Header
header (irreversible h) = h
header (reversible h p) = h

abbrev pub inverse : RemediationPlan → Option RemediationPlan
inverse (irreversible h) = none
inverse (reversible h p) = some p

-- The value of the `kind` literal.
abbrev pub kind_text : ResourceKind → String
kind_text deployment = "Deployment"
kind_text config_map = "ConfigMap"
kind_text secret = "Secret"
