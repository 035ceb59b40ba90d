-- ===== src/Planner/Inverse.antt =====
-- src/understudy/planner/inverse.py: the inverse plan of each action, `synthesize_inverse` and
-- `invert_plan`. A PlannerError is a value that says which check failed.
pub mod Laws
use understudy.Common.{
  lookup_in, ℕ, zero, suc, String, Bool, true, false, not, ◌&&◌, ◌||◌, Option, none, some, List, [],
  ◌∷◌, is_empty, ℤ, pos, negsuc, neg, str_eq, if◌then◌else◌, member, starts_with, lower_starts_with,
  take_text, decimal, ◌<>◌, eqb_ℤ, map,
}
use understudy.Contracts.Enums.{
  ActionType, rollback_deploy, restart_workload, scale_workload, disable_flag, revert_config,
  no_action, is_no_action,
}
use understudy.Contracts.Plan.{
  RemediationPlan, irreversible, header, Header, ActionParams, params_for,
}
use understudy.Contracts.Incident.{IncidentContext, DeployRef}

pub data Fault : Type 0 where
  workload_empty workload_unknown unsupported_action zero_delta flag_required : Fault
  config_required config_unknown commit_required commit_unknown not_reversible assertion_failed :
      Fault

pub data Result {ℓ} (A : Type ℓ) : Type ℓ where
  ok : A → Result A
  planner_error : Fault → Result A

-- What an inverse is made from beside the plan.
pub record Hints : Type 0 where
  pub context : Option IncidentContext
  pub current_commit : Option String
  pub current_config_value : Option String
  pub cluster_workloads : Option (List String)
  pub config_lookup : Option (List (String × List (String × String)))

abbrev pub config_at : String → String → List (String × List (String × String)) → Option String
config_at w k table = elim (lookup_in w table) [ none ↦ none | some keys ↦ lookup_in k keys ]

-- `_resolve_prior_config_value`
unfoldable pub resolve_prior_config_value : String → String → Hints → Option String
resolve_prior_config_value workload key h = elim h.current_config_value [
  | some v ↦ some v
  | none ↦ elim h.config_lookup [
    | none ↦ none
    | some table ↦ elim (config_at workload key table) [
      | some v ↦ some v
      | none ↦ config_at "" key table
    ]
  ]
]

-- One of the two is an abbreviation of the other, or both are the same.
abbrev pub same_commit : String → String → Bool
same_commit a b = starts_with a b || starts_with b a

-- The test of the loop over the older deploys.
abbrev pub is_earlier : String → String → String → DeployRef → Bool
is_earlier workload target head d =
    not (str_eq d.commit_sha head)
    && not (same_commit d.commit_sha target)
    && (str_eq workload ""
        || is_empty d.image_digests
        || member workload (map (λ kv. kv.0) d.image_digests))

unfoldable pub first_earlier : String → String → String → List DeployRef → Option String
first_earlier workload target head [] = none
first_earlier workload target head (d ∷ ds) =
    if is_earlier workload target head d
    then some d.commit_sha
    else first_earlier workload target head ds

-- `_resolve_pre_incident_commit`
unfoldable pub resolve_pre_incident_commit : String → String → Hints → Option String
unfolding first_earlier
resolve_pre_incident_commit workload target h = elim h.current_commit [
  | some c ↦ some c
  | none ↦ elim h.context [
    | none ↦ none
    | some context ↦ elim context.recent_deploys [
      | [] ↦ none
      | d ∷ ds ↦
          if not (str_eq target d.commit_sha) && not (same_commit target d.commit_sha)
          then some d.commit_sha
          else first_earlier workload target d.commit_sha ds
    ]
  ]
]

-- `{n:+d}`
abbrev pub signed : ℤ → String
signed (pos n) = "+" <> decimal n
signed (negsuc n) = "-" <> decimal (suc n)

pub record Built : Type 0 where
  pub action : ActionType
  pub params : ActionParams
  pub rationale : String

abbrev pub is_blank : Option String → Bool
is_blank none = true
is_blank (some s) = str_eq s ""

abbrev pub or_text : Option String → String
or_text none = ""
or_text (some s) = s

-- `_build_inverse_scale_workload`
unfoldable pub build_inverse_scale_workload : Header → String → Hints → Result Built
build_inverse_scale_workload p workload h = elim p.params.replica_delta [
  | none ↦ planner_error zero_delta
  | some delta ↦
      if eqb_ℤ delta (pos 0)
      then planner_error zero_delta
      else ok (record {
        action = scale_workload;
        params = record {
          workload = workload;
          target_commit = none;
          replica_delta = some (neg delta);
          flag_name = none;
          config_key = none;
          config_value = none;
        };
        rationale =
            "Scale "
            <> workload
            <> " back by "
            <> signed (neg delta)
            <> " replicas (reversing delta of "
            <> signed delta
            <> ")";
      })
]

-- `_build_inverse_restart_workload`
unfoldable pub build_inverse_restart_workload : Header → String → Hints → Result Built
build_inverse_restart_workload p workload h = ok (record {
  action = restart_workload;
  params = params_for workload;
  rationale =
      "Trigger rolling restart of " <> workload <> " to restore pre-intervention pod instances";
})

-- `_build_inverse_disable_flag`
unfoldable pub build_inverse_disable_flag : Header → String → Hints → Result Built
build_inverse_disable_flag p workload h =
    if is_blank p.params.flag_name
    then planner_error flag_required
    else ok (record {
      action = disable_flag;
      params = record {
        workload = workload;
        target_commit = none;
        replica_delta = none;
        flag_name = some (or_text p.params.flag_name);
        config_key = none;
        config_value = none;
      };
      rationale =
          (if lower_starts_with p.rationale "re-enable"
            then "Disable feature flag '"
            else "Re-enable feature flag '")
          <> or_text p.params.flag_name
          <> "' for "
          <> workload;
    })

-- `_build_inverse_revert_config`
unfoldable pub build_inverse_revert_config : Header → String → Hints → Result Built
unfolding resolve_prior_config_value
build_inverse_revert_config p workload h =
    if is_blank p.params.config_key
    then planner_error config_required
    else elim p.params.config_value [
      | none ↦ planner_error config_required
      | some _ ↦ elim (resolve_prior_config_value workload (or_text p.params.config_key) h) [
        | none ↦ planner_error config_unknown
        | some prior ↦ ok (record {
          action = revert_config;
          params = record {
            workload = workload;
            target_commit = none;
            replica_delta = none;
            flag_name = none;
            config_key = some (or_text p.params.config_key);
            config_value = some prior;
          };
          rationale =
              "Restore configuration key '"
              <> or_text p.params.config_key
              <> "' for "
              <> workload
              <> " to prior value '"
              <> prior
              <> "'";
        })
      ]
    ]

-- `_build_inverse_rollback_deploy`
unfoldable pub build_inverse_rollback_deploy : Header → String → Hints → Result Built
unfolding resolve_pre_incident_commit
build_inverse_rollback_deploy p workload h =
    if is_blank p.params.target_commit
    then planner_error commit_required
    else elim (resolve_pre_incident_commit workload (or_text p.params.target_commit) h) [
      | none ↦ planner_error commit_unknown
      | some commit ↦ ok (record {
        action = rollback_deploy;
        params = record {
          workload = workload;
          target_commit = some commit;
          replica_delta = none;
          flag_name = none;
          config_key = none;
          config_value = none;
        };
        rationale =
            "Roll forward "
            <> workload
            <> " Deployment to pre-incident commit "
            <> take_text 7 commit;
      })
    ]

-- `_INVERSE_BUILDERS`
unfoldable pub inverse_builder : ActionType → Header → String → Hints → Result Built
unfolding build_inverse_scale_workload build_inverse_restart_workload build_inverse_disable_flag
    build_inverse_revert_config build_inverse_rollback_deploy
inverse_builder scale_workload p workload h = build_inverse_scale_workload p workload h
inverse_builder restart_workload p workload h = build_inverse_restart_workload p workload h
inverse_builder disable_flag p workload h = build_inverse_disable_flag p workload h
inverse_builder revert_config p workload h = build_inverse_revert_config p workload h
inverse_builder rollback_deploy p workload h = build_inverse_rollback_deploy p workload h
inverse_builder no_action p workload h = planner_error unsupported_action

abbrev pub is_listed : Option (List String) → String → Bool
is_listed none workload = true
is_listed (some ws) workload = member workload ws

-- The inverse plan around what the builder made.
abbrev pub inverse_of : Header → Built → RemediationPlan
inverse_of p b = irreversible (record {
  plan_id = p.plan_id <> "_inv";
  candidate_index = p.candidate_index;
  action = b.action;
  params = b.params;
  target_resources = p.target_resources;
  declared_blast_set = p.declared_blast_set;
  rationale = b.rationale;
  origin = p.origin;
  playbook_id = p.playbook_id;
})

unfoldable pub synthesize_inverse : RemediationPlan → Hints → Result (Option RemediationPlan)
unfolding inverse_builder
synthesize_inverse plan h =
    let p = header plan in
    if is_no_action p.action
    then ok none
    else if str_eq p.params.workload ""
    then planner_error workload_empty
    else if not (is_listed h.cluster_workloads p.params.workload)
    then planner_error workload_unknown
    else elim (inverse_builder p.action p p.params.workload h) [
      | planner_error e ↦ planner_error e
      | ok b ↦ ok (some (inverse_of p b))
    ]

-- `assertion_failed` is the AssertionError.
unfoldable pub invert_plan : RemediationPlan → Hints → Result RemediationPlan
unfolding synthesize_inverse
invert_plan plan h =
    if is_no_action (header plan).action
    then planner_error not_reversible
    else elim (synthesize_inverse plan h) [
      | planner_error e ↦ planner_error e
      | ok none ↦ planner_error assertion_failed
      | ok (some inv) ↦ ok inv
    ]
