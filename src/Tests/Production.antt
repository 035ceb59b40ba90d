-- ===== src/Tests/Production.antt =====
-- An actuation with a fresh verdict.
use understudy.Common.{true, none, some, [], ◌∷◌, pos, ◌≡◌, refl}
use understudy.Contracts.Enums.{restart_workload, pass}
use understudy.Contracts.Plan.{RemediationPlan, irreversible, planner, params_for}
use understudy.Kernel.Verify.{KernelVerdict, all_safe}
use understudy.Actuator.{
  ProbeResult, apply_to_production, assert_k10_authorisation, sampled, recorded, applied, probed,
  build_pre_actuation_run_record,
}
use understudy.Actuator.Authorised.{Authorised, apply_to_production-Authorised}

abbrev pub restart : RemediationPlan
restart = irreversible (record {
  plan_id = "p1";
  candidate_index = pos 0;
  action = restart_workload;
  params = params_for "checkout";
  target_resources = [];
  declared_blast_set = [];
  rationale = "";
  origin = planner;
  playbook_id = none;
})

abbrev pub passed : KernelVerdict
passed = record {
  incident_id = "inc_1";
  plan_id = "p1";
  verdict = pass;
  results = [];
  missing_facts = [];
  human_reason = all_safe 8;
  evaluated_at = some 100;
}

abbrev pub recovery : ProbeResult
recovery = record { recovered = true; probes = [] }

apply_to_production-Authorised_example : (true ≡ true) × Authorised restart passed 200 60000000
unfolding apply_to_production assert_k10_authorisation
apply_to_production-Authorised_example =
    apply_to_production-Authorised 60000000 true true true (λ _. true) none recovery restart passed
      200 none sampled
      (recorded (build_pre_actuation_run_record restart passed 200 none)
        ∷ applied restart
        ∷ probed
        ∷ [])
      refl
