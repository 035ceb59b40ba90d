-- ===== src/Tests/Candidates.antt =====
-- A model's candidates, the environment that they are held against, and what is left of them.
use understudy.Common.{
  ℕ, String, true, false, Option, none, some, List, [], ◌∷◌, ◌≤◌, length, pos, neg, ◌≡◌, ◌↔◌, refl,
  All, strip, lstrip, rstrip, is_space, decimal, decimal_of, ◌==◌, str_eq, if◌then◌else◌, add,
  set_of,
}
use understudy.Contracts.Enums.{scale_workload, revert_config, ActionType}
use understudy.Contracts.Plan.{RemediationPlan, header, ActionParams}
use understudy.Contracts.Incident.{
  IncidentContext, Alert, synthetic, critical, MetricWindow, DependencyGraphSnapshot,
}
use understudy.Graph.Service.{link, closure}
use understudy.Planner.Inverse.{synthesize_inverse, inverse_builder, build_inverse_scale_workload}
use understudy.Planner.Prompt.{PromptCandidatePlan, prompt_candidate_to_remediation_plan}
use understudy.Planner.Schema.{SchemaError, parsed, validate_and_parse_plans}
use understudy.Planner.Schema.Accepted.{IsWellFormed, converted, validate_and_parse_plans_iff}
use understudy.Planner.Normalise.{
  normalise_plan, resolve_workload_name, resolved_commit, compute_blast_set_validity, reachable_in,
  callers_in, link_callers, checked_inverse, normalise_plans,
}
use understudy.Planner.Normalise.Sources.{
  GraphSource, from_declarations, graph_from, IsValidFor, compute_blast_set_validity_iff,
}
use understudy.Planner.Normalise.Grounded.{IsGrounded, normalise_plan-IsGrounded}
use understudy.Planner.Normalise.Reverts.{normalise_plan-drops_reverts}
use understudy.Planner.Normalise.Numbering.{NumberedFrom, IsBallot, normalise_plans-IsBallot}
use understudy.Planner.Normalise.Survivors.{Survives, normalise_plans-Survives}
use understudy.Planner.Candidates.{Message, Reply, answer, system, generate_candidates_with_retry}
use understudy.Planner.Candidates.Outcome.{Kept, generate_candidates_with_retry-Kept}

abbrev calls : DependencyGraphSnapshot
calls = record {
  nodes = "edge" ∷ "auth" ∷ [];
  edges = record { source = "edge"; target = "auth" } ∷ [];
  observed_at = 0;
}

abbrev alert : Alert
alert = record {
  alert_id = "a1";
  source = synthetic;
  title = "slow";
  service = "auth";
  severity = critical;
  fired_at = 0;
}

abbrev window : MetricWindow
window = record {
  service = "auth";
  start_time = 0;
  end_time = 9;
  series = [];
  p99_latency_ms = none;
  error_rate = none;
  request_count = pos 0;
}

abbrev pub situation : IncidentContext
situation = record {
  incident_id = "inc_1";
  alert = alert;
  signatures = [];
  metrics_window = window;
  recent_deploys = [];
  dependency_graph = calls;
  inferred_failure_class = none;
  gathered_at = 9;
}

abbrev wider : ActionParams
wider = record {
  workload = "auth";
  target_commit = none;
  replica_delta = some (pos 2);
  flag_name = none;
  config_key = none;
  config_value = none;
}

abbrev proposal : ActionType → ActionParams → PromptCandidatePlan
proposal a p = record {
  action = a;
  params = p;
  declared_blast_set = "auth" ∷ "edge" ∷ [];
  inverse = none;
  rationale = "load";
}

abbrev scaled : RemediationPlan
scaled = prompt_candidate_to_remediation_plan (proposal scale_workload wider) 0

abbrev reverted : RemediationPlan
reverted = prompt_candidate_to_remediation_plan (proposal revert_config wider) 1

abbrev or_scaled : Option RemediationPlan → RemediationPlan
or_scaled (some p) = p
or_scaled none = scaled

abbrev survivor : RemediationPlan
survivor = or_scaled (normalise_plan scaled situation none)

-- The services as a graph of declarations.
abbrev declarations : GraphSource
declarations = from_declarations ("edge" ∷ "auth" ∷ []) (("edge", "auth") ∷ []) []

compute_blast_set_validity_iff_example :
    (compute_blast_set_validity ("edge" ∷ []) "auth" (graph_from declarations) ≡ true)
    ↔ IsValidFor declarations ("edge" ∷ []) "auth"
compute_blast_set_validity_iff_example =
    compute_blast_set_validity_iff ("edge" ∷ []) "auth" declarations

normalise_plan-IsGrounded_example :
    ((header survivor).action ≡ (header scaled).action)
    × ((header survivor).target_resources ≡ (header scaled).target_resources)
    × ((header survivor).declared_blast_set ≡ (header scaled).declared_blast_set)
    × ((header survivor).params.workload ≡ strip (header scaled).params.workload)
    × IsGrounded situation ("edge" ∷ "auth" ∷ []) survivor
unfolding normalise_plan resolve_workload_name resolved_commit compute_blast_set_validity
    reachable_in callers_in link_callers link closure set_of add checked_inverse synthesize_inverse
    inverse_builder build_inverse_scale_workload neg strip lstrip rstrip is_space
    prompt_candidate_to_remediation_plan decimal decimal_of
normalise_plan-IsGrounded_example =
    normalise_plan-IsGrounded scaled survivor situation none refl refl

normalise_plan-drops_reverts_example : normalise_plan reverted situation none ≡ none
unfolding prompt_candidate_to_remediation_plan
normalise_plan-drops_reverts_example = normalise_plan-drops_reverts reverted situation none refl

normalise_plans-IsBallot_example :
    (NumberedFrom 0 (normalise_plans (scaled ∷ reverted ∷ []) situation none false)
      × (length (normalise_plans (scaled ∷ reverted ∷ []) situation none false) ≤ 2))
    × IsBallot (normalise_plans (scaled ∷ reverted ∷ []) situation none true)
    × (length (normalise_plans (scaled ∷ reverted ∷ []) situation none true) ≤ 3)
normalise_plans-IsBallot_example = normalise_plans-IsBallot (scaled ∷ reverted ∷ []) situation none

normalise_plans-Survives_example :
    All (Survives situation none) (normalise_plans (scaled ∷ reverted ∷ []) situation none true)
normalise_plans-Survives_example =
    normalise_plans-Survives situation none (scaled ∷ reverted ∷ []) true

validate_and_parse_plans_iff_example :
    (validate_and_parse_plans (some (proposal scale_workload wider ∷ [])) false
      ≡ parsed (scaled ∷ []))
    ↔ ((false ≡ false)
        × (scaled ∷ [] ≡ converted false 0 (proposal scale_workload wider ∷ []))
        × All (IsWellFormed false) (proposal scale_workload wider ∷ []))
validate_and_parse_plans_iff_example =
    validate_and_parse_plans_iff false (proposal scale_workload wider ∷ []) (scaled ∷ [])

-- The first answer cannot be read; the next one proposes to scale.
abbrev model : ℕ → List Message → Reply
model n messages = if n == 2 then answer "?" else answer "{}"

abbrev reading : String → Option (List PromptCandidatePlan)
reading s = if str_eq s "{}" then some (proposal scale_workload wider ∷ []) else none

abbrev explained : SchemaError → String → String
explained e s = "not JSON"

abbrev prompt : List Message
prompt = record { role = system; content = "Propose candidates." } ∷ []

generate_candidates_with_retry-Kept_example :
    Kept model reading explained situation none 3
      (generate_candidates_with_retry model reading explained situation none 2 prompt)
generate_candidates_with_retry-Kept_example =
    generate_candidates_with_retry-Kept model reading explained situation none 2 prompt
