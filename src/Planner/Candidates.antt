-- ===== src/Planner/Candidates.antt =====
-- src/understudy/planner/validate.py: `generate_candidates_with_retry`. The model that answers, the
-- reading of an answer's JSON and the texts of the errors are parameters; the number of calls that
-- are left tells the calls apart, since a model may answer the same messages differently.
pub mod Outcome
use understudy.Common.{
  ℕ, zero, suc, String, Bool, true, false, Option, none, some, List, [], ◌∷◌, ◌++◌, ◌<>◌,
  if◌then◌else◌, ◌==◌,
}
use understudy.Contracts.Plan.{RemediationPlan, planner}
use understudy.Contracts.Incident.{IncidentContext}
use understudy.Planner.Prompt.{PromptCandidatePlan}
use understudy.Planner.Schema.{SchemaError, Parsed, parsed, schema_error, validate_and_parse_plans}
use understudy.Planner.Normalise.{normalise_plans, ensure_no_action_candidate}

pub data Role : Type 0 where
  system user assistant : Role

pub record Message : Type 0 where
  pub role : Role
  pub content : String

-- `planner_error` is a PlannerError of the call, `crash` any other exception.
pub data Reply : Type 0 where
  answer : String → Reply
  planner_error : Reply
  crash : String → Reply

-- `exhausted` is the PlannerError after the last attempt.
pub data Generated : Type 0 where
  candidates : List RemediationPlan → Generated
  exhausted : Generated
  crashed : String → Generated

-- The messages of every call, and what comes out.
abbrev pub Trace : Type 0
Trace = List (List Message) × Generated

abbrev pub calling : List Message → Trace → Trace
calling messages (calls, g) = (messages ∷ calls, g)

abbrev pub feedback : String → String → List Message
feedback raw error =
    record { role = assistant; content = raw }
    ∷ record {
      role = user;
      content =
          "Your previous response had schema validation errors:\n" <> error
          <> "\nPlease correct the errors and output ONLY valid JSON conforming "
          <> "strictly to the schema.";
    }
    ∷ []

module _ (llm : ℕ → List Message → Reply) (read : String → Option (List PromptCandidatePlan))
    (describe : SchemaError → String → String) (context : IncidentContext)
    (cluster : Option (List String)) where
  -- The plans of an answer that passes the checks.
  unfoldable pub ballot_of : List RemediationPlan → List RemediationPlan
  unfolding normalise_plans ensure_no_action_candidate
  ballot_of plans =
      ensure_no_action_candidate (normalise_plans plans context cluster false) context cluster
        planner

  -- The loop over the attempts.
  unfoldable pub attempts : ℕ → List Message → Trace
  unfolding validate_and_parse_plans ballot_of
  attempts zero messages = ([], exhausted)
  attempts (suc left) messages = elim (llm left messages) [
    | crash e ↦ (messages ∷ [], crashed e)
    | planner_error ↦ calling messages (attempts left messages)
    | answer raw ↦ elim (validate_and_parse_plans (read raw) false) [
      | parsed plans ↦ (messages ∷ [], candidates (ballot_of plans))
      | schema_error e ↦ calling messages (
          attempts left (if left == 0 then messages else messages ++ feedback raw (describe e raw)))
    ]
  ]

  unfoldable pub generate_candidates_with_retry : ℕ → List Message → Trace
  unfolding attempts
  generate_candidates_with_retry max_retries prompt = attempts (suc max_retries) prompt
