-- ===== src/Orchestrator/Nodes.antt =====
-- src/understudy/orchestrator/nodes/safety_kernel.py and actuate.py. What the dependencies give is a
-- parameter: the facts that are extracted, the clock, the kernel's `verify` and the actuator's
-- `apply_to_production`, and so are the texts of reasons and errors.
pub mod Proved
use understudy.Common.{
  ℕ, String, Bool, true, false, not, ◌&&◌, ◌||◌, Option, none, some, List, [], ◌∷◌, ◌++◌, map, keep,
  find_first, is_empty, str_eq, if◌then◌else◌, contains, set_of, ◌<>◌, ◌==◌, ℤ, eqb_ℤ, pos,
  eqb_ratio, zero_ratio,
}
use understudy.Contracts.Enums.{RunOutcome, executed, escalated, is_pass, pass}
use understudy.Contracts.Plan.{
  RemediationPlan, irreversible, reversible, header, Header, ResourceRef,
}
use understudy.Contracts.Incident.{IncidentContext}
use understudy.Contracts.Evidence.{CandidateEvidence, TournamentResult}
use understudy.Contracts.Run.{ProdOutcome, resolved, not_resolved, worsened}
use understudy.Kernel.Facts.{
  FactName, plain, name_eq, Fact, FactValue, simple, table, Value, scalar, coll, Scalar, int, bool,
  real, str, time, ref, mapping, config,
}
use understudy.Kernel.Context.{Outcome, ok, missing, type_error, value_error, not_implemented}
use understudy.Kernel.Verify.{KernelVerdict, Reason}
use understudy.Actuator.{Effect, Actuation, ActuationError, refused, done}
use understudy.Orchestrator.State.{State, Update, no_update}
use understudy.Orchestrator.Graph.{NodeResult, returns, raises}

-- `r.model_copy(update={"namespace": target_namespace})` of a resource without a namespace or in a twin
abbrev pub in_production : String → ResourceRef → ResourceRef
in_production ns r =
    if str_eq r.namespace "" || contains r.namespace "twin"
    then record { namespace = ns; kind = r.kind; name = r.name }
    else r

abbrev pub retarget : String → Header → Header
retarget ns p = record {
  plan_id = p.plan_id;
  candidate_index = p.candidate_index;
  action = p.action;
  params = p.params;
  target_resources = map (in_production ns) p.target_resources;
  declared_blast_set = p.declared_blast_set;
  rationale = p.rationale;
  origin = p.origin;
  playbook_id = p.playbook_id;
}

-- The plan and its inverse, whose own inverse stays as it is.
unfoldable pub prepare_plan_for_verification : RemediationPlan → String → RemediationPlan
unfolding contains
prepare_plan_for_verification (irreversible p) ns = irreversible (retarget ns p)
prepare_plan_for_verification (reversible p (irreversible q)) ns =
    reversible (retarget ns p) (irreversible (retarget ns q))
prepare_plan_for_verification (reversible p (reversible q inv)) ns =
    reversible (retarget ns p) (reversible (retarget ns q) inv)

abbrev pub has_id : Option String → RemediationPlan → Bool
has_id none p = false
has_id (some i) p = str_eq (header p).plan_id i

abbrev pub winner_id : State → Option String
winner_id s = elim s.tournament [ none ↦ none | some t ↦ t.winner_plan_id ]

-- The first plan with the winner's id.
abbrev pub winner_plan : State → Option RemediationPlan
winner_plan s = find_first (has_id (winner_id s)) s.plans

abbrev pub evidence_for : State → RemediationPlan → Option CandidateEvidence
evidence_for s p = find_first (λ e. str_eq e.plan_id (header p).plan_id) s.evidence

-- `not value`
abbrev pub is_falsy : FactValue → Bool
is_falsy (table []) = true
is_falsy (table (_ ∷ _)) = false
is_falsy (simple (coll [])) = true
is_falsy (simple (coll (_ ∷ _))) = false
is_falsy (simple (scalar (int n))) = eqb_ℤ n (pos 0)
is_falsy (simple (scalar (bool b))) = not b
is_falsy (simple (scalar (real r))) = eqb_ratio r zero_ratio
is_falsy (simple (scalar (str s))) = str_eq s ""
is_falsy (simple (scalar (time t))) = false
is_falsy (simple (scalar (ref r))) = false
is_falsy (simple (scalar (mapping kvs))) = is_empty kvs

abbrev namespaces_fact : FactName
namespaces_fact = plain "plan_target_namespaces"

abbrev or_default : List String → List String
or_default [] = "ust-prod" ∷ []
or_default (n ∷ ns) = n ∷ ns

-- The namespaces that the plan names, or else production's.
unfoldable pub plan_namespaces : RemediationPlan → List String
unfolding set_of
plan_namespaces p =
    or_default
      (set_of (keep (λ n. not (str_eq n "")) (map (λ r. r.namespace) (header p).target_resources)))

abbrev lacks_namespaces : Option Fact → Bool
lacks_namespaces none = true
lacks_namespaces (some f) = is_falsy f.value

unfoldable pub with_namespaces : RemediationPlan → ℕ → List Fact → List Fact
unfolding plan_namespaces
with_namespaces p now facts =
    if lacks_namespaces (find_first (λ f. name_eq f.name namespaces_fact) facts)
    then keep (λ f. not (name_eq f.name namespaces_fact)) facts
      ++ record {
        name = namespaces_fact;
        value = simple (coll (map str (plan_namespaces p)));
        source = config;
        observed_at = now;
      }
        ∷ []
    else facts

abbrev pub verdict_update : Option KernelVerdict → Option RunOutcome → Option String → Update
verdict_update v outcome reason = record {
  incident_id = none;
  context = none;
  plans = none;
  twins = none;
  evidence = none;
  tournament = none;
  verdict = v;
  outcome = outcome;
  errors = none;
  alert = none;
  started_at = none;
  finished_at = none;
  prod_applied_plan_id = none;
  prod_outcome = none;
  escalation_reason = reason;
  escalated_flag = none;
  scenario_id = none;
}

-- The verdict, for the incident of the state where that has an id.
abbrev pub of_incident : String → KernelVerdict → KernelVerdict
of_incident i v = record {
  incident_id = if str_eq i "" then v.incident_id else i;
  plan_id = v.plan_id;
  verdict = v.verdict;
  results = v.results;
  missing_facts = v.missing_facts;
  human_reason = v.human_reason;
  evaluated_at = v.evaluated_at;
}

module _ (extract : RemediationPlan → Option CandidateEvidence → Option IncidentContext → List Fact)
    (now : ℕ) (verify : RemediationPlan → List Fact → Outcome KernelVerdict)
    (reason_text : Reason → String) (error_text : String) where
  -- The facts that the winning plan is verified on.
  unfoldable pub facts_for : State → RemediationPlan → List Fact
  unfolding prepare_plan_for_verification with_namespaces
  facts_for s p =
      with_namespaces p now
        (extract (prepare_plan_for_verification p "ust-prod") (evidence_for s p) s.context)

  abbrev pub verified : State → Outcome KernelVerdict → NodeResult
  verified s (ok v) = returns (
      verdict_update (some (of_incident s.incident_id v))
        (if is_pass v.verdict then none else some escalated)
        (if is_pass v.verdict then none else some (reason_text v.human_reason)))
  verified s (missing n) = raises error_text
  verified s type_error = raises error_text
  verified s value_error = raises error_text
  verified s not_implemented = raises error_text

  unfoldable pub safety_kernel : State → NodeResult
  unfolding facts_for
  safety_kernel s = elim (winner_plan s) [
    | none ↦ returns (
        verdict_update none (some escalated)
          (some "No winning plan available for safety kernel verification"))
    | some p ↦ verified s (verify p (facts_for s p))
  ]

-- `worsened` counts only for a failure.
abbrev pub outcome_text : ProdOutcome → String
outcome_text resolved = "resolved"
outcome_text not_resolved = "not_resolved"
outcome_text worsened = "worsened"

abbrev pub is_success : ProdOutcome → Bool
is_success resolved = true
is_success _ = false

abbrev pub actuation_update : RemediationPlan → ProdOutcome → Update
actuation_update p o = record {
  incident_id = none;
  context = none;
  plans = none;
  twins = none;
  evidence = none;
  tournament = none;
  verdict = none;
  outcome = if is_success o then some executed else none;
  errors = none;
  alert = none;
  started_at = none;
  finished_at = none;
  prod_applied_plan_id = some (header p).plan_id;
  prod_outcome = some o;
  escalation_reason =
      if is_success o
      then none
      else some (
          "Production remediation did not resolve incident (plan "
          <> (header p).plan_id
          <> ", prod_outcome "
          <> outcome_text o
          <> ")");
  escalated_flag = none;
  scenario_id = none;
}

-- The errors that the node raises, or passes on from the actuator.
pub data Denial : Type 0 where
  no_pass_verdict no_winning_plan : Denial
  by_actuator : ActuationError → Denial

module _
    (apply_to_production : RemediationPlan
      → KernelVerdict
      → Option IncidentContext
      → List Effect × Actuation)
    (denial_text : Denial → String) where
  abbrev pub actuated : RemediationPlan → Actuation → NodeResult
  actuated p (refused e) = raises (denial_text (by_actuator e))
  actuated p (done o) = returns (actuation_update p o)

  -- What the node does to production, and what it returns.
  unfoldable pub actuate : State → List Effect × NodeResult
  actuate s = elim s.verdict [
    | none ↦ ([], raises (denial_text no_pass_verdict))
    | some v ↦
        if not (is_pass v.verdict)
        then ([], raises (denial_text no_pass_verdict))
        else elim (winner_plan s) [
          | none ↦ ([], raises (denial_text no_winning_plan))
          | some p ↦ let a = apply_to_production p v s.context in (a.0, actuated p a.1)
        ]
  ]
