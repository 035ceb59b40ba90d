-- ===== src/Actuator.antt =====
-- src/understudy/actuator/production.py: the authorisation K10, the record written before the
-- actuation, the outcome, and `apply_to_production`. Instants are microseconds; settings, applier,
-- probe and store are parameters. The guard that inspects the caller's Python stack is left out.
pub mod Authorised
use understudy.Common.{
  ℕ, ◌+◌, ◌*◌, ◌/◌, String, Bool, true, false, not, ◌&&◌, ◌||◌, Option, none, some, List, [], ◌∷◌,
  leb, ltb, str_eq, ◌<>◌, if◌then◌else◌, ℤ, pos, times, plus_ratio, sum_ratio, Ratio, ratio, of_ℤ,
  leb_ratio, is_empty, length, map, suc,
}
use understudy.Contracts.Enums.{is_pass, executed}
use understudy.Contracts.Plan.{RemediationPlan, header}
use understudy.Contracts.Incident.{
  IncidentContext, Alert, synthetic, critical, MetricWindow, DependencyGraphSnapshot,
}
use understudy.Contracts.Evidence.{ProbeSample}
use understudy.Contracts.Run.{RunRecord, ProdOutcome, resolved, not_resolved, worsened}
use understudy.Kernel.Verify.{KernelVerdict}

pub data ActuationError : Type 0 where
  no_pass plan_mismatch no_timestamp stale future kill_switch : ActuationError

-- The first check that fails; `none` lets the plan through. A verdict may lie five seconds ahead.
unfoldable pub assert_k10_authorisation :
    RemediationPlan → KernelVerdict → ℕ → ℕ → Option ActuationError
assert_k10_authorisation plan verdict now max_age =
    if not (is_pass verdict.verdict)
    then some no_pass
    else if not (str_eq verdict.plan_id (header plan).plan_id)
    then some plan_mismatch
    else elim verdict.evaluated_at [
      | none ↦ some no_timestamp
      | some at ↦
          if leb (at + max_age) now
          then some stale
          else if ltb (now + 5000000) at
          then some future
          else none
    ]

abbrev pub service_of : RemediationPlan → String
service_of plan =
    if str_eq (header plan).params.workload ""
    then "edge-gateway"
    else (header plan).params.workload

-- The context that stands for one that is not given.
abbrev pub default_context : RemediationPlan → KernelVerdict → ℕ → IncidentContext
default_context plan verdict now = record {
  incident_id = verdict.incident_id;
  alert = record {
    alert_id = "alt_" <> verdict.incident_id;
    source = synthetic;
    title = "Incident " <> verdict.incident_id;
    service = service_of plan;
    severity = critical;
    fired_at = now;
  };
  signatures = [];
  metrics_window = record {
    service = service_of plan;
    start_time = now;
    end_time = now;
    series = [];
    p99_latency_ms = none;
    error_rate = none;
    request_count = pos 0;
  };
  recent_deploys = [];
  dependency_graph = record { nodes = []; edges = []; observed_at = now };
  inferred_failure_class = none;
  gathered_at = now;
}

abbrev pub record_incident : KernelVerdict → Option IncidentContext → String
record_incident verdict none = verdict.incident_id
record_incident verdict (some context) =
    if not (str_eq context.incident_id "") && str_eq verdict.incident_id "inc_kernel_verify"
    then context.incident_id
    else verdict.incident_id

abbrev pub or_default : Option IncidentContext → IncidentContext → IncidentContext
or_default none d = d
or_default (some context) d = context

unfoldable pub build_pre_actuation_run_record :
    RemediationPlan → KernelVerdict → ℕ → Option IncidentContext → RunRecord
build_pre_actuation_run_record plan verdict now context = record {
  run_id = "run_" <> record_incident verdict context <> "_pre_actuation";
  incident_id = record_incident verdict context;
  scenario_id = none;
  started_at = now;
  finished_at = none;
  outcome = executed;
  context = or_default context (default_context plan verdict now);
  plans = plan ∷ [];
  evidence = [];
  tournament = none;
  verdict = some verdict;
  prod_applied_plan_id = some (header plan).plan_id;
  prod_outcome = none;
  escalation_reason = none;
}

-- `sum(xs) / len(xs) if xs else 0.0`
abbrev pub mean : List Ratio → Ratio
mean xs =
    if is_empty xs
    then of_ℤ (pos 0)
    else ratio (sum_ratio xs).num (suc (sum_ratio xs).den_pred * length xs)

abbrev pub exceeds : Ratio → Ratio → Bool
exceeds a b = not (leb_ratio a b)

pub record ProbeResult : Type 0 where
  pub recovered : Bool
  pub probes : List ProbeSample

-- The error rate rose by more than 0.02, or the latency more than doubled.
abbrev pub is_worse : List ProbeSample → ProbeSample → Bool
is_worse probes baseline =
    exceeds (mean (map (λ p. p.error_rate) probes))
      (plus_ratio baseline.error_rate (ratio (pos 2) 100))
    || (exceeds baseline.p99_latency_ms (of_ℤ (pos 0))
        && exceeds (mean (map (λ p. p.p99_latency_ms) probes))
            (ratio (times baseline.p99_latency_ms.num 2) (suc baseline.p99_latency_ms.den_pred)))

unfoldable pub determine_prod_outcome : Option ProbeResult → Option ProbeSample → Bool → ProdOutcome
unfolding sum_ratio plus_ratio
determine_prod_outcome probe_result baseline applied_successfully =
    if not applied_successfully then not_resolved else elim probe_result [
      | none ↦ not_resolved
      | some r ↦ if r.recovered then resolved else elim baseline [
        | none ↦ not_resolved
        | some b ↦ if not (is_empty r.probes) && is_worse r.probes b then worsened else not_resolved
      ]
    ]

-- What `apply_to_production` does to the world, in order.
pub data Effect : Type 0 where
  sampled : Effect
  recorded : RunRecord → Effect
  applied : RemediationPlan → Effect
  probed : Effect

pub data Actuation : Type 0 where
  refused : ActuationError → Actuation
  done : ProdOutcome → Actuation

module _ (max_age : ℕ) (actuation_enabled has_probe has_store : Bool)
    (apply : RemediationPlan → Bool) (baseline : Option ProbeSample)
    (probe_result : ProbeResult) where
  abbrev pub before :
      RemediationPlan → KernelVerdict → ℕ → Option IncidentContext → List Effect → List Effect
  before plan verdict now context rest =
      let record_it =
        if has_store
        then recorded (build_pre_actuation_run_record plan verdict now context)
          ∷ applied plan
          ∷ rest
        else applied plan ∷ rest in
      if has_probe then sampled ∷ record_it else record_it

  -- The effects and the outcome; the method's result is whether the outcome is `resolved`.
  -- `baseline` is the sample before, where it did not fail, and `probe_result` the probe after. A
  -- store or an applier that raises leaves the method, as it does the effects that follow.
  unfoldable pub apply_to_production :
      RemediationPlan → KernelVerdict → ℕ → Option IncidentContext → List Effect × Actuation
  unfolding assert_k10_authorisation build_pre_actuation_run_record determine_prod_outcome
  apply_to_production plan verdict now context =
      elim (assert_k10_authorisation plan verdict now max_age) [
        | some e ↦ ([], refused e)
        | none ↦
            if not actuation_enabled
            then ([], refused kill_switch)
            else if not (apply plan)
            then (before plan verdict now context [], done not_resolved)
            else if has_probe
            then (
              before plan verdict now context (probed ∷ []),
              done (determine_prod_outcome (some probe_result) baseline true),
            )
            else (before plan verdict now context [], done resolved)
      ]
