-- ===== src/Contracts/Incident.antt =====
-- src/understudy/contracts/incident.py and twin.py. An instant is a number of microseconds, a
-- float a fraction. `Alert.raw` is a payload of any shape that nothing here reads: it is left out.
use understudy.Common.{ℕ, String, Bool, Option, List, Ratio, ℤ}
use understudy.Contracts.Enums.{FailureClass}

pub record MetricPoint : Type 0 where
  pub timestamp : ℕ
  pub value : Ratio

pub record MetricSeries : Type 0 where
  pub metric_name : String
  pub labels : List (String × String)
  pub points : List MetricPoint

pub record MetricWindow : Type 0 where
  pub service : String
  pub start_time : ℕ
  pub end_time : ℕ
  pub series : List MetricSeries
  pub p99_latency_ms : Option Ratio
  pub error_rate : Option Ratio
  pub request_count : ℤ

pub record DependencyEdge : Type 0 where
  pub source : String
  pub target : String

pub record DependencyGraphSnapshot : Type 0 where
  pub nodes : List String
  pub edges : List DependencyEdge
  pub observed_at : ℕ

pub data AlertSource : Type 0 where
  pagerduty synthetic : AlertSource

pub data Severity : Type 0 where
  critical error warning : Severity

pub record Alert : Type 0 where
  pub alert_id : String
  pub source : AlertSource
  pub title : String
  pub service : String
  pub severity : Severity
  pub fired_at : ℕ

pub record ErrorSignature : Type 0 where
  pub fingerprint : String
  pub message : String
  pub service : String
  pub count : ℤ
  pub first_seen : ℕ
  pub last_seen : ℕ

pub record DeployRef : Type 0 where
  pub commit_sha : String
  pub image_digests : List (String × String)
  pub deployed_at : ℕ
  pub pr_number : Option ℤ
  pub contains_migration : Bool

pub record IncidentContext : Type 0 where
  pub incident_id : String
  pub alert : Alert
  pub signatures : List ErrorSignature
  pub metrics_window : MetricWindow
  pub recent_deploys : List DeployRef
  pub dependency_graph : DependencyGraphSnapshot
  pub inferred_failure_class : Option FailureClass
  pub gathered_at : ℕ

pub data TwinState : Type 0 where
  forking ready applied observing torn_down failed_twin : TwinState

pub record TwinHandle : Type 0 where
  pub twin_id : String
  pub incident_id : String
  pub candidate_index : ℤ
  pub namespace : String
  pub database : String
  pub forked_from_snapshot_at : ℕ
  pub ready_at : Option ℕ
  pub state : TwinState

pub record MirrorStats : Type 0 where
  pub twin_id : String
  pub delivered : ℕ
  pub dropped : ℕ
