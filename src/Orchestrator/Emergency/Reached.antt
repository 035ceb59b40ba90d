-- ===== src/Orchestrator/Emergency/Reached.antt =====
-- Whom an emergency escalation reaches.
use understudy.Common.{String, Option, some, List, ◌≡◌, Memᴰ}
use understudy.Contracts.Enums.{escalated}
use understudy.Contracts.Incident.{TwinHandle}
use understudy.Contracts.Run.{RunRecord}
use understudy.Orchestrator.State.{State}
use understudy.Orchestrator.Emergency.{Call, unregister_twin, record_run, Services}

module _ (services : Services) where
  -- Every twin's mirror is unregistered.
  abbrev pub Unregistered : List Call → TwinHandle → Type 0
  Unregistered calls t = Memᴰ (unregister_twin t.twin_id) calls

  -- An escalated record with the reason, which is written and returned.
  abbrev pub IsRecorded : State → String → List Call × Option RunRecord → Type 0
  IsRecorded s reason (calls, result) =
      (r : RunRecord) × (result ≡ some r)
      × Memᴰ (record_run r) calls
      × (r.outcome ≡ escalated)
      × (r.escalation_reason ≡ some reason)
      × (r.incident_id ≡ s.incident_id)
