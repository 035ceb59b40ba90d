-- ===== src/Contracts/Enums.antt =====
-- src/understudy/contracts/enums.py
use mathlib.Core.Bool.{Bool, true, false}

pub data ActionType : Type 0 where
  rollback_deploy restart_workload scale_workload disable_flag revert_config no_action : ActionType

pub data FailureClass : Type 0 where
  bad_deploy resource_exhaustion dependency_degradation config_drift : FailureClass

pub data KernelVerdictType : Type 0 where
  pass veto uncertain : KernelVerdictType

pub data TournamentOutcome : Type 0 where
  decided ambiguous no_viable_candidate : TournamentOutcome

pub data RunOutcome : Type 0 where
  executed escalated failed : RunOutcome

pub data InvariantTier : Type 0 where
  proof runtime : InvariantTier

abbrev pub is_no_action : ActionType → Bool
is_no_action no_action = true
is_no_action _ = false

abbrev pub is_rollback : ActionType → Bool
is_rollback rollback_deploy = true
is_rollback _ = false

abbrev pub is_scale : ActionType → Bool
is_scale scale_workload = true
is_scale _ = false

abbrev pub is_restart : ActionType → Bool
is_restart restart_workload = true
is_restart _ = false

abbrev pub is_pass : KernelVerdictType → Bool
is_pass pass = true
is_pass _ = false

abbrev pub is_decided : TournamentOutcome → Bool
is_decided decided = true
is_decided _ = false

abbrev pub is_escalated : RunOutcome → Bool
is_escalated escalated = true
is_escalated _ = false

abbrev pub is_revert_config : ActionType → Bool
is_revert_config revert_config = true
is_revert_config _ = false
