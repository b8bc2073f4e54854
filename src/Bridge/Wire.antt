-- ===== src/Bridge/Wire.antt =====
-- The wire types of nyanpasu_ipc/src/api/status.rs, nyanpasu_ipc/src/api/core/apply.rs and the error
-- kinds of nyanpasu_ipc/src/api/mod.rs. The core's type, of another crate, is a parameter.
use nyanpasu_service.Prelude.{ℕ, Option}
use nyanpasu_service.Text.{Text}

-- `CoreState` of the wire.
pub data WireState : Type 0 where
  running : WireState
  stopped : Option Text → WireState

pub data CoreControllerInfo : Type 0 where
  named_pipe unix_socket http : Text → CoreControllerInfo

pub data CoreHealthState : Type 0 where
  starting healthy unhealthy : CoreHealthState

pub record CoreHealthInfo : Type 0 where
  pub state : CoreHealthState
  pub changed_at : ℕ
  pub consecutive_failures : ℕ
  pub last_error : Option Text
  pub last_success_at : Option ℕ

pub record ConfigRevisionInfo : Type 0 where
  pub epoch : ℕ
  pub generation : ℕ
  pub source_hash : Text
  pub effective_hash : Text

pub record RevisionIdInfo : Type 0 where
  pub epoch : ℕ
  pub generation : ℕ
  pub effective_hash : Text

-- `ConfigRevisionInfo::id`
abbrev pub revision_info_id : ConfigRevisionInfo → RevisionIdInfo
revision_info_id info = record {
  epoch = info.epoch;
  generation = info.generation;
  effective_hash = info.effective_hash;
}

pub data CoreStateDetail : Type 0 where
  stopped : Option Text → CoreStateDetail
  starting stopping : ℕ → CoreStateDetail
  running restarting : ℕ → ℕ → CoreStateDetail
  switching : Option ℕ → ℕ → CoreStateDetail

pub record CoreInfos (T : Type 0) : Type 0 where
  pub core_type : Option T
  pub state : WireState
  pub state_changed_at : ℕ
  pub config_path : Option Text
  pub controller : Option CoreControllerInfo
  pub health : Option CoreHealthInfo
  pub revision : Option ConfigRevisionInfo
  pub detail : Option CoreStateDetail

pub data ApplyOutcomeKind : Type 0 where
  noop patched reloaded restarted switched rolled_back : ApplyOutcomeKind

pub record CoreApplyData : Type 0 where
  pub outcome : ApplyOutcomeKind
  pub revision : ConfigRevisionInfo
  pub warning : Option Text
  pub failed_apply : Option Text

-- The constants of `error_kind`.
pub data ErrorKind : Type 0 where
  not_started already_running revision_conflict quarantined config_check_failed : ErrorKind
  config_not_found binary_not_found invalid_config controller_missing apply_failed : ErrorKind
  apply_rollback_failed stop_unconfirmed : ErrorKind
