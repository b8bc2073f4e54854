-- ===== src/State.antt =====
-- crates/nyanpasu-core-manager/src/state.rs: the instance and manager states and the published
-- snapshot. Unix milliseconds are natural numbers (`now_ms` never returns a negative one), and
-- the clock reading is an argument. Paths are texts.
use native.Mathlib.Decide.{ℕ_discrete}
use nyanpasu_service.Prelude.{ℕ, Bool, true, false, Option, none, some, List}
use nyanpasu_service.Text.{Text, bytes}
use nyanpasu_service.Kind.{ClashCoreKind}

pub data HealthState : Type 0 where
  starting healthy unhealthy : HealthState

pub record HealthStatus : Type 0 where
  pub state : HealthState
  pub changed_at : ℕ
  pub consecutive_failures : ℕ
  pub last_error : Option Text
  pub last_success_at : Option ℕ

-- `HealthStatus::starting`
abbrev pub starting_health : ℕ → HealthStatus
starting_health now = record {
  state = HealthState.starting;
  changed_at = now;
  consecutive_failures = 0;
  last_error = none;
  last_success_at = none;
}

pub data StopReason : Type 0 where
  finished user : StopReason
  error : Text → StopReason

-- `Display`
unfoldable pub reason_text : StopReason → Text
reason_text StopReason.finished = bytes "core exited"
reason_text StopReason.user = bytes "stopped by user"
reason_text (StopReason.error message) = message

pub data InstanceState : Type 0 where
  starting stopping : InstanceState
  running restarting : ℕ → InstanceState
  stopped : StopReason → InstanceState

abbrev pub is_terminal : InstanceState → Bool
is_terminal (InstanceState.stopped reason) = true
is_terminal InstanceState.starting = false
is_terminal InstanceState.stopping = false
is_terminal (InstanceState.running pid) = false
is_terminal (InstanceState.restarting attempt) = false

pub record InstanceStatus : Type 0 where
  pub state : InstanceState
  pub health : Option HealthStatus

-- `InstanceStatus::initial`
abbrev pub initial_instance : ℕ → InstanceStatus
initial_instance now = record {
  state = InstanceState.starting;
  health = some (starting_health now);
}

pub data CoreState : Type 0 where
  stopped : Option StopReason → CoreState
  starting stopping : ℕ → CoreState
  running restarting : ℕ → ℕ → CoreState
  switching : Option ℕ → ℕ → CoreState

-- The derived equalities.
pub HealthState-discrete : Discrete HealthState
HealthState-discrete = hlevel

pub CoreState-discrete : Discrete CoreState
CoreState-discrete = hlevel ℕ_discrete

pub Health-discrete : Discrete (Option HealthStatus)
Health-discrete = hlevel ℕ_discrete

pub data Feature : Type 0 where
  named_pipe_ipc unix_socket_ipc disable_tcp_controller : Feature

pub data RuntimeFeature : Type 0 where
  local_ipc : RuntimeFeature

pub record SpecSummary : Type 0 where
  pub kind : ClashCoreKind
  pub config_path : Text
  pub capabilities : List Feature
  pub runtime_features : List RuntimeFeature

pub record RevisionId : Type 0 where
  pub epoch : ℕ
  pub generation : ℕ
  pub effective_hash : Text

pub RevisionId-discrete : Discrete RevisionId
RevisionId-discrete = hlevel ℕ_discrete

pub record ConfigRevision : Type 0 where
  pub epoch : ℕ
  pub generation : ℕ
  pub source_hash : Text
  pub effective_hash : Text
  pub runtime_path : Text

-- `ConfigRevision::id`
abbrev pub revision_id : ConfigRevision → RevisionId
revision_id r = record {
  epoch = r.epoch;
  generation = r.generation;
  effective_hash = r.effective_hash;
}

-- `clash_api::Host`; a URL is its text.
pub data Host : Type 0 where
  named_pipe unix_socket http : Text → Host

pub record CoreStatus : Type 0 where
  pub state : CoreState
  pub changed_at : ℕ
  pub health : Option HealthStatus
  pub spec : Option SpecSummary
  pub controller : Option Host
  pub revision : Option ConfigRevision

-- `CoreStatus::initial`
abbrev pub initial_status : ℕ → CoreStatus
initial_status now = record {
  state = CoreState.stopped none;
  changed_at = now;
  health = none;
  spec = none;
  controller = none;
  revision = none;
}
