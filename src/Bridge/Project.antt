-- ===== src/Bridge/Project.antt =====
-- The projections of manager_bridge.rs (crates/nyanpasu-service-runtime/src/server) onto the wire.
-- `strip` is what the url crate leaves of an address without its user and password.
pub mod Faithful
use mathlib.Core.Logic.{ite}
use nyanpasu_service.Prelude.{ℕ, Bool, true, false, Option, none, some, List, [], ◌∷◌, ◌++◌}
use nyanpasu_service.Text.{Text, bytes}
use nyanpasu_service.Error.{Error}
use nyanpasu_service.State.{
  StopReason, reason_text, CoreState, HealthState, HealthStatus, Host, ConfigRevision, RevisionId,
  CoreStatus,
}
use nyanpasu_service.Manager.Quarantine.{join}
use nyanpasu_service.Manager.Apply.{ApplyOutcome}
use nyanpasu_service.Bridge.Wire.{
  WireState, CoreControllerInfo, CoreHealthState, CoreHealthInfo, ConfigRevisionInfo,
  RevisionIdInfo, CoreStateDetail, CoreInfos, ApplyOutcomeKind, CoreApplyData, ErrorKind,
}

reason_info : Option StopReason → Option Text
reason_info none = none
reason_info (some reason) = some (reason_text reason)

unfoldable pub map_core_state : CoreState → WireState
unfolding reason_info
map_core_state (CoreState.running epoch pid) = WireState.running
map_core_state (CoreState.switching from to) = WireState.running
map_core_state (CoreState.stopping epoch) = WireState.running
map_core_state (CoreState.starting epoch) = WireState.stopped none
map_core_state (CoreState.restarting epoch attempt) = WireState.stopped none
map_core_state (CoreState.stopped reason) = WireState.stopped (reason_info reason)

unfoldable pub map_state_detail : CoreState → Option CoreStateDetail
unfolding reason_info
map_state_detail (CoreState.stopped reason) = some (CoreStateDetail.stopped (reason_info reason))
map_state_detail (CoreState.starting epoch) = some (CoreStateDetail.starting epoch)
map_state_detail (CoreState.running epoch pid) = some (CoreStateDetail.running epoch pid)
map_state_detail (CoreState.restarting epoch attempt) =
    some (CoreStateDetail.restarting epoch attempt)
map_state_detail (CoreState.switching from to) = some (CoreStateDetail.switching from to)
map_state_detail (CoreState.stopping epoch) = some (CoreStateDetail.stopping epoch)

map_controller : (Text → Text) → Host → Option CoreControllerInfo
map_controller strip (Host.named_pipe path) = some (CoreControllerInfo.named_pipe path)
map_controller strip (Host.unix_socket path) = some (CoreControllerInfo.unix_socket path)
map_controller strip (Host.http url) = some (CoreControllerInfo.http (strip url))

map_health_state : HealthState → CoreHealthState
map_health_state HealthState.starting = CoreHealthState.starting
map_health_state HealthState.healthy = CoreHealthState.healthy
map_health_state HealthState.unhealthy = CoreHealthState.unhealthy

map_health : HealthStatus → CoreHealthInfo
unfolding map_health_state
map_health health = record {
  state = map_health_state health.state;
  changed_at = health.changed_at;
  consecutive_failures = health.consecutive_failures;
  last_error = health.last_error;
  last_success_at = health.last_success_at;
}

unfoldable pub map_revision : ConfigRevision → ConfigRevisionInfo
map_revision revision = record {
  epoch = revision.epoch;
  generation = revision.generation;
  source_hash = revision.source_hash;
  effective_hash = revision.effective_hash;
}

unfoldable pub map_revision_id : RevisionIdInfo → RevisionId
map_revision_id info = record {
  epoch = info.epoch;
  generation = info.generation;
  effective_hash = info.effective_hash;
}

-- `map_apply_outcome`: the loop that collects the warnings, and the outcome behind them.
warnings_of : ApplyOutcome → List Text
warnings_of (ApplyOutcome.durability_uncertain outcome warning) = warning ∷ warnings_of outcome
warnings_of outcome = []

joined : List Text → Option Text
joined [] = none
joined (w ∷ ws) = some (join (bytes "; ") (w ∷ ws))

data_of : ApplyOutcomeKind → ConfigRevision → Option Text → Option Text → CoreApplyData
unfolding map_revision
data_of kind revision failed_apply warning = record {
  outcome = kind;
  revision = map_revision revision;
  warning = warning;
  failed_apply = failed_apply;
}

innermost : ApplyOutcome → Option Text → CoreApplyData
unfolding data_of
innermost (ApplyOutcome.noop r) warning = data_of ApplyOutcomeKind.noop r none warning
innermost (ApplyOutcome.patched r) warning = data_of ApplyOutcomeKind.patched r none warning
innermost (ApplyOutcome.reloaded r) warning = data_of ApplyOutcomeKind.reloaded r none warning
innermost (ApplyOutcome.restarted r) warning = data_of ApplyOutcomeKind.restarted r none warning
innermost (ApplyOutcome.switched r) warning = data_of ApplyOutcomeKind.switched r none warning
innermost (ApplyOutcome.rolled_back r failed) warning =
    data_of ApplyOutcomeKind.rolled_back r (some failed) warning
innermost (ApplyOutcome.durability_uncertain outcome w) warning = innermost outcome warning

unfoldable pub map_apply_outcome : ApplyOutcome → CoreApplyData
unfolding warnings_of joined innermost
map_apply_outcome outcome = innermost outcome (joined (warnings_of outcome))

unfoldable pub map_error_kind : Error → Option ErrorKind
map_error_kind Error.not_started = some ErrorKind.not_started
map_error_kind Error.already_running = some ErrorKind.already_running
map_error_kind (Error.revision_conflict expected actual) = some ErrorKind.revision_conflict
map_error_kind (Error.manager_quarantined epoch reason) = some ErrorKind.quarantined
map_error_kind (Error.config_check_failed e) = some ErrorKind.config_check_failed
map_error_kind (Error.config_not_found e) = some ErrorKind.config_not_found
map_error_kind (Error.binary_not_found e) = some ErrorKind.binary_not_found
map_error_kind (Error.invalid_config e) = some ErrorKind.invalid_config
map_error_kind (Error.yaml e) = some ErrorKind.invalid_config
map_error_kind Error.controller_missing = some ErrorKind.controller_missing
map_error_kind (Error.apply_failed e) = some ErrorKind.apply_failed
map_error_kind (Error.apply_rollback_failed e f) = some ErrorKind.apply_rollback_failed
map_error_kind (Error.stop_unconfirmed e) = some ErrorKind.stop_unconfirmed
map_error_kind (Error.durability_uncertain source warning) = map_error_kind source
map_error_kind other = none

abbrev pub mapped {ℓ κ} : {A : Type ℓ} {B : Type κ} → (A → B) → Option A → Option B
mapped f none = none
mapped f (some a) = some (f a)

unfoldable pub project_core_infos :
    (Text → Text) → {T : Type 0} → CoreStatus → Option T → CoreInfos T
unfolding map_controller map_health map_revision map_core_state map_state_detail
project_core_infos strip status requested_core = record {
  core_type = requested_core;
  state = map_core_state status.state;
  state_changed_at = status.changed_at;
  config_path = mapped (λ spec. spec.config_path) status.spec;
  controller = elim (status.controller) [ some host ↦ map_controller strip host | none ↦ none ];
  health = mapped map_health status.health;
  revision = mapped map_revision status.revision;
  detail = map_state_detail status.state;
}
