-- ===== src/Manager/Publish.antt =====
-- What the manager publishes on its watch channel: manager/publish.rs under
-- crates/nyanpasu-core-manager/src. `now` is the clock reading of the call.
mod Epochs
mod Tests
use mathlib.Core.Logic.{ite}
use nyanpasu_service.Prelude.{ℕ, Bool, true, false, Option, none, some, List, if◌then◌else◌, ◌==◌}
use nyanpasu_service.State.{
  HealthState, HealthState-discrete, HealthStatus, Health-discrete, InstanceState, InstanceStatus,
  CoreState, CoreState-discrete, Feature, RuntimeFeature, SpecSummary, ConfigRevision, Host,
  CoreStatus,
}
use nyanpasu_service.Spec.{InstanceSpec}

-- The health state that a lifecycle state stands for by default.
target_health : CoreState → Option HealthState
target_health (CoreState.starting epoch) = some HealthState.starting
target_health (CoreState.restarting epoch attempt) = some HealthState.starting
target_health (CoreState.switching from to) = some HealthState.starting
target_health (CoreState.running epoch pid) = some HealthState.healthy
target_health (CoreState.stopping epoch) = none
target_health (CoreState.stopped reason) = none

fresh_health : HealthState → ℕ → HealthStatus
fresh_health target now = record {
  state = target;
  changed_at = now;
  consecutive_failures = 0;
  last_error = none;
  last_success_at = none;
}

carry_health : Option HealthStatus → HealthState → ℕ → HealthStatus
unfolding fresh_health
carry_health none target now = fresh_health target now
carry_health (some previous) target now =
    ite (HealthState-discrete previous.state target) (record previous { state = target })
      (fresh_health target now)

pub default_health_for_state : Option HealthStatus → CoreState → ℕ → Option HealthStatus
unfolding target_health carry_health
default_health_for_state previous state now = elim (target_health state) [
  | none ↦ none
  | some target ↦ some (carry_health previous target now)
]

-- `status.changed_at`, renewed where the lifecycle state changes.
changed_at : CoreStatus → CoreState → ℕ → ℕ
changed_at status state now = ite (CoreState-discrete status.state state) status.changed_at now

-- `Inner::publish`
unfoldable pub publish :
    CoreStatus
    → CoreState
    → Option SpecSummary
    → Option Host
    → Option ConfigRevision
    → ℕ
    → CoreStatus
unfolding changed_at
publish status state spec controller revision now = record {
  state = state;
  changed_at = changed_at status state now;
  health = default_health_for_state status.health state now;
  spec = spec;
  controller = controller;
  revision = revision;
}

-- `spec_summary`
unfoldable pub spec_summary : InstanceSpec → List Feature → List RuntimeFeature → SpecSummary
spec_summary spec capabilities runtime_features = record {
  kind = spec.core.kind;
  config_path = spec.config_path;
  capabilities = capabilities;
  runtime_features = runtime_features;
}

-- `Inner::publish_instance`, over the instance's health and controller host.
unfoldable pub publish_instance :
    CoreStatus
    → Option HealthStatus
    → Host
    → CoreState
    → SpecSummary
    → ConfigRevision
    → ℕ
    → CoreStatus
unfolding changed_at
publish_instance status health host state summary revision now = record {
  state = state;
  changed_at = changed_at status state now;
  health = health;
  spec = some summary;
  controller = some host;
  revision = some revision;
}

unfoldable pub instance_core_state : ℕ → InstanceState → CoreState
instance_core_state epoch InstanceState.starting = CoreState.starting epoch
instance_core_state epoch (InstanceState.running pid) = CoreState.running epoch pid
instance_core_state epoch (InstanceState.restarting attempt) = CoreState.restarting epoch attempt
instance_core_state epoch InstanceState.stopping = CoreState.stopping epoch
instance_core_state epoch (InstanceState.stopped reason) = CoreState.stopped (some reason)

abbrev of_epoch : Option ConfigRevision → ℕ → Bool
of_epoch none epoch = false
of_epoch (some revision) epoch = revision.epoch == epoch

-- The rest of `apply_epoch_status`, for a status of the snapshot's own epoch.
apply_own_epoch : CoreStatus → CoreState → InstanceStatus → ℕ → CoreStatus × Bool
unfolding changed_at
apply_own_epoch status state instance_status now =
    let next = record status {
      state = state;
      health = instance_status.health;
      changed_at = changed_at status state now;
    } in
    ite (CoreState-discrete status.state state)
      (ite (Health-discrete status.health instance_status.health) (status, false) (next, true))
      (next, true)

-- `apply_epoch_status`: the new snapshot, and whether it was modified.
pub apply_epoch_status : CoreStatus → ℕ → InstanceStatus → ℕ → CoreStatus × Bool
unfolding apply_own_epoch
apply_epoch_status status epoch instance_status now =
    if of_epoch status.revision epoch
    then apply_own_epoch status (instance_core_state epoch instance_status.state) instance_status
        now
    else (status, false)
