-- ===== src/Manager/Publish/Tests.antt =====
-- A status change of the snapshot's own epoch.
use nyanpasu_service.Prelude.{◌≡◌, refl, none, some}
use nyanpasu_service.Text.{bytes}
use nyanpasu_service.State.{InstanceState, InstanceStatus, CoreState, CoreStatus}
use nyanpasu_service.Manager.Publish.{apply_epoch_status, instance_core_state}
use nyanpasu_service.Manager.Publish.Epochs.{IsApplied, apply_epoch_status-IsApplied}

abbrev shown : CoreStatus
shown = record {
  state = CoreState.starting 3;
  changed_at = 10;
  health = none;
  spec = none;
  controller = none;
  revision = some (record {
    epoch = 3;
    generation = 1;
    source_hash = bytes "a";
    effective_hash = bytes "b";
    runtime_path = bytes "/3.yaml";
  });
}

abbrev up : InstanceStatus
up = record { state = InstanceState.running 7; health = none }

becomes_running : (apply_epoch_status shown 3 up 20).0.state ≡ CoreState.running 3 7
unfolding instance_core_state
becomes_running = (apply_epoch_status-IsApplied shown 3 up 20).own_state refl

apply_epoch_status-IsApplied_example :
    IsApplied shown 3 up 20
      ((apply_epoch_status shown 3 up 20).0)
      ((apply_epoch_status shown 3 up 20).1)
apply_epoch_status-IsApplied_example = apply_epoch_status-IsApplied shown 3 up 20
