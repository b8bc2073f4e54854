-- ===== src/Manager/Runs.antt =====
-- Runs of the manager: its operations under the control lock, one after the other, with the status
-- changes that the forwarder (`spawn_forwarder` of crates/nyanpasu-core-manager/src/manager/mod.rs)
-- hands on in between.
pub mod Owned
mod Tests
use nyanpasu_service.Prelude.{
  ℕ, ◌+◌, Bool, true, false, not, Option, none, some, List, [], ◌∷◌, ◌++◌, if◌then◌else◌,
}
use nyanpasu_service.Text.{Text, bytes}
use nyanpasu_service.Error.{Error, Result, ok, err, already_running, not_started, stop_unconfirmed}
use nyanpasu_service.State.{
  CoreState, StopReason, InstanceState, InstanceStatus, is_terminal, Feature, RuntimeFeature,
  ConfigRevision, Host,
}
use nyanpasu_service.Spec.{InstanceSpec}
use nyanpasu_service.Instance.Stop.{Answers, stop_and_confirm_dead}
use nyanpasu_service.Manager.Publish.{
  apply_epoch_status, publish, publish_instance, spec_summary, instance_core_state,
}
use nyanpasu_service.Manager.Ctrl.{QuarantinedEpoch, Instance, Active, Manager, without}
use nyanpasu_service.Manager.Quarantine.{Recovery, recover_quarantine}
use nyanpasu_service.Manager.Lifecycle.{Start, start}
use nyanpasu_service.Manager.Stopping.{Stop, stop, shutdown}
use nyanpasu_service.Manager.Switching.{Switch, switch, restart}
use nyanpasu_service.Manager.Apply.{Apply, apply_config}

-- `spawn_forwarder`: the current instance's status changes, and the change is published.
forward_to : Manager → InstanceStatus → ℕ → Option Active → Manager
forward_to m status now none = m
forward_to m status now (some active) = record m {
  current = some (record active { instance_of = record (active.instance_of) { status = status } });
  status = (apply_epoch_status m.status active.instance_of.epoch status now).0;
}

pub data Operation : Type 0 where
  start_with : Start → Operation
  stop_with : Stop → Operation
  shutdown_with : Stop → Operation
  switch_with restart_with : Switch → Operation
  apply_with : Apply → Operation
  recover_with : Recovery → ℕ → Operation
  forward_status : InstanceStatus → ℕ → Operation

unfoldable pub perform : (Error → Text) → Manager → Operation → Manager
unfolding forward_to
perform render m (Operation.start_with a) = (start render m a).0
perform render m (Operation.stop_with a) = (stop render m a).0
perform render m (Operation.shutdown_with a) = (shutdown render m a).0
perform render m (Operation.switch_with a) = (switch render m a).0
perform render m (Operation.restart_with a) = (restart render m a).0
perform render m (Operation.apply_with a) = (apply_config render m a).0
perform render m (Operation.recover_with r now) = (recover_quarantine render m r now).0
perform render m (Operation.forward_status status now) = forward_to m status now m.current

unfoldable pub run : (Error → Text) → Manager → List Operation → Manager
unfolding perform
run render m [] = m
run render m (o ∷ os) = run render (perform render m o) os
