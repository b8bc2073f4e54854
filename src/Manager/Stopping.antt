-- ===== src/Manager/Stopping.antt =====
-- `CoreManager::stop` and `shutdown` of crates/nyanpasu-core-manager/src/manager/mod.rs under the
-- control lock, with a record of the answers met.
pub mod Owned
use nyanpasu_service.Prelude.{
  ℕ, ◌+◌, Bool, true, false, not, Option, none, some, List, [], ◌∷◌, ◌++◌, if◌then◌else◌,
}
use nyanpasu_service.Text.{Text, bytes}
use nyanpasu_service.Error.{Error, Result, ok, err, already_running, not_started, stop_unconfirmed}
use nyanpasu_service.State.{
  CoreState, StopReason, InstanceState, InstanceStatus, is_terminal, Feature, RuntimeFeature,
  ConfigRevision, Host,
}
use nyanpasu_service.Spec.{InstanceSpec}
use nyanpasu_service.Instance.Stop.{Answers, stop_and_confirm_dead}
use nyanpasu_service.Manager.Publish.{
  apply_epoch_status, publish, publish_instance, spec_summary, instance_core_state,
}
use nyanpasu_service.Manager.Ctrl.{QuarantinedEpoch, Instance, Active, Manager, without}
use nyanpasu_service.Manager.Quarantine.{
  reject_quarantine, latch_quarantine, publish_terminal_error,
}
use nyanpasu_service.Manager.Launch.{
  PreparedLaunch, next_epoch, cleaned, pid_of, is_unconfirmed, install_switched, publish_launch,
  latch_if_unconfirmed,
}

pub record Stop : Type 0 where
  pub now : ℕ
  pub stop : Answers
  pub cleanup : Result (Unit {0})

module _ (render : Error → Text) where
  -- The clean-up behind a confirmed stop; `after` is the snapshot and the verdict where it succeeds.
  stop_cleaned :
      Manager
      → Stop
      → ℕ
      → Manager × Result (Unit {0})
      → Result (Unit {0})
      → Manager × Result (Unit {0})
  stop_cleaned m a epoch after (ok done) =
      (record (after.0) { artifacts = without epoch m.artifacts }, after.1)
  stop_cleaned m a epoch after (err e) = (publish_terminal_error render m e a.now, err e)

  -- The stop of an instance that was terminal already.
  terminal_stopped : Manager → Stop → ℕ → Result (Unit {0}) → Manager × Result (Unit {0})
  unfolding stop_cleaned
  terminal_stopped m a epoch (err e) = (latch_if_unconfirmed render m epoch e a.now m, err e)
  terminal_stopped m a epoch (ok done) =
      let dead = record m { live = without epoch m.live } in
      stop_cleaned dead a epoch (dead, err not_started) a.cleanup

  active_stopped : Manager → Stop → ℕ → Result (Unit {0}) → Manager × Result (Unit {0})
  unfolding stop_cleaned
  active_stopped m a epoch (err e) =
      (latch_if_unconfirmed render m epoch e a.now (publish_terminal_error render m e a.now), err e)
  active_stopped m a epoch (ok done) =
      let dead = record m { live = without epoch m.live } in
      let user = CoreState.stopped (some StopReason.user) in
      stop_cleaned dead a epoch
        (record dead { status = publish dead.status user none none none a.now }, ok tt) a.cleanup

  -- The snapshot with which a stop begins, for the state given.
  announced : Manager → Active → CoreState → ℕ → Manager
  announced m active state now =
      let summary = spec_summary active.source_spec active.capabilities active.runtime_features in
      record m {
        current = none;
        status =
            publish m.status state (some summary) (some active.instance_of.host)
              (some active.revision) now;
      }

  stop_active : Manager → Stop → Active → Manager × Result (Unit {0})
  unfolding active_stopped announced
  stop_active m a active =
      let epoch = active.instance_of.epoch in
      active_stopped (announced m active (CoreState.stopping epoch) a.now) a epoch
        (stop_and_confirm_dead render active.instance_of.status.state a.stop)

  stop_taken : Manager → Stop → Option Active → Manager × Result (Unit {0})
  unfolding terminal_stopped stop_active announced
  stop_taken m a none = (m, err not_started)
  stop_taken m a (some active) =
      let epoch = active.instance_of.epoch in
      let state = active.instance_of.status.state in
      if is_terminal state
      then terminal_stopped (announced m active (instance_core_state epoch state) a.now) a epoch
          (stop_and_confirm_dead render state a.stop)
      else stop_active m a active

  unfoldable pub stop : Manager → Stop → Manager × Result (Unit {0})
  unfolding stop_taken
  stop m a = stop_taken m a m.current

  shutdown_taken : Manager → Stop → Option Active → Manager × Result (Unit {0})
  unfolding stop_active
  shutdown_taken m a none = (m, ok tt)
  shutdown_taken m a (some active) = stop_active m a active

  -- The sink of the logs ends last, whatever came before.
  unfoldable pub shutdown : Manager → Stop → Manager × Result (Unit {0})
  unfolding shutdown_taken
  shutdown m a =
      let (after, result) = shutdown_taken m a m.current in
      (record after { log_sink = false }, result)
