-- ===== src/Manager/Lifecycle.antt =====
-- `CoreManager::start` of crates/nyanpasu-core-manager/src/manager/mod.rs under the control lock.
-- What the call meets outside (loading and preparing the launch, spawning, readiness, the stop of
-- an instance, clean-up) is answered by a record; the stop itself is `stop_and_confirm_dead`.
pub mod Owned
use nyanpasu_service.Prelude.{
  ℕ, ◌+◌, Bool, true, false, not, Option, none, some, List, [], ◌∷◌, ◌++◌, if◌then◌else◌,
}
use nyanpasu_service.Text.{Text, bytes}
use nyanpasu_service.Error.{Error, Result, ok, err, already_running, not_started, stop_unconfirmed}
use nyanpasu_service.State.{
  CoreState, StopReason, InstanceState, InstanceStatus, is_terminal, Feature, RuntimeFeature,
  ConfigRevision, Host,
}
use nyanpasu_service.Spec.{InstanceSpec}
use nyanpasu_service.Instance.Stop.{Answers, stop_and_confirm_dead}
use nyanpasu_service.Manager.Publish.{
  apply_epoch_status, publish, publish_instance, spec_summary, instance_core_state,
}
use nyanpasu_service.Manager.Ctrl.{QuarantinedEpoch, Instance, Active, Manager, without}
use nyanpasu_service.Manager.Quarantine.{
  reject_quarantine, latch_quarantine, publish_terminal_error,
}
use nyanpasu_service.Manager.Launch.{
  PreparedLaunch, next_epoch, launch_for, cleaned, pid_of, is_unconfirmed, install_switched,
  publish_launch, latch_if_unconfirmed,
}

-- The answers that a start meets. `prepare` is of `prepare_launch` for the epoch
-- given to it, less the epoch and the generation, which `launch_for` sets.
pub record Start : Type 0 where
  pub now : ℕ
  pub stale_stop : Answers
  pub stale_cleanup : Result (Unit {0})
  pub load : Result (Unit {0})
  pub prepare : ℕ → Result PreparedLaunch
  pub cleanup : Result (Unit {0})
  pub spawn : Result (Unit {0})
  pub ready : Result InstanceStatus
  pub rejected_state : InstanceState
  pub rejected_stop : Answers

module _ (render : Error → Text) where
  -- The instance did not become ready: it is stopped, or its epoch is quarantined.
  rejected : Manager → Start → ℕ → Error → Result (Unit {0}) → Manager × Result (Unit {0})
  rejected m a epoch not_ready (ok done) = (
    publish_terminal_error render
        (record m { artifacts = cleaned epoch a.cleanup m.artifacts; live = without epoch m.live })
        not_ready a.now,
    err not_ready,
  )
  rejected m a epoch not_ready (err stop_error) =
      let e = stop_unconfirmed (
        render not_ready
        ++ bytes "; failed to stop rejected initial instance: "
        ++ render stop_error) in
      (latch_quarantine render m epoch e a.now, err e)

  spawned : Manager → Start → PreparedLaunch → Result InstanceStatus → Manager × Result (Unit {0})
  unfolding rejected
  spawned m a p (ok status) = (install_switched m p.revision.epoch p status a.now, ok tt)
  spawned m a p (err not_ready) =
      rejected m a p.revision.epoch not_ready
        (stop_and_confirm_dead render a.rejected_state a.rejected_stop)

  -- A spawn that fails has started no process; one that succeeds has, until its death is confirmed.
  spawn_instance :
      Manager → Start → PreparedLaunch → Result (Unit {0}) → Manager × Result (Unit {0})
  unfolding spawned
  spawn_instance m a p (ok done) =
      spawned (record m { live = p.revision.epoch ∷ m.live }) a p a.ready
  spawn_instance m a p (err e) = (
    publish_terminal_error render
        (record m { artifacts = cleaned p.revision.epoch a.cleanup m.artifacts }) e a.now,
    err e,
  )

  pub start_prepared : Manager → Start → PreparedLaunch → Manager × Result (Unit {0})
  unfolding spawn_instance
  start_prepared m a p =
      let starting = publish_launch m (CoreState.starting p.revision.epoch) p a.now in
      spawn_instance starting a p a.spawn

  prepared : Manager → Start → ℕ → Result PreparedLaunch → Manager × Result (Unit {0})
  unfolding start_prepared
  prepared m a epoch (ok p) = start_prepared m a (launch_for epoch p)
  prepared m a epoch (err e) = (
    publish_terminal_error render (record m { artifacts = cleaned epoch a.cleanup m.artifacts }) e
        a.now,
    err e,
  )

  loaded : Manager → Start → ℕ → Result (Unit {0}) → Manager × Result (Unit {0})
  unfolding prepared
  loaded m a epoch (err e) = (publish_terminal_error render m e a.now, err e)
  loaded m a epoch (ok done) =
      prepared (record m { artifacts = epoch ∷ m.artifacts }) a epoch (a.prepare epoch)

  pub start_locked : Manager → Start → Manager × Result (Unit {0})
  unfolding loaded
  start_locked m a =
      let epoch = next_epoch m.epoch in loaded (record m { epoch = epoch }) a epoch a.load

  -- The clean-up behind the confirmed stop of a stale instance.
  stale_cleaned : Manager → Start → ℕ → Result (Unit {0}) → Manager × Result (Unit {0})
  unfolding start_locked
  stale_cleaned m a epoch (err e) = (m, err e)
  stale_cleaned m a epoch (ok done) =
      start_locked (record m { artifacts = without epoch m.artifacts }) a

  pub stale_stopped : Manager → Start → ℕ → Result (Unit {0}) → Manager × Result (Unit {0})
  unfolding stale_cleaned
  stale_stopped m a epoch (err e) = (latch_if_unconfirmed render m epoch e a.now m, err e)
  stale_stopped m a epoch (ok done) =
      stale_cleaned (record m { live = without epoch m.live }) a epoch a.stale_cleanup

  start_over : Manager → Start → Option Active → Manager × Result (Unit {0})
  unfolding stale_stopped start_locked
  start_over m a none = start_locked m a
  start_over m a (some stale) =
      if not (is_terminal stale.instance_of.status.state)
      then (m, err already_running)
      else stale_stopped (record m { current = none }) a stale.instance_of.epoch
          (stop_and_confirm_dead render stale.instance_of.status.state a.stale_stop)

  admitted : Manager → Start → Result (Unit {0}) → Manager × Result (Unit {0})
  unfolding start_over
  admitted m a (err e) = (m, err e)
  admitted m a (ok done) = start_over m a m.current

  unfoldable pub start : Manager → Start → Manager × Result (Unit {0})
  unfolding admitted
  start m a = admitted m a (reject_quarantine m.quarantine)
