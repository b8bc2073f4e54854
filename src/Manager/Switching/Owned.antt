-- ===== src/Manager/Switching/Owned.antt =====
-- A switch loses no process, hard or graceful, wherever it fails.
mod Hard
mod Graceful
use nyanpasu_service.Prelude.{
  ℕ, ◌≡◌, refl, sym, ap, arith, Bool, true, false, Option, none, some, ◌∷◌, subst, Bool-cases, inl,
  inr,
}
use nyanpasu_service.Text.{Text}
use nyanpasu_service.Error.{Error, Result, ok, err, ◌>>=◌}
use nyanpasu_service.State.{InstanceState, InstanceStatus, CoreState, is_terminal}
use nyanpasu_service.Spec.{InstanceSpec}
use nyanpasu_service.Instance.Stop.{stop_and_confirm_dead}
use nyanpasu_service.Instance.Stop.Confirmed.{Verdict, stop-Verdict}
use nyanpasu_service.Manager.Ctrl.{Active, Manager, without}
use nyanpasu_service.Manager.Quarantine.{
  record_quarantine, reject_quarantine, publish_terminal_error,
}
use nyanpasu_service.Manager.Ownership.{
  Fresh, IsFresh, IsOwned, Holds-of, Holds-Safe, gate-Fresh, latch-Holds, Fresh-dead, Fresh-latch,
  Fresh-new, Fresh-gone, Fresh-record, Fresh-same, Fresh-handover,
}
use nyanpasu_service.Manager.Launch.{
  PreparedLaunch, next_epoch, launch_for, is_unconfirmed, publish_launch, latch_if_unconfirmed,
  cleaned,
}
use nyanpasu_service.Manager.Launch.Owned.{
  republish-Holds, install-IsFresh, Replaced, spawn_replacement-Replaced,
  latch_if_unconfirmed-Holds, refuted,
}
use nyanpasu_service.Manager.Lifecycle.{start_locked, stale_stopped}
use nyanpasu_service.Manager.Lifecycle.Owned.{
  start_prepared-IsFresh, start_locked-IsFresh, stale_stopped-IsFresh,
}
use nyanpasu_service.Manager.Switching.{
  DegradeReason, SwitchOutcome, Switch, hard_outcome, abandoned, discarded, hard_cleaned,
  hard_stopped, hard_prepared, hard_switch, replaced, unreconciled, committed, uncommitted,
  with_warning, commit_answered, old_unstopped, old_stopped, bootstrap_rejected, bootstrapped,
  graceful_spawned, graceful_prepared, graceful_switch, by_reason, running_switch, switch_over,
  switch_locked, switch_admitted, switch, restart_last, restart_admitted, restart,
}
use nyanpasu_service.Manager.Switching.Owned.Hard.{
  abandoned-IsFresh, hard_outcome-IsFresh, uncertain-IsFresh, hard_prepared-IsFresh,
}
use nyanpasu_service.Manager.Switching.Owned.Graceful.{graceful_prepared-IsFresh}

module _ (render : Error → Text) where
  by_reason-IsFresh :
      (m : Manager) (a : Switch) (old : Active) (reason : Option DegradeReason)
      → m.current ≡ some old
      → IsFresh m
      → IsFresh ((by_reason render m a old reason).0)
  unfolding by_reason hard_switch graceful_switch
  by_reason-IsFresh m a old (some reason) c h =
      hard_outcome-IsFresh reason (hard_switch render m a old) (
        hard_prepared-IsFresh render _ a old (next_epoch m.epoch) (a.prepare (next_epoch m.epoch)) c
          h)
  by_reason-IsFresh m a old none c h =
      graceful_prepared-IsFresh render _ a old (next_epoch m.epoch) (a.prepare (next_epoch m.epoch))
        c h

  running_switch-IsFresh :
      (m : Manager) (a : Switch) (old : Active) (r : Result Bool)
      → m.current ≡ some old
      → IsFresh m
      → IsFresh ((running_switch render m a old r).0)
  unfolding running_switch
  running_switch-IsFresh m a old (err e) c h = h
  running_switch-IsFresh m a old (ok local_controller) c h = by_reason-IsFresh m a old _ c h

  switch_over-IsFresh :
      (m : Manager) (a : Switch) (current : Option Active)
      → m.current ≡ current
      → IsFresh m
      → IsFresh ((switch_over render m a current).0)
  unfolding switch_over
  switch_over-IsFresh m a none c h =
      hard_outcome-IsFresh _ (start_locked render m a.start)
        (start_locked-IsFresh render m a.start c h)
  switch_over-IsFresh m a (some active) c h =
      elim (Bool-cases (is_terminal active.instance_of.status.state)) [
        | inl t ↦ rw t (
            hard_outcome-IsFresh DegradeReason.not_running
              (stale_stopped render (record m { current = none }) a.start active.instance_of.epoch
                (stop_and_confirm_dead render active.instance_of.status.state a.start.stale_stop))
              (stale_stopped-IsFresh render m a.start active active.instance_of.status.state
                (stop_and_confirm_dead render active.instance_of.status.state a.start.stale_stop)
                (stop-Verdict render active.instance_of.status.state a.start.stale_stop)
                (Holds-of Fresh m _ c h)))
        | inr t ↦ rw t (
            running_switch-IsFresh m a active
              (a.load >>= (λ l. a.launchable >>= (λ k. a.local_controller))) c h)
      ]

  pub switch_locked-IsFresh :
      (m : Manager) (a : Switch) → IsFresh m → IsFresh ((switch_locked render m a).0)
  unfolding switch_locked
  switch_locked-IsFresh m a h = switch_over-IsFresh m a m.current refl h

  switch_admitted-IsOwned :
      (m : Manager) (a : Switch) (r : Result (Unit {0}))
      → reject_quarantine m.quarantine ≡ r
      → IsOwned m
      → IsOwned ((switch_admitted render m a r).0)
  unfolding switch_admitted
  switch_admitted-IsOwned m a (err e) g h = h
  switch_admitted-IsOwned m a (ok done) g h =
      Holds-Safe ((switch_locked render m a).0) (switch_locked-IsFresh m a (gate-Fresh m g h))

  pub switch-IsOwned : (m : Manager) (a : Switch) → IsOwned m → IsOwned ((switch render m a).0)
  unfolding switch
  switch-IsOwned m a h = switch_admitted-IsOwned m a (reject_quarantine m.quarantine) refl h

  restart_last-IsFresh :
      (m : Manager) (a : Switch) (spec : Option InstanceSpec)
      → IsFresh m
      → IsFresh ((restart_last render m a spec).0)
  unfolding restart_last
  restart_last-IsFresh m a none h = h
  restart_last-IsFresh m a (some spec) h = switch_locked-IsFresh m a h

  restart_admitted-IsOwned :
      (m : Manager) (a : Switch) (r : Result (Unit {0}))
      → reject_quarantine m.quarantine ≡ r
      → IsOwned m
      → IsOwned ((restart_admitted render m a r).0)
  unfolding restart_admitted
  restart_admitted-IsOwned m a (err e) g h = h
  restart_admitted-IsOwned m a (ok done) g h =
      Holds-Safe ((restart_last render m a m.last_spec).0)
        (restart_last-IsFresh m a m.last_spec (gate-Fresh m g h))

  pub restart-IsOwned : (m : Manager) (a : Switch) → IsOwned m → IsOwned ((restart render m a).0)
  unfolding restart
  restart-IsOwned m a h = restart_admitted-IsOwned m a (reject_quarantine m.quarantine) refl h
