-- ===== src/Manager/Runs/Owned.antt =====
-- No process escapes over a run of the manager's operations.
use nyanpasu_service.Prelude.{ℕ, ◌≡◌, refl, Option, none, some, List, [], ◌∷◌, subst}
use nyanpasu_service.Text.{Text}
use nyanpasu_service.Error.{Error}
use nyanpasu_service.State.{InstanceStatus}
use nyanpasu_service.Manager.Ctrl.{Active, Manager}
use nyanpasu_service.Manager.Ownership.{is_current, Safe, IsOwned}
use nyanpasu_service.Manager.Quarantine.Uncertain.{recover_quarantine-IsOwned}
use nyanpasu_service.Manager.Lifecycle.Owned.{start-IsOwned}
use nyanpasu_service.Manager.Stopping.Owned.{stop-IsOwned, shutdown-IsOwned}
use nyanpasu_service.Manager.Switching.Owned.{switch-IsOwned, restart-IsOwned}
use nyanpasu_service.Manager.Apply.Owned.{apply_config-IsOwned}
use nyanpasu_service.Manager.Runs.{Operation, forward_to, perform, run}

module _ (render : Error → Text) where
  forward_to-IsOwned :
      (m : Manager) (status : InstanceStatus) (now : ℕ) (current : Option Active)
      → m.current ≡ current
      → IsOwned m
      → IsOwned (forward_to m status now current)
  unfolding forward_to is_current
  forward_to-IsOwned m status now none c h = h
  forward_to-IsOwned m status now (some active) c h = subst (λ c'. Safe c' m.quarantine m.live) c h

  perform-IsOwned : (m : Manager) (o : Operation) → IsOwned m → IsOwned (perform render m o)
  unfolding perform
  perform-IsOwned m (Operation.start_with a) h = start-IsOwned render m a h
  perform-IsOwned m (Operation.stop_with a) h = stop-IsOwned render m a h
  perform-IsOwned m (Operation.shutdown_with a) h = shutdown-IsOwned render m a h
  perform-IsOwned m (Operation.switch_with a) h = switch-IsOwned render m a h
  perform-IsOwned m (Operation.restart_with a) h = restart-IsOwned render m a h
  perform-IsOwned m (Operation.apply_with a) h = apply_config-IsOwned render m a h
  perform-IsOwned m (Operation.recover_with r now) h =
      (recover_quarantine-IsOwned render r m now h).0
  perform-IsOwned m (Operation.forward_status status now) h =
      forward_to-IsOwned m status now m.current refl h

  -- No process escapes the manager: from a state in which every epoch that may be alive is the
  -- current one or quarantined, and no quarantined epoch of proven death is alive, any sequence of
  -- starts, stops, shutdowns, switches, restarts, applied configurations, recoveries and forwarded
  -- status changes leads to such a state, whatever the supervisor, the reaper, the probes, the
  -- controller and the file system answer. An epoch is current where the current instance and its
  -- revision are both of it.
  pub run-IsOwned : (m : Manager) (os : List Operation) → IsOwned m → IsOwned (run render m os)
  unfolding run
  run-IsOwned m [] h = h
  run-IsOwned m (o ∷ os) h = run-IsOwned (perform render m o) os (perform-IsOwned m o h)
