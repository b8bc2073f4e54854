-- ===== src/Manager/Lifecycle/Owned.antt =====
-- A start loses no process.
use nyanpasu_service.Prelude.{
  ℕ, ◌≡◌, refl, not, Option, none, some, ◌∷◌, subst, Bool-cases, inl, inr,
}
use nyanpasu_service.Text.{Text}
use nyanpasu_service.Error.{Error, Result, ok, err}
use nyanpasu_service.State.{InstanceState, InstanceStatus, is_terminal}
use nyanpasu_service.Instance.Stop.{stop_and_confirm_dead}
use nyanpasu_service.Instance.Stop.Confirmed.{Verdict, stop-Verdict}
use nyanpasu_service.Manager.Ctrl.{Active, Manager}
use nyanpasu_service.Manager.Quarantine.{reject_quarantine, publish_terminal_error}
use nyanpasu_service.Manager.Ownership.{
  Fresh, IsFresh, IsOwned, Holds-of, Holds-Safe, gate-Fresh, latch-Holds, Fresh-dead, Fresh-latch,
  Fresh-new, Fresh-gone,
}
use nyanpasu_service.Manager.Launch.{PreparedLaunch, next_epoch, launch_for, publish_launch}
use nyanpasu_service.Manager.Launch.Owned.{
  install-IsFresh, Fresh-of_epoch, latch_if_unconfirmed-Holds, refuted,
}
use nyanpasu_service.Manager.Lifecycle.{
  Start, rejected, spawned, spawn_instance, start_prepared, prepared, loaded, start_locked,
  stale_cleaned, stale_stopped, start_over, admitted, start,
}

module _ (render : Error → Text) where
  rejected-IsFresh :
      (m : Manager) (a : Start) (epoch : ℕ) (not_ready : Error) (r : Result (Unit {0}))
      → IsFresh m
      → IsFresh ((rejected render (record m { live = epoch ∷ m.live }) a epoch not_ready r).0)
  unfolding rejected publish_terminal_error
  rejected-IsFresh m a epoch not_ready (ok done) h =
      Fresh-gone m.current m.quarantine epoch m.live h
  rejected-IsFresh m a epoch not_ready (err stop_error) h =
      latch-Holds render Fresh (record m { live = epoch ∷ m.live }) epoch _ a.now
        (Fresh-new m.current m.quarantine epoch _ m.live h)

  spawned-IsFresh :
      (m : Manager) (a : Start) (p : PreparedLaunch) (ready : Result InstanceStatus)
      → m.current ≡ none
      → IsFresh m
      → IsFresh ((spawned render (record m { live = p.revision.epoch ∷ m.live }) a p ready).0)
  unfolding spawned
  spawned-IsFresh m a p (ok status) c h =
      install-IsFresh (record m { live = p.revision.epoch ∷ m.live }) p.revision.epoch p status
        a.now refl (Fresh-of_epoch m.quarantine p.revision.epoch m.live (Holds-of Fresh m none c h))
  spawned-IsFresh m a p (err not_ready) c h =
      rejected-IsFresh m a p.revision.epoch not_ready
        (stop_and_confirm_dead render a.rejected_state a.rejected_stop) h

  spawn_instance-IsFresh :
      (m : Manager) (a : Start) (p : PreparedLaunch) (spawn : Result (Unit {0}))
      → m.current ≡ none
      → IsFresh m
      → IsFresh ((spawn_instance render m a p spawn).0)
  unfolding spawn_instance publish_terminal_error
  spawn_instance-IsFresh m a p (err e) c h = h
  spawn_instance-IsFresh m a p (ok done) c h = spawned-IsFresh m a p a.ready c h

  pub start_prepared-IsFresh :
      (m : Manager) (a : Start) (p : PreparedLaunch)
      → m.current ≡ none
      → IsFresh m
      → IsFresh ((start_prepared render m a p).0)
  unfolding start_prepared publish_launch
  start_prepared-IsFresh m a p c h = spawn_instance-IsFresh _ a p a.spawn c h

  prepared-IsFresh :
      (m : Manager) (a : Start) (epoch : ℕ) (r : Result PreparedLaunch)
      → m.current ≡ none
      → IsFresh m
      → IsFresh ((prepared render m a epoch r).0)
  unfolding prepared publish_terminal_error
  prepared-IsFresh m a epoch (err e) c h = h
  prepared-IsFresh m a epoch (ok p) c h = start_prepared-IsFresh m a (launch_for epoch p) c h

  loaded-IsFresh :
      (m : Manager) (a : Start) (epoch : ℕ) (r : Result (Unit {0}))
      → m.current ≡ none
      → IsFresh m
      → IsFresh ((loaded render m a epoch r).0)
  unfolding loaded publish_terminal_error
  loaded-IsFresh m a epoch (err e) c h = h
  loaded-IsFresh m a epoch (ok done) c h = prepared-IsFresh _ a epoch (a.prepare epoch) c h

  pub start_locked-IsFresh :
      (m : Manager) (a : Start)
      → m.current ≡ none
      → IsFresh m
      → IsFresh ((start_locked render m a).0)
  unfolding start_locked
  start_locked-IsFresh m a c h = loaded-IsFresh _ a (next_epoch m.epoch) a.load c h

  stale_cleaned-IsFresh :
      (m : Manager) (a : Start) (epoch : ℕ) (r : Result (Unit {0}))
      → m.current ≡ none
      → IsFresh m
      → IsFresh ((stale_cleaned render m a epoch r).0)
  unfolding stale_cleaned
  stale_cleaned-IsFresh m a epoch (err e) c h = h
  stale_cleaned-IsFresh m a epoch (ok done) c h = start_locked-IsFresh _ a c h

  pub stale_stopped-IsFresh :
      (m : Manager) (a : Start) (active : Active) (before : InstanceState) (r : Result (Unit {0}))
      → Verdict before a.stale_stop r
      → Fresh (some active) m.quarantine m.live
      → IsFresh
          ((stale_stopped render (record m { current = none }) a active.instance_of.epoch r).0)
  unfolding stale_stopped
  stale_stopped-IsFresh m a active before (err e) v h =
      latch_if_unconfirmed-Holds render Fresh (record m { current = none }) active.instance_of.epoch
        e a.now _ (Fresh-latch active m.quarantine _ m.live h)
        (refuted render before a.stale_stop e v)
  stale_stopped-IsFresh m a active before (ok done) v h =
      stale_cleaned-IsFresh _ a active.instance_of.epoch a.stale_cleanup refl
        (Fresh-dead active m.quarantine m.live h)

  start_over-IsFresh :
      (m : Manager) (a : Start) (current : Option Active)
      → m.current ≡ current
      → IsFresh m
      → IsFresh ((start_over render m a current).0)
  unfolding start_over
  start_over-IsFresh m a none c h = start_locked-IsFresh m a c h
  start_over-IsFresh m a (some stale) c h =
      elim (Bool-cases (not (is_terminal stale.instance_of.status.state))) [
        | inl t ↦ rw t h
        | inr t ↦ rw t (
            stale_stopped-IsFresh m a stale stale.instance_of.status.state
              (stop_and_confirm_dead render stale.instance_of.status.state a.stale_stop)
              (stop-Verdict render stale.instance_of.status.state a.stale_stop)
              (subst (λ c'. Fresh c' m.quarantine m.live) c h))
      ]

  admitted-IsOwned :
      (m : Manager) (a : Start) (r : Result (Unit {0}))
      → reject_quarantine m.quarantine ≡ r
      → IsOwned m
      → IsOwned ((admitted render m a r).0)
  unfolding admitted
  admitted-IsOwned m a (err e) g h = h
  admitted-IsOwned m a (ok done) g h =
      Holds-Safe ((start_over render m a m.current).0)
        (start_over-IsFresh m a m.current refl (gate-Fresh m g h))

  pub start-IsOwned : (m : Manager) (a : Start) → IsOwned m → IsOwned ((start render m a).0)
  unfolding start
  start-IsOwned m a h = admitted-IsOwned m a (reject_quarantine m.quarantine) refl h
