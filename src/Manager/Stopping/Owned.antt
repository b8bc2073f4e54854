-- ===== src/Manager/Stopping/Owned.antt =====
-- A stop and a shutdown lose no process.
use nyanpasu_service.Prelude.{ℕ, ◌≡◌, refl, Option, none, some, subst, Bool-cases, inl, inr}
use nyanpasu_service.Text.{Text}
use nyanpasu_service.Error.{Error, Result, ok, err, not_started}
use nyanpasu_service.State.{CoreState, StopReason, InstanceState, is_terminal}
use nyanpasu_service.Instance.Stop.{stop_and_confirm_dead}
use nyanpasu_service.Instance.Stop.Confirmed.{Verdict, stop-Verdict}
use nyanpasu_service.Manager.Publish.{publish, instance_core_state}
use nyanpasu_service.Manager.Ctrl.{Active, Manager, without}
use nyanpasu_service.Manager.Quarantine.{publish_terminal_error}
use nyanpasu_service.Manager.Stopping.{
  Stop, stop_cleaned, terminal_stopped, active_stopped, announced, stop_active, stop_taken, stop,
  shutdown_taken, shutdown,
}
use nyanpasu_service.Manager.Ownership.{Safe, IsOwned, Safe-dead, Safe-latch}
use nyanpasu_service.Manager.Launch.Owned.{latch_if_unconfirmed-Holds, refuted}

module _ (render : Error → Text) where
  stop_cleaned-IsOwned :
      (m : Manager) (a : Stop) (epoch : ℕ) (after : Manager × Result (Unit {0}))
      (r : Result (Unit {0}))
      → IsOwned m
      → IsOwned (after.0)
      → IsOwned ((stop_cleaned render m a epoch after r).0)
  unfolding stop_cleaned publish_terminal_error
  stop_cleaned-IsOwned m a epoch after (ok done) h k = k
  stop_cleaned-IsOwned m a epoch after (err e) h k = h

  terminal_stopped-IsOwned :
      (m : Manager) (a : Stop) (active : Active) (before : InstanceState) (r : Result (Unit {0}))
      → Verdict before a.stop r
      → Safe (some active) m.quarantine m.live
      → IsOwned
          ((terminal_stopped render (record m { current = none }) a active.instance_of.epoch r).0)
  unfolding terminal_stopped
  terminal_stopped-IsOwned m a active before (err e) v h =
      latch_if_unconfirmed-Holds render Safe (record m { current = none }) active.instance_of.epoch
        e a.now _ (Safe-latch active m.quarantine _ m.live h) (refuted render before a.stop e v)
  terminal_stopped-IsOwned m a active before (ok done) v h =
      let dead = Safe-dead active m.quarantine m.live h in
      let gone = record m { current = none; live = without active.instance_of.epoch m.live } in
      stop_cleaned-IsOwned gone a active.instance_of.epoch (gone, err not_started) a.cleanup dead
        dead

  active_stopped-IsOwned :
      (m : Manager) (a : Stop) (active : Active) (before : InstanceState) (r : Result (Unit {0}))
      → Verdict before a.stop r
      → Safe (some active) m.quarantine m.live
      → IsOwned
          ((active_stopped render (record m { current = none }) a active.instance_of.epoch r).0)
  unfolding active_stopped
  active_stopped-IsOwned m a active before (err e) v h =
      latch_if_unconfirmed-Holds render Safe (record m { current = none }) active.instance_of.epoch
        e a.now _ (Safe-latch active m.quarantine _ m.live h) (refuted render before a.stop e v)
  active_stopped-IsOwned m a active before (ok done) v h =
      let dead = Safe-dead active m.quarantine m.live h in
      let gone = record m { current = none; live = without active.instance_of.epoch m.live } in
      let user = CoreState.stopped (some StopReason.user) in
      stop_cleaned-IsOwned gone a active.instance_of.epoch
        (record gone { status = publish gone.status user none none none a.now }, ok tt) a.cleanup
        dead dead

  stop_active-IsOwned :
      (m : Manager) (a : Stop) (active : Active)
      → Safe (some active) m.quarantine m.live
      → IsOwned ((stop_active render m a active).0)
  unfolding stop_active announced
  stop_active-IsOwned m a active h =
      active_stopped-IsOwned
        (announced render m active (CoreState.stopping active.instance_of.epoch) a.now) a active
        active.instance_of.status.state
        (stop_and_confirm_dead render active.instance_of.status.state a.stop)
        (stop-Verdict render active.instance_of.status.state a.stop) h

  stop_taken-IsOwned :
      (m : Manager) (a : Stop) (current : Option Active)
      → m.current ≡ current
      → IsOwned m
      → IsOwned ((stop_taken render m a current).0)
  unfolding stop_taken announced
  stop_taken-IsOwned m a none c h = h
  stop_taken-IsOwned m a (some active) c h =
      let held = subst (λ c'. Safe c' m.quarantine m.live) c h in
      let state = active.instance_of.status.state in
      elim (Bool-cases (is_terminal state)) [
        | inl t ↦ rw t (
            terminal_stopped-IsOwned
              (announced render m active (instance_core_state active.instance_of.epoch state) a.now)
              a active state (stop_and_confirm_dead render state a.stop)
              (stop-Verdict render state a.stop) held)
        | inr t ↦ rw t (stop_active-IsOwned m a active held)
      ]

  shutdown_taken-IsOwned :
      (m : Manager) (a : Stop) (current : Option Active)
      → m.current ≡ current
      → IsOwned m
      → IsOwned ((shutdown_taken render m a current).0)
  unfolding shutdown_taken
  shutdown_taken-IsOwned m a none c h = h
  shutdown_taken-IsOwned m a (some active) c h =
      stop_active-IsOwned m a active (subst (λ c'. Safe c' m.quarantine m.live) c h)

  pub stop-IsOwned : (m : Manager) (a : Stop) → IsOwned m → IsOwned ((stop render m a).0)
  unfolding stop
  stop-IsOwned m a h = stop_taken-IsOwned m a m.current refl h

  pub shutdown-IsOwned : (m : Manager) (a : Stop) → IsOwned m → IsOwned ((shutdown render m a).0)
  unfolding shutdown
  shutdown-IsOwned m a h = shutdown_taken-IsOwned m a m.current refl h
