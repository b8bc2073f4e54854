-- ===== src/Manager/Switching/Owned/Hard.antt =====
-- A hard switch loses no process.
use nyanpasu_service.Prelude.{ℕ, ◌≡◌, refl, false, none, some}
use nyanpasu_service.Text.{Text}
use nyanpasu_service.Error.{Error, Result, ok, err}
use nyanpasu_service.State.{InstanceState, CoreState}
use nyanpasu_service.Instance.Stop.{stop_and_confirm_dead}
use nyanpasu_service.Instance.Stop.Confirmed.{Verdict, stop-Verdict}
use nyanpasu_service.Manager.Ctrl.{Active, Manager}
use nyanpasu_service.Manager.Quarantine.{record_quarantine, publish_terminal_error}
use nyanpasu_service.Manager.Ownership.{Fresh, IsFresh, Holds-of, Fresh-dead, Fresh-latch}
use nyanpasu_service.Manager.Launch.{
  PreparedLaunch, launch_for, is_unconfirmed, publish_launch, latch_if_unconfirmed, cleaned,
}
use nyanpasu_service.Manager.Launch.Owned.{republish-Holds, latch_if_unconfirmed-Holds, refuted}
use nyanpasu_service.Manager.Lifecycle.Owned.{start_prepared-IsFresh}
use nyanpasu_service.Manager.Switching.{
  DegradeReason, Switch, hard_outcome, abandoned, hard_cleaned, hard_stopped, hard_prepared,
}

pub abandoned-IsFresh :
    (m : Manager) (a : Switch) (epoch : ℕ) → IsFresh m → IsFresh (abandoned m a epoch)
unfolding abandoned
abandoned-IsFresh m a epoch h = republish-Holds Fresh _ a.start.now h

pub hard_outcome-IsFresh :
    (reason : DegradeReason) (r : Manager × Result (Unit {0}))
    → IsFresh (r.0)
    → IsFresh ((hard_outcome reason r).0)
unfolding hard_outcome
hard_outcome-IsFresh reason (m, ok done) h = h
hard_outcome-IsFresh reason (m, err e) h = h

module _ (render : Error → Text) where
  -- An epoch whose stop failed for certain is quarantined, any other error only published.
  pub uncertain-IsFresh :
      (m : Manager) (epoch : ℕ) (e : Error) (now : ℕ)
      → Fresh m.current (record_quarantine m.quarantine epoch (render e)) m.live
      → (is_unconfirmed e ≡ false → IsFresh m)
      → IsFresh (latch_if_unconfirmed render m epoch e now (publish_terminal_error render m e now))
  unfolding publish_terminal_error
  uncertain-IsFresh m epoch e now h k =
      latch_if_unconfirmed-Holds render Fresh m epoch e now (publish_terminal_error render m e now)
        h k

  hard_cleaned-IsFresh :
      (m : Manager) (a : Switch) (old_epoch : ℕ) (p : PreparedLaunch) (r : Result (Unit {0}))
      → m.current ≡ none
      → IsFresh m
      → IsFresh ((hard_cleaned render m a old_epoch p r).0)
  unfolding hard_cleaned publish_terminal_error
  hard_cleaned-IsFresh m a old_epoch p (err e) c h = h
  hard_cleaned-IsFresh m a old_epoch p (ok done) c h = start_prepared-IsFresh render _ a.start p c h

  hard_stopped-IsFresh :
      (m : Manager) (a : Switch) (old : Active) (before : InstanceState) (epoch : ℕ)
      (p : PreparedLaunch) (r : Result (Unit {0}))
      → Verdict before a.old_stop r
      → Fresh (some old) m.quarantine m.live
      → IsFresh
          ((hard_stopped render (record m { current = none }) a old.instance_of.epoch epoch p r).0)
  unfolding hard_stopped
  hard_stopped-IsFresh m a old before epoch p (err e) v h =
      uncertain-IsFresh
        (record m { current = none; artifacts = cleaned epoch a.cleanup m.artifacts })
        old.instance_of.epoch e a.start.now (Fresh-latch old m.quarantine _ m.live h)
        (refuted render before a.old_stop e v)
  hard_stopped-IsFresh m a old before epoch p (ok done) v h =
      hard_cleaned-IsFresh _ a old.instance_of.epoch p a.old_cleanup refl
        (Fresh-dead old m.quarantine m.live h)

  pub hard_prepared-IsFresh :
      (m : Manager) (a : Switch) (old : Active) (epoch : ℕ) (r : Result PreparedLaunch)
      → m.current ≡ some old
      → IsFresh m
      → IsFresh ((hard_prepared render m a old epoch r).0)
  unfolding hard_prepared publish_launch
  hard_prepared-IsFresh m a old epoch (err e) c h = abandoned-IsFresh m a epoch h
  hard_prepared-IsFresh m a old epoch (ok p) c h =
      hard_stopped-IsFresh
        (publish_launch m (CoreState.switching (some old.instance_of.epoch) epoch)
          (launch_for epoch p) a.start.now)
        a old old.instance_of.status.state epoch (launch_for epoch p)
        (stop_and_confirm_dead render old.instance_of.status.state a.old_stop)
        (stop-Verdict render old.instance_of.status.state a.old_stop) (Holds-of Fresh m _ c h)
