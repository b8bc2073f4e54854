-- ===== src/Manager/Switching/Owned/Graceful.antt =====
-- A graceful switch loses no process.
use nyanpasu_service.Prelude.{
  ℕ, ◌≡◌, refl, sym, ap, arith, true, Option, none, some, ◌∷◌, subst, Bool-cases, inl, inr,
}
use nyanpasu_service.Text.{Text}
use nyanpasu_service.Error.{Error, Result, ok, err}
use nyanpasu_service.State.{InstanceState, InstanceStatus, CoreState}
use nyanpasu_service.Instance.Stop.{stop_and_confirm_dead}
use nyanpasu_service.Instance.Stop.Confirmed.{Verdict, stop-Verdict}
use nyanpasu_service.Manager.Ctrl.{Active, Manager, without}
use nyanpasu_service.Manager.Quarantine.{record_quarantine, publish_terminal_error}
use nyanpasu_service.Manager.Ownership.{
  Fresh, IsFresh, Holds-of, latch-Holds, Fresh-dead, Fresh-latch, Fresh-new, Fresh-gone,
  Fresh-record, Fresh-same, Fresh-handover,
}
use nyanpasu_service.Manager.Launch.{PreparedLaunch, launch_for, is_unconfirmed, publish_launch}
use nyanpasu_service.Manager.Launch.Owned.{
  install-IsFresh, Replaced, spawn_replacement-Replaced, latch_if_unconfirmed-Holds, refuted,
}
use nyanpasu_service.Manager.Switching.{
  reconciled, SwitchOutcome, Switch, discarded, replaced, unreconciled, committed, uncommitted,
  with_warning, commit_answered, old_unstopped, old_stopped, bootstrap_rejected, bootstrapped,
  graceful_spawned, graceful_prepared,
}
use nyanpasu_service.Manager.Switching.Owned.Hard.{abandoned-IsFresh, uncertain-IsFresh}

module _ (render : Error → Text) where
  replaced-IsFresh :
      (a : Switch) (old_epoch epoch : ℕ) (p : PreparedLaunch) (r : Manager × Result InstanceStatus)
      → p.revision.epoch ≡ epoch
      → (r.0.current ≡ none) × Replaced epoch (r.0) (r.1)
      → IsFresh ((replaced render a old_epoch epoch p r).0)
  unfolding replaced publish_terminal_error
  replaced-IsFresh a old_epoch epoch p (m, ok status) l h =
      install-IsFresh m epoch p status a.start.now l h.1
  replaced-IsFresh a old_epoch epoch p (m, err e) l h =
      latch_if_unconfirmed-Holds render Fresh m epoch e a.start.now _
        (subst (λ c. Fresh c (record_quarantine m.quarantine epoch (render e)) m.live) (sym h.0)
          (h.1.0 (render e)))
        (λ u. subst (λ c. Fresh c m.quarantine m.live) (sym h.0) (h.1.1 u))

  unreconciled-IsFresh :
      (m : Manager) (a : Switch) (old_epoch : ℕ) (boot : Active) (p : PreparedLaunch)
      (r : Result (Unit {0}))
      → p.revision.epoch ≡ boot.instance_of.epoch
      → Verdict a.halt.before a.halt.answers r
      → Fresh (some boot) m.quarantine m.live
      → IsFresh (
          (unreconciled render
            (record m { current = none })
            a
            old_epoch
            boot.instance_of.epoch
            p
            r).0)
  unfolding unreconciled
  unreconciled-IsFresh m a old_epoch boot p (err e) l v h =
      uncertain-IsFresh render (record m { current = none }) boot.instance_of.epoch e a.start.now
        (Fresh-latch boot m.quarantine _ m.live h) (refuted render a.halt.before a.halt.answers e v)
  unreconciled-IsFresh m a old_epoch boot p (ok done) l v h =
      replaced-IsFresh a old_epoch boot.instance_of.epoch p _ l (
        spawn_replacement-Replaced render
          (record m { current = none; live = without boot.instance_of.epoch m.live })
          boot.instance_of.epoch a.replacement refl (Fresh-dead boot m.quarantine m.live h))

  committed-IsFresh :
      (m : Manager) (a : Switch) (old_epoch : ℕ) (boot : Active) (p : PreparedLaunch)
      (status : InstanceStatus)
      → p.revision.epoch ≡ boot.instance_of.epoch
      → Fresh (some boot) m.quarantine m.live
      → IsFresh (
          (committed render
            (record m { current = none })
            a
            old_epoch
            boot.instance_of.epoch
            p
            status).0)
  unfolding committed
  committed-IsFresh m a old_epoch boot p status l h = elim (Bool-cases (reconciled a)) [
    | inl t ↦ simp t (
        install-IsFresh (record m { current = none }) boot.instance_of.epoch p status a.start.now l
          (λ b k. Fresh-same boot b m.quarantine m.live (sym (k.0)) (cc (k.0, k.1)) h))
    | inr t ↦ simp t (
        unreconciled-IsFresh m a old_epoch boot p
          (stop_and_confirm_dead render a.halt.before a.halt.answers) l
          (stop-Verdict render a.halt.before a.halt.answers) h)
  ]

  uncommitted-IsFresh :
      (m : Manager) (a : Switch) (boot : Active) (e : Error) (r : Result (Unit {0}))
      → Fresh (some boot) m.quarantine m.live
      → IsFresh ((uncommitted render (record m { current = none }) a boot.instance_of.epoch e r).0)
  unfolding uncommitted discarded
  uncommitted-IsFresh m a boot e (ok done) h =
      let dead = Fresh-dead boot m.quarantine m.live h in
      uncertain-IsFresh render (discarded (record m { current = none }) a boot.instance_of.epoch)
        boot.instance_of.epoch e a.start.now
        (Fresh-record none m.quarantine boot.instance_of.epoch (render e) _ dead) (λ u. dead)
  uncommitted-IsFresh m a boot e (err new_error) h =
      latch-Holds render Fresh (record m { current = none }) boot.instance_of.epoch _ a.start.now
        (Fresh-latch boot m.quarantine _ m.live h)

  with_warning-IsFresh :
      (warning : Option Text) (r : Manager × Result SwitchOutcome)
      → IsFresh (r.0)
      → IsFresh ((with_warning render warning r).0)
  unfolding with_warning
  with_warning-IsFresh warning (m, result) h = h

  commit_answered-IsFresh :
      (m : Manager) (a : Switch) (old_epoch : ℕ) (boot : Active) (p : PreparedLaunch)
      (status : InstanceStatus) (r : Result (Option Text))
      → p.revision.epoch ≡ boot.instance_of.epoch
      → Fresh (some boot) m.quarantine m.live
      → IsFresh (
          (commit_answered render
            (record m { current = none })
            a
            old_epoch
            boot.instance_of.epoch
            p
            status
            r).0)
  unfolding commit_answered
  commit_answered-IsFresh m a old_epoch boot p status (err e) l h =
      uncommitted-IsFresh m a boot e (stop_and_confirm_dead render a.halt.before a.halt.answers) h
  commit_answered-IsFresh m a old_epoch boot p status (ok warning) l h =
      with_warning-IsFresh warning
        (committed render (record m { current = none }) a old_epoch boot.instance_of.epoch p status)
        (committed-IsFresh m a old_epoch boot p status l h)

  old_unstopped-IsFresh :
      (m : Manager) (a : Switch) (old : Active) (epoch : ℕ) (e : Error) (r : Result (Unit {0}))
      → is_unconfirmed e ≡ true
      → Fresh (some old) m.quarantine m.live
      → IsFresh (
          (old_unstopped render
            (record m { current = none; live = epoch ∷ m.live })
            a
            old.instance_of.epoch
            epoch
            e
            r).0)
  unfolding old_unstopped discarded
  old_unstopped-IsFresh m a old epoch e (ok done) u h =
      uncertain-IsFresh render
        (discarded (record m { current = none; live = epoch ∷ m.live }) a epoch)
        old.instance_of.epoch e a.start.now
        (Fresh-latch old m.quarantine _ _ (Fresh-gone (some old) m.quarantine epoch m.live h))
        (λ c. absurd (ground (arith, u, c)))
  old_unstopped-IsFresh m a old epoch e (err new_error) u h = rw u (
      latch-Holds render Fresh
        (record m {
          current = none;
          live = epoch ∷ m.live;
          quarantine = record_quarantine m.quarantine old.instance_of.epoch (render e);
        })
        epoch _ a.start.now
        (Fresh-new none _ epoch _ m.live (Fresh-latch old m.quarantine (render e) m.live h)))

  old_stopped-IsFresh :
      (m : Manager) (a : Switch) (old boot : Active) (before : InstanceState) (p : PreparedLaunch)
      (status : InstanceStatus) (r : Result (Unit {0}))
      → p.revision.epoch ≡ boot.instance_of.epoch
      → boot.revision.epoch ≡ boot.instance_of.epoch
      → Verdict before a.old_stop r
      → Fresh (some old) m.quarantine m.live
      → IsFresh (
          (old_stopped render
            (record m { current = none; live = boot.instance_of.epoch ∷ m.live })
            a
            old.instance_of.epoch
            boot.instance_of.epoch
            p
            status
            r).0)
  unfolding old_stopped
  old_stopped-IsFresh m a old boot before p status (err e) l k v h =
      old_unstopped-IsFresh m a old boot.instance_of.epoch e
        (stop_and_confirm_dead render a.halt.before a.halt.answers) (ap is_unconfirmed v.1) h
  old_stopped-IsFresh m a old boot before p status (ok done) l k v h =
      commit_answered-IsFresh
        (record m { live = without old.instance_of.epoch (boot.instance_of.epoch ∷ m.live) }) a
        old.instance_of.epoch boot p status a.commit l
        (Fresh-handover old boot m.quarantine m.live k h)

  bootstrap_rejected-IsFresh :
      (m : Manager) (a : Switch) (epoch : ℕ) (e : Error) (r : Result (Unit {0}))
      → IsFresh m
      → IsFresh ((bootstrap_rejected render (record m { live = epoch ∷ m.live }) a epoch e r).0)
  unfolding bootstrap_rejected
  bootstrap_rejected-IsFresh m a epoch e (ok done) h =
      abandoned-IsFresh _ a epoch (Fresh-gone m.current m.quarantine epoch m.live h)
  bootstrap_rejected-IsFresh m a epoch e (err stop_error) h =
      latch-Holds render Fresh (record m { live = epoch ∷ m.live }) epoch _ a.start.now
        (Fresh-new m.current m.quarantine epoch _ m.live h)

  bootstrapped-IsFresh :
      (m : Manager) (a : Switch) (old boot : Active) (p : PreparedLaunch)
      (r : Result InstanceStatus)
      → p.revision.epoch ≡ boot.instance_of.epoch
      → boot.revision.epoch ≡ boot.instance_of.epoch
      → m.current ≡ some old
      → IsFresh m
      → IsFresh (
          (bootstrapped render
            (record m { live = boot.instance_of.epoch ∷ m.live })
            a
            old
            boot.instance_of.epoch
            p
            r).0)
  unfolding bootstrapped
  bootstrapped-IsFresh m a old boot p (err e) l k c h =
      bootstrap_rejected-IsFresh m a boot.instance_of.epoch e
        (stop_and_confirm_dead render a.halt.before a.halt.answers) h
  bootstrapped-IsFresh m a old boot p (ok status) l k c h =
      old_stopped-IsFresh m a old boot old.instance_of.status.state p status
        (stop_and_confirm_dead render old.instance_of.status.state a.old_stop) l k
        (stop-Verdict render old.instance_of.status.state a.old_stop) (Holds-of Fresh m _ c h)

  graceful_spawned-IsFresh :
      (m : Manager) (a : Switch) (old : Active) (epoch : ℕ) (p : PreparedLaunch)
      (r : Result (Unit {0}))
      → p.revision.epoch ≡ epoch
      → m.current ≡ some old
      → IsFresh m
      → IsFresh ((graceful_spawned render m a old epoch p r).0)
  unfolding graceful_spawned
  graceful_spawned-IsFresh m a old epoch p (err e) l c h = abandoned-IsFresh m a epoch h
  graceful_spawned-IsFresh m a old epoch p (ok done) l c h =
      bootstrapped-IsFresh m a old
        (record old {
          instance_of = record (old.instance_of) { epoch = epoch };
          revision = p.revision;
        })
        p a.ready l l c h

  pub graceful_prepared-IsFresh :
      (m : Manager) (a : Switch) (old : Active) (epoch : ℕ) (r : Result PreparedLaunch)
      → m.current ≡ some old
      → IsFresh m
      → IsFresh ((graceful_prepared render m a old epoch r).0)
  unfolding graceful_prepared publish_launch
  graceful_prepared-IsFresh m a old epoch (err e) c h = abandoned-IsFresh m a epoch h
  graceful_prepared-IsFresh m a old epoch (ok p) c h =
      graceful_spawned-IsFresh
        (publish_launch m (CoreState.switching (some old.instance_of.epoch) epoch)
          (launch_for epoch p) a.start.now)
        a old epoch (launch_for epoch p) a.spawn refl c h
