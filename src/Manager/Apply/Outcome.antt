-- ===== src/Manager/Apply/Outcome.antt =====
-- What the answer of an application says of the manager behind it.
use nyanpasu_service.Prelude.{ℕ, ◌≡◌, refl, Option, none, some, ◌∷◌, ◌⊎◌, inl, inr, Bool-cases}
use nyanpasu_service.Text.{Text}
use nyanpasu_service.Error.{Error, Result, ok, err, ◌>>=◌}
use nyanpasu_service.State.{is_terminal, revision_id}
use nyanpasu_service.Instance.Stop.{stop_and_confirm_dead}
use nyanpasu_service.Manager.Ctrl.{Active, Manager}
use nyanpasu_service.Manager.Quarantine.{reject_quarantine}
use nyanpasu_service.Manager.Launch.{PreparedLaunch, next_epoch, launch_for}
use nyanpasu_service.Manager.Apply.InPlace.{Change, reconcile_in_place}
use nyanpasu_service.Manager.Apply.{
  Apply, apply_launch, with_durability_warning, conflict, in_place, in_place_outcome,
  with_result_warning, restart_with_compensation, switch_stopped, switch_prepared,
  switch_with_compensation, apply_committed, apply_backed, apply_classified, apply_prepared,
  apply_current, apply_admitted, apply_config,
}
use nyanpasu_service.Manager.Apply.Report.{Successor, Reported, Compensated}
use nyanpasu_service.Manager.Apply.Compensated.{
  Compensated-Reported, with_result_warning-Compensated, restart_stopped-Compensated,
  switch_stopped-Compensated,
}

module _ (render : Error → Text) where
  switch_prepared-Reported :
      (m : Manager) (a : Apply) (old : Active) (epoch : ℕ) (r : Result PreparedLaunch)
      → m.current ≡ some old
      → Reported m (
          switch_prepared render
            (record m { epoch = epoch; artifacts = epoch ∷ m.artifacts })
            a
            old
            epoch
            r)
  unfolding switch_prepared
  switch_prepared-Reported m a old epoch (err e) c = inl (refl, refl, refl, refl, refl)
  switch_prepared-Reported m a old epoch (ok p) c =
      Compensated-Reported m old
        (switch_stopped render
          (record m { epoch = epoch; artifacts = epoch ∷ m.artifacts; current = none }) a old
          (launch_for epoch p)
          (stop_and_confirm_dead render old.instance_of.status.state a.old_stop))
        c
        (switch_stopped-Compensated render
          (record m { epoch = epoch; artifacts = epoch ∷ m.artifacts; current = none }) a old
          (launch_for epoch p)
          (stop_and_confirm_dead render old.instance_of.status.state a.old_stop) refl refl)

  in_place-Reported :
      (m : Manager) (active : Active) (p : PreparedLaunch) (change : Change) (warning : Option Text)
      (now : ℕ)
      → Successor p.revision active.revision
      → (change ≡ Change.patch) ⊎ (change ≡ Change.reload)
      → Compensated active.revision (
        in_place m active p now,
        ok (with_durability_warning (in_place_outcome change p.revision) warning),
      )
  unfolding in_place in_place_outcome with_durability_warning
  in_place-Reported m active p Change.patch none now s k = (refl, s)
  in_place-Reported m active p Change.patch (some warning) now s k = (refl, s)
  in_place-Reported m active p Change.reload none now s k = (refl, s)
  in_place-Reported m active p Change.reload (some warning) now s k = (refl, s)
  in_place-Reported m active p Change.noop warning now s (inl t) = cc
  in_place-Reported m active p Change.noop warning now s (inr t) = cc
  in_place-Reported m active p Change.switch warning now s (inl t) = cc
  in_place-Reported m active p Change.switch warning now s (inr t) = cc

  apply_committed-Reported :
      (m : Manager) (a : Apply) (old : Active) (given : PreparedLaunch) (change : Change)
      (r : Result (Option Text))
      → (change ≡ Change.patch) ⊎ (change ≡ Change.reload)
      → m.current ≡ some old
      → Reported m (apply_committed render m a old (apply_launch old.revision given) change r)
  unfolding apply_committed restart_with_compensation
  apply_committed-Reported m a old given change (err e) k c = inl (refl, refl, refl, refl, refl)
  apply_committed-Reported m a old given change (ok warning) k c =
      let p = apply_launch old.revision given in
      elim (Bool-cases (reconcile_in_place a.reconcile change)) [
        | inl t ↦ rw t (
            Compensated-Reported m old
              (
                in_place m old p a.now,
                ok (with_durability_warning (in_place_outcome change p.revision) warning),
              )
              c (in_place-Reported m old p change warning a.now (refl, refl) k))
        | inr t ↦ rw t (
            Compensated-Reported m old
              (with_result_warning warning (restart_with_compensation render m a old p)) c
              (with_result_warning-Compensated old.revision warning
                (restart_with_compensation render m a old p)
                (restart_stopped-Compensated render (record m { current = none }) a old p
                  (stop_and_confirm_dead render old.instance_of.status.state a.old_stop)
                  (refl, refl) refl)))
      ]

  apply_backed-Reported :
      (m : Manager) (a : Apply) (old : Active) (given : PreparedLaunch) (change : Change)
      (r : Result (Unit {0}))
      → (change ≡ Change.patch) ⊎ (change ≡ Change.reload)
      → m.current ≡ some old
      → Reported m (apply_backed render m a old (apply_launch old.revision given) change r)
  unfolding apply_backed
  apply_backed-Reported m a old given change (err e) k c = inl (refl, refl, refl, refl, refl)
  apply_backed-Reported m a old given change (ok done) k c =
      apply_committed-Reported m a old given change a.commit k c

  apply_prepared-Reported :
      (m : Manager) (a : Apply) (old : Active) (r : Result (PreparedLaunch × Change))
      → m.current ≡ some old
      → Reported m (apply_prepared render m a old r)
  unfolding apply_prepared apply_classified switch_with_compensation
  apply_prepared-Reported m a old (err e) c = inl (refl, refl, refl, refl, refl)
  apply_prepared-Reported m a old (ok (given, Change.noop)) c = rw c (refl, refl)
  apply_prepared-Reported m a old (ok (given, Change.switch)) c =
      switch_prepared-Reported m a old (next_epoch m.epoch) (a.switch_prepare (next_epoch m.epoch))
        c
  apply_prepared-Reported m a old (ok (given, Change.patch)) c =
      apply_backed-Reported m a old given Change.patch a.backup (inl refl) c
  apply_prepared-Reported m a old (ok (given, Change.reload)) c =
      apply_backed-Reported m a old given Change.reload a.backup (inr refl) c

  apply_current-Reported :
      (m : Manager) (a : Apply) (current : Option Active)
      → m.current ≡ current
      → Reported m (apply_current render m a current)
  unfolding apply_current
  apply_current-Reported m a none c = inl (refl, refl, refl, refl, refl)
  apply_current-Reported m a (some active) c =
      elim (Bool-cases (is_terminal active.instance_of.status.state)) [
        | inl t ↦ rw t (inl (refl, refl, refl, refl, refl))
        | inr t ↦ rw t (
            apply_prepared-Reported m a active
              (conflict a.expected_revision (revision_id active.revision)
                >>= (λ k. a.load)
                >>= (λ l. a.prepare >>= (λ p. a.change >>= (λ k. ok (p, k)))))
              c)
      ]

  apply_admitted-Reported :
      (m : Manager) (a : Apply) (r : Result (Unit {0})) → Reported m (apply_admitted render m a r)
  unfolding apply_admitted
  apply_admitted-Reported m a (err e) = inl (refl, refl, refl, refl, refl)
  apply_admitted-Reported m a (ok done) = apply_current-Reported m a m.current refl

  -- The answer of an application is true of the manager behind it. A success names the revision
  -- that is now current: the old one itself where nothing changed or the change was rolled back, one
  -- of the same epoch and the next generation where it was patched, reloaded or restarted, one of
  -- generation 1 where it was switched. An error left the current core, the published status, the
  -- last specification, the quarantine and the live epochs as they were, or no core is current and
  -- an error is published.
  pub apply_config-Reported : (m : Manager) (a : Apply) → Reported m (apply_config render m a)
  unfolding apply_config
  apply_config-Reported m a = apply_admitted-Reported m a (reject_quarantine m.quarantine)
