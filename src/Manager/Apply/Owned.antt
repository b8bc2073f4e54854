-- ===== src/Manager/Apply/Owned.antt =====
-- The application of a configuration loses no process, wherever it fails.
use nyanpasu_service.Prelude.{
  ℕ, ◌≡◌, refl, sym, Option, none, some, ◌∷◌, subst, Bool-cases, inl, inr,
}
use nyanpasu_service.Text.{Text, bytes}
use nyanpasu_service.Error.{Error, Result, ok, err, ◌>>=◌}
use nyanpasu_service.State.{CoreState, InstanceState, InstanceStatus, is_terminal, revision_id}
use nyanpasu_service.Instance.Stop.{stop_and_confirm_dead}
use nyanpasu_service.Instance.Stop.Confirmed.{Verdict, stop-Verdict}
use nyanpasu_service.Manager.Ctrl.{Active, Manager, without}
use nyanpasu_service.Manager.Quarantine.{
  record_quarantine, reject_quarantine, latch_quarantine, publish_terminal_error,
}
use nyanpasu_service.Manager.Ownership.{
  Fresh, IsFresh, IsOwned, is_current, Holds-of, Holds-Safe, gate-Fresh, latch-Holds, Fresh-dead,
  Fresh-latch_revision,
}
use nyanpasu_service.Manager.Launch.{
  PreparedLaunch, next_epoch, launch_for, cleaned, is_unconfirmed, relaunch, publish_launch,
  spawn_replacement,
}
use nyanpasu_service.Manager.Launch.Owned.{
  install-IsFresh, Replaced, refuted, spawn_replacement-Replaced,
}
use nyanpasu_service.Manager.Apply.InPlace.{Change, reconcile_in_place}
use nyanpasu_service.Manager.Apply.{
  Apply, ApplyOutcome, apply_launch, conflict, in_place, with_result_warning, unstopped,
  rollback_answered, roll_back, restored, restart_spawned, restart_stopped,
  restart_with_compensation, switch_spawned, switch_stopped, switch_prepared,
  switch_with_compensation, apply_committed, apply_backed, apply_classified, apply_prepared,
  apply_current, apply_admitted, apply_config,
}

with_result_warning-IsFresh :
    (warning : Option Text) (r : Manager × Result ApplyOutcome)
    → IsFresh (r.0)
    → IsFresh ((with_result_warning warning r).0)
unfolding with_result_warning
with_result_warning-IsFresh warning (m, result) h = h

-- Nothing is current, and an epoch whose replacement failed is uncertain: it is quarantined.
latch_replacement-IsFresh :
    (render : Error → Text) (m : Manager) (epoch : ℕ) (e shown : Error) (now : ℕ)
    → (m.current ≡ none) × Replaced epoch m (err e)
    → IsFresh (latch_quarantine render m epoch shown now)
latch_replacement-IsFresh render m epoch e shown now h =
    latch-Holds render Fresh m epoch shown now (
      subst (λ c. Fresh c (record_quarantine m.quarantine epoch (render shown)) m.live) (sym (h.0))
        (h.1.0 (render shown)))

module _ (render : Error → Text) where
  unstopped-IsFresh :
      (m : Manager) (a : Apply) (old : Active) (what : Text) (before : InstanceState) (e : Error)
      → Verdict before a.old_stop (err e)
      → Fresh (some old) m.quarantine m.live
      → IsFresh ((unstopped render (record m { current = none }) a old what e).0)
  unfolding unstopped publish_terminal_error
  unstopped-IsFresh m a old what before e v h = elim (Bool-cases (is_unconfirmed e)) [
    | inl t ↦ rw t (
        latch-Holds render Fresh (record m { current = none }) old.revision.epoch e a.now
          (Fresh-latch_revision old m.quarantine (render e) m.live h))
    | inr t ↦ refuted render before a.old_stop e v t
  ]

  rollback_answered-IsFresh :
      (old : Active) (what apply_text : Text) (now : ℕ) (r : Manager × Result InstanceStatus)
      → (r.0.current ≡ none) × Replaced old.revision.epoch (r.0) (r.1)
      → IsFresh ((rollback_answered render old what apply_text now r).0)
  unfolding rollback_answered publish_terminal_error
  rollback_answered-IsFresh old what apply_text now (m, ok status) h =
      install-IsFresh m old.revision.epoch (relaunch old) status now refl (h.1)
  rollback_answered-IsFresh old what apply_text now (m, err e) h =
      elim (Bool-cases (is_unconfirmed e)) [
        | inl t ↦ rw t (latch_replacement-IsFresh render m old.revision.epoch e _ now h)
        | inr t ↦ rw t (subst (λ c. Fresh c m.quarantine m.live) (sym (h.0)) (h.1.1 t))
      ]

  roll_back-IsFresh :
      (m : Manager) (a : Apply) (old : Active) (what apply_text : Text)
      → m.current ≡ none
      → Fresh none m.quarantine m.live
      → IsFresh ((roll_back render m a old what apply_text).0)
  unfolding roll_back publish_launch
  roll_back-IsFresh m a old what apply_text c h =
      let shown =
        publish_launch m (CoreState.restarting old.revision.epoch 0) (relaunch old) a.now in
      rollback_answered-IsFresh old what apply_text a.now
        (spawn_replacement render shown old.revision.epoch a.rollback)
        (spawn_replacement-Replaced render shown old.revision.epoch a.rollback c h)

  restored-IsFresh :
      (m : Manager) (a : Apply) (old : Active) (apply_text : Text) (r : Result (Option Text))
      → m.current ≡ none
      → Fresh none m.quarantine m.live
      → IsFresh ((restored render m a old apply_text r).0)
  unfolding restored publish_terminal_error
  restored-IsFresh m a old apply_text (err e) c h =
      subst (λ c'. Fresh c' m.quarantine m.live) (sym c) h
  restored-IsFresh m a old apply_text (ok warning) c h =
      with_result_warning-IsFresh warning (roll_back render m a old (bytes "apply") apply_text)
        (roll_back-IsFresh m a old (bytes "apply") apply_text c h)

  restart_spawned-IsFresh :
      (a : Apply) (old : Active) (p : PreparedLaunch) (r : Manager × Result InstanceStatus)
      → (r.0.current ≡ none) × Replaced p.revision.epoch (r.0) (r.1)
      → IsFresh ((restart_spawned render a old p r).0)
  unfolding restart_spawned
  restart_spawned-IsFresh a old p (m, ok status) h =
      install-IsFresh m p.revision.epoch p status a.now refl (h.1)
  restart_spawned-IsFresh a old p (m, err e) h = elim (Bool-cases (is_unconfirmed e)) [
    | inl t ↦ rw t (latch_replacement-IsFresh render m p.revision.epoch e e a.now h)
    | inr t ↦ rw t (restored-IsFresh m a old (render e) a.restore (h.0) (h.1.1 t))
  ]

  restart_stopped-IsFresh :
      (m : Manager) (a : Apply) (old : Active) (p : PreparedLaunch) (before : InstanceState)
      (r : Result (Unit {0}))
      → Verdict before a.old_stop r
      → Fresh (some old) m.quarantine m.live
      → IsFresh ((restart_stopped render (record m { current = none }) a old p r).0)
  unfolding restart_stopped publish_launch
  restart_stopped-IsFresh m a old p before (err e) v h =
      unstopped-IsFresh m a old (bytes "reconcile") before e v h
  restart_stopped-IsFresh m a old p before (ok done) v h = restart_spawned-IsFresh a old p _ (
      spawn_replacement-Replaced render
        (publish_launch (record m { current = none; live = without old.instance_of.epoch m.live })
          (CoreState.restarting p.revision.epoch 0) p a.now)
        p.revision.epoch a.replacement refl (Fresh-dead old m.quarantine m.live h))

  switch_spawned-IsFresh :
      (a : Apply) (old : Active) (p : PreparedLaunch) (r : Manager × Result InstanceStatus)
      → (r.0.current ≡ none) × Replaced p.revision.epoch (r.0) (r.1)
      → IsFresh ((switch_spawned render a old p r).0)
  unfolding switch_spawned
  switch_spawned-IsFresh a old p (m, ok status) h =
      install-IsFresh m p.revision.epoch p status a.now refl (h.1)
  switch_spawned-IsFresh a old p (m, err e) h = elim (Bool-cases (is_unconfirmed e)) [
    | inl t ↦ rw t (latch_replacement-IsFresh render m p.revision.epoch e e a.now h)
    | inr t ↦ rw t (
        roll_back-IsFresh (record m { artifacts = cleaned p.revision.epoch a.cleanup m.artifacts })
          a old (bytes "switch") (render e) (h.0) (h.1.1 t))
  ]

  switch_stopped-IsFresh :
      (m : Manager) (a : Apply) (old : Active) (p : PreparedLaunch) (before : InstanceState)
      (r : Result (Unit {0}))
      → Verdict before a.old_stop r
      → Fresh (some old) m.quarantine m.live
      → IsFresh ((switch_stopped render (record m { current = none }) a old p r).0)
  unfolding switch_stopped publish_launch
  switch_stopped-IsFresh m a old p before (err e) v h =
      unstopped-IsFresh (record m { artifacts = cleaned p.revision.epoch a.cleanup m.artifacts }) a
        old (bytes "switch") before e v h
  switch_stopped-IsFresh m a old p before (ok done) v h = switch_spawned-IsFresh a old p _ (
      spawn_replacement-Replaced render
        (publish_launch (record m { current = none; live = without old.instance_of.epoch m.live })
          (CoreState.switching (some old.revision.epoch) p.revision.epoch) p a.now)
        p.revision.epoch a.replacement refl (Fresh-dead old m.quarantine m.live h))

  switch_prepared-IsFresh :
      (m : Manager) (a : Apply) (old : Active) (epoch : ℕ) (r : Result PreparedLaunch)
      → m.current ≡ some old
      → IsFresh m
      → IsFresh ((switch_prepared render m a old epoch r).0)
  unfolding switch_prepared
  switch_prepared-IsFresh m a old epoch (err e) c h = h
  switch_prepared-IsFresh m a old epoch (ok p) c h =
      switch_stopped-IsFresh m a old (launch_for epoch p) old.instance_of.status.state
        (stop_and_confirm_dead render old.instance_of.status.state a.old_stop)
        (stop-Verdict render old.instance_of.status.state a.old_stop) (Holds-of Fresh m _ c h)

  -- A launch that keeps the epoch of the running core.
  apply_committed-IsFresh :
      (m : Manager) (a : Apply) (old : Active) (given : PreparedLaunch) (change : Change)
      (r : Result (Option Text))
      → m.current ≡ some old
      → IsFresh m
      → IsFresh ((apply_committed render m a old (apply_launch old.revision given) change r).0)
  unfolding apply_committed in_place restart_with_compensation is_current
  apply_committed-IsFresh m a old given change (err e) c h = h
  apply_committed-IsFresh m a old given change (ok warning) c h =
      elim (Bool-cases (reconcile_in_place a.reconcile change)) [
        | inl t ↦ rw t (Holds-of Fresh m (some old) c h)
        | inr t ↦ rw t (
            with_result_warning-IsFresh warning
              (restart_with_compensation render m a old (apply_launch old.revision given))
              (restart_stopped-IsFresh m a old (apply_launch old.revision given)
                old.instance_of.status.state
                (stop_and_confirm_dead render old.instance_of.status.state a.old_stop)
                (stop-Verdict render old.instance_of.status.state a.old_stop)
                (Holds-of Fresh m _ c h)))
      ]

  apply_backed-IsFresh :
      (m : Manager) (a : Apply) (old : Active) (given : PreparedLaunch) (change : Change)
      (r : Result (Unit {0}))
      → m.current ≡ some old
      → IsFresh m
      → IsFresh ((apply_backed render m a old (apply_launch old.revision given) change r).0)
  unfolding apply_backed
  apply_backed-IsFresh m a old given change (err e) c h = h
  apply_backed-IsFresh m a old given change (ok done) c h =
      apply_committed-IsFresh m a old given change a.commit c h

  apply_prepared-IsFresh :
      (m : Manager) (a : Apply) (old : Active) (r : Result (PreparedLaunch × Change))
      → m.current ≡ some old
      → IsFresh m
      → IsFresh ((apply_prepared render m a old r).0)
  unfolding apply_prepared apply_classified switch_with_compensation
  apply_prepared-IsFresh m a old (err e) c h = h
  apply_prepared-IsFresh m a old (ok (given, Change.noop)) c h = h
  apply_prepared-IsFresh m a old (ok (given, Change.switch)) c h =
      let epoch = next_epoch m.epoch in
      switch_prepared-IsFresh (record m { epoch = epoch; artifacts = epoch ∷ m.artifacts }) a old
        epoch (a.switch_prepare epoch) c h
  apply_prepared-IsFresh m a old (ok (given, Change.patch)) c h =
      apply_backed-IsFresh m a old given Change.patch a.backup c h
  apply_prepared-IsFresh m a old (ok (given, Change.reload)) c h =
      apply_backed-IsFresh m a old given Change.reload a.backup c h

  apply_current-IsFresh :
      (m : Manager) (a : Apply) (current : Option Active)
      → m.current ≡ current
      → IsFresh m
      → IsFresh ((apply_current render m a current).0)
  unfolding apply_current
  apply_current-IsFresh m a none c h = h
  apply_current-IsFresh m a (some active) c h =
      elim (Bool-cases (is_terminal active.instance_of.status.state)) [
        | inl t ↦ rw t h
        | inr t ↦ rw t (
            apply_prepared-IsFresh m a active
              (conflict a.expected_revision (revision_id active.revision)
                >>= (λ k. a.load)
                >>= (λ l. a.prepare >>= (λ p. a.change >>= (λ k. ok (p, k)))))
              c h)
      ]

  apply_admitted-IsOwned :
      (m : Manager) (a : Apply) (r : Result (Unit {0}))
      → reject_quarantine m.quarantine ≡ r
      → IsOwned m
      → IsOwned ((apply_admitted render m a r).0)
  unfolding apply_admitted
  apply_admitted-IsOwned m a (err e) g h = h
  apply_admitted-IsOwned m a (ok done) g h =
      Holds-Safe ((apply_current render m a m.current).0)
        (apply_current-IsFresh m a m.current refl (gate-Fresh m g h))

  pub apply_config-IsOwned :
      (m : Manager) (a : Apply) → IsOwned m → IsOwned ((apply_config render m a).0)
  unfolding apply_config
  apply_config-IsOwned m a h = apply_admitted-IsOwned m a (reject_quarantine m.quarantine) refl h
