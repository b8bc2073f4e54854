-- ===== src/Manager/Apply/Compensated.antt =====
-- The answers of the restart and of the switch with compensation.
use nyanpasu_service.Prelude.{
  ℕ, ◌≡◌, refl, ◌∙◌, Bool, true, false, Option, none, some, List, [], ◌∷◌, inl, inr, Bool-cases,
  ◌==◌,
}
use nyanpasu_service.Text.{Text, bytes}
use nyanpasu_service.Error.{Error, Result, ok, err}
use nyanpasu_service.State.{CoreState, InstanceStatus, ConfigRevision}
use nyanpasu_service.Manager.Publish.{publish}
use nyanpasu_service.Manager.Ctrl.{QuarantinedEpoch, Active, Manager, without}
use nyanpasu_service.Manager.Quarantine.{
  record_quarantine, quarantine_error, latch_quarantine, publish_terminal_error,
}
use nyanpasu_service.Manager.Launch.{
  PreparedLaunch, cleaned, is_unconfirmed, relaunch, install_switched, publish_launch,
  spawn_replacement,
}
use nyanpasu_service.Manager.Launch.Owned.{spawn_replacement-current}
use nyanpasu_service.Manager.Apply.{
  Apply, ApplyOutcome, with_durability_warning, with_durability_result, with_result_warning,
  unstopped, rollback_answered, roll_back, restored, restart_spawned, restart_stopped,
  switch_spawned, switch_stopped,
}
use nyanpasu_service.Manager.Apply.Report.{Successor, Gone, Reported, Compensated}

pub Compensated-Reported :
    (m : Manager) (old : Active) (r : Manager × Result ApplyOutcome)
    → m.current ≡ some old
    → Compensated old.revision r
    → Reported m r
Compensated-Reported m old (after, ok outcome) c h = (h.0, rw c (h.1))
Compensated-Reported m old (after, err e) c h = inr h

pub with_result_warning-Compensated :
    (old : ConfigRevision) (warning : Option Text) (r : Manager × Result ApplyOutcome)
    → Compensated old r
    → Compensated old (with_result_warning warning r)
unfolding with_result_warning with_durability_warning with_durability_result
with_result_warning-Compensated old none (m, ok outcome) h = h
with_result_warning-Compensated old none (m, err e) h = h
with_result_warning-Compensated old (some warning) (m, ok outcome) h = h
with_result_warning-Compensated old (some warning) (m, err e) h = h

abbrev is_some : Option Error → Bool
is_some none = false
is_some (some e) = true

record_quarantine_latches :
    (qs : List QuarantinedEpoch) (epoch : ℕ) (reason : Text)
    → is_some (quarantine_error (record_quarantine qs epoch reason)) ≡ true
unfolding record_quarantine quarantine_error
record_quarantine_latches [] epoch reason = refl
record_quarantine_latches (q ∷ qs) epoch reason = elim (Bool-cases (q.epoch == epoch)) [
  | inl t ↦ rw t refl
  | inr t ↦ rw t refl
]

module _ (render : Error → Text) where
  latch-Gone :
      (m : Manager) (epoch : ℕ) (e : Error) (now : ℕ)
      → m.current ≡ none
      → Gone (latch_quarantine render m epoch e now)
  unfolding latch_quarantine publish_terminal_error publish
  latch-Gone m epoch e now c =
      let quarantine = record_quarantine m.quarantine epoch (render e) in
      elim (quarantine_error quarantine)
          as (λ shown.
            is_some shown ≡ true
            → Gone (elim shown [
              | some error ↦
                  publish_terminal_error render (record m { quarantine = quarantine }) error now
              | none ↦ record m { quarantine = quarantine }
            ])) [ some error ↦ λ h. (c, refl) | none ↦ λ h. cc ]
        (record_quarantine_latches m.quarantine epoch (render e))

  unstopped-Compensated :
      (m : Manager) (a : Apply) (old : Active) (what : Text) (e : Error)
      → m.current ≡ none
      → Compensated old.revision (unstopped render m a old what e)
  unfolding unstopped publish_terminal_error publish
  unstopped-Compensated m a old what e c = elim (Bool-cases (is_unconfirmed e)) [
    | inl t ↦ rw t (latch-Gone m old.revision.epoch e a.now c)
    | inr t ↦ rw t (c, refl)
  ]

  rollback_answered-Compensated :
      (old : Active) (what apply_text : Text) (now : ℕ) (r : Manager × Result InstanceStatus)
      → r.0.current ≡ none
      → Compensated old.revision (rollback_answered render old what apply_text now r)
  unfolding rollback_answered install_switched publish_terminal_error publish
  rollback_answered-Compensated old what apply_text now (m, ok status) c = (refl, refl)
  rollback_answered-Compensated old what apply_text now (m, err e) c =
      elim (Bool-cases (is_unconfirmed e)) [
        | inl t ↦ rw t (latch-Gone m old.revision.epoch _ now c)
        | inr t ↦ rw t (c, refl)
      ]

  roll_back-Compensated :
      (m : Manager) (a : Apply) (old : Active) (what apply_text : Text)
      → m.current ≡ none
      → Compensated old.revision (roll_back render m a old what apply_text)
  unfolding roll_back publish_launch
  roll_back-Compensated m a old what apply_text c =
      let shown =
        publish_launch m (CoreState.restarting old.revision.epoch 0) (relaunch old) a.now in
      rollback_answered-Compensated old what apply_text a.now
        (spawn_replacement render shown old.revision.epoch a.rollback)
        (spawn_replacement-current render shown old.revision.epoch a.rollback ∙ c)

  restored-Compensated :
      (m : Manager) (a : Apply) (old : Active) (apply_text : Text) (r : Result (Option Text))
      → m.current ≡ none
      → Compensated old.revision (restored render m a old apply_text r)
  unfolding restored publish_terminal_error publish
  restored-Compensated m a old apply_text (err e) c = (c, refl)
  restored-Compensated m a old apply_text (ok warning) c =
      with_result_warning-Compensated old.revision warning
        (roll_back render m a old (bytes "apply") apply_text)
        (roll_back-Compensated m a old (bytes "apply") apply_text c)

  restart_spawned-Compensated :
      (a : Apply) (old : Active) (p : PreparedLaunch) (r : Manager × Result InstanceStatus)
      → Successor p.revision old.revision
      → r.0.current ≡ none
      → Compensated old.revision (restart_spawned render a old p r)
  unfolding restart_spawned install_switched
  restart_spawned-Compensated a old p (m, ok status) s c = (refl, s)
  restart_spawned-Compensated a old p (m, err e) s c = elim (Bool-cases (is_unconfirmed e)) [
    | inl t ↦ rw t (latch-Gone m p.revision.epoch e a.now c)
    | inr t ↦ rw t (restored-Compensated m a old (render e) a.restore c)
  ]

  pub restart_stopped-Compensated :
      (m : Manager) (a : Apply) (old : Active) (p : PreparedLaunch) (r : Result (Unit {0}))
      → Successor p.revision old.revision
      → m.current ≡ none
      → Compensated old.revision (restart_stopped render m a old p r)
  unfolding restart_stopped publish_launch
  restart_stopped-Compensated m a old p (err e) s c =
      unstopped-Compensated m a old (bytes "reconcile") e c
  restart_stopped-Compensated m a old p (ok done) s c = restart_spawned-Compensated a old p _ s (
      spawn_replacement-current render
        (publish_launch (record m { live = without old.instance_of.epoch m.live })
          (CoreState.restarting p.revision.epoch 0) p a.now)
        p.revision.epoch a.replacement
      ∙ c)

  switch_spawned-Compensated :
      (a : Apply) (old : Active) (p : PreparedLaunch) (r : Manager × Result InstanceStatus)
      → p.revision.generation ≡ 1
      → r.0.current ≡ none
      → Compensated old.revision (switch_spawned render a old p r)
  unfolding switch_spawned install_switched
  switch_spawned-Compensated a old p (m, ok status) g c = (refl, g)
  switch_spawned-Compensated a old p (m, err e) g c = elim (Bool-cases (is_unconfirmed e)) [
    | inl t ↦ rw t (latch-Gone m p.revision.epoch e a.now c)
    | inr t ↦ rw t (
        roll_back-Compensated
          (record m { artifacts = cleaned p.revision.epoch a.cleanup m.artifacts }) a old
          (bytes "switch") (render e) c)
  ]

  pub switch_stopped-Compensated :
      (m : Manager) (a : Apply) (old : Active) (p : PreparedLaunch) (r : Result (Unit {0}))
      → p.revision.generation ≡ 1
      → m.current ≡ none
      → Compensated old.revision (switch_stopped render m a old p r)
  unfolding switch_stopped publish_launch
  switch_stopped-Compensated m a old p (err e) g c =
      unstopped-Compensated
        (record m { artifacts = cleaned p.revision.epoch a.cleanup m.artifacts }) a old
        (bytes "switch") e c
  switch_stopped-Compensated m a old p (ok done) g c = switch_spawned-Compensated a old p _ g (
      spawn_replacement-current render
        (publish_launch (record m { live = without old.instance_of.epoch m.live })
          (CoreState.switching (some old.revision.epoch) p.revision.epoch) p a.now)
        p.revision.epoch a.replacement
      ∙ c)
