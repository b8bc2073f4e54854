-- ===== src/Manager/Apply.antt =====
-- `CoreManager::apply_config` of crates/nyanpasu-core-manager/src/manager/apply.rs under the control
-- lock. A record answers what the call meets outside: the snapshot, the preparation, the store, the
-- controller of the running core, the stop of the old instance and the two replacements.
pub mod InPlace
pub mod Owned
pub mod Report
mod Compensated
pub mod Outcome
pub mod Tests
use mathlib.Core.Logic.{ite}
use Prim.Native.Nat.{◌^◌, ◌%◌}
use nyanpasu_service.Prelude.{
  ℕ, ◌+◌, Bool, true, false, Option, none, some, List, [], ◌∷◌, ◌++◌, if◌then◌else◌,
}
use nyanpasu_service.Text.{Text, bytes}
use nyanpasu_service.Error.{
  Error, Result, ok, err, ◌>>=◌, not_started, stop_unconfirmed, revision_conflict, apply_failed,
  apply_rollback_failed,
}
use nyanpasu_service.State.{
  CoreState, InstanceState, InstanceStatus, is_terminal, RevisionId, RevisionId-discrete,
  ConfigRevision, revision_id,
}
use nyanpasu_service.Instance.Stop.{Answers, stop_and_confirm_dead}
use nyanpasu_service.Manager.Publish.{publish_instance}
use nyanpasu_service.Manager.Ctrl.{Active, Manager, without}
use nyanpasu_service.Manager.Quarantine.{
  reject_quarantine, latch_quarantine, publish_terminal_error,
}
use nyanpasu_service.Manager.Launch.{
  PreparedLaunch, next_epoch, launch_for, cleaned, pid_of, is_unconfirmed, relaunch, launch_summary,
  install_switched, publish_launch, Replacement, spawn_replacement,
}
use nyanpasu_service.Manager.Apply.InPlace.{Change, Reconcile, reconcile_in_place}

pub data ApplyOutcome : Type 0 where
  noop patched reloaded restarted switched : ConfigRevision → ApplyOutcome
  rolled_back : ConfigRevision → Text → ApplyOutcome
  durability_uncertain : ApplyOutcome → Text → ApplyOutcome

-- The answers that an application meets. `prepare` is of `prepare_apply`, less the parts of the
-- revision that `apply_launch` sets; `switch_prepare` is of `prepare_launch` for the new epoch.
pub record Apply : Type 0 where
  pub now : ℕ
  pub expected_revision : Option RevisionId
  pub load : Result (Unit {0})
  pub prepare : Result PreparedLaunch
  pub change : Result Change
  pub backup : Result (Unit {0})
  pub commit : Result (Option Text)
  pub reconcile : Reconcile
  pub old_stop : Answers
  pub replacement : Replacement
  pub restore : Result (Option Text)
  pub rollback : Replacement
  pub switch_prepare : ℕ → Result PreparedLaunch
  pub cleanup : Result (Unit {0})
  pub old_cleanup : Result (Unit {0})

unfoldable pub with_durability_warning : ApplyOutcome → Option Text → ApplyOutcome
with_durability_warning outcome none = outcome
with_durability_warning outcome (some warning) = ApplyOutcome.durability_uncertain outcome warning

unfoldable pub with_durability_result : Result ApplyOutcome → Option Text → Result ApplyOutcome
unfolding with_durability_warning
with_durability_result (ok outcome) warning = ok (with_durability_warning outcome warning)
with_durability_result (err e) none = err e
with_durability_result (err e) (some warning) = err (Error.durability_uncertain e warning)

-- `prepare_apply`: the epoch and the path of the running core, one generation on.
abbrev pub apply_launch : ConfigRevision → PreparedLaunch → PreparedLaunch
apply_launch current p = record p {
  revision = record (p.revision) {
    epoch = current.epoch;
    generation = (current.generation + 1) % 2 ^ 64;
    runtime_path = current.runtime_path;
  };
}

unfoldable pub conflict : Option RevisionId → RevisionId → Result (Unit {0})
conflict none actual_revision = ok tt
conflict (some expected) actual_revision =
    ite (RevisionId-discrete expected actual_revision) (ok tt)
      (err (revision_conflict expected (some actual_revision)))

-- The running core has taken the configuration over.
in_place : Manager → Active → PreparedLaunch → ℕ → Manager
in_place m active p now = record m {
  current = some (record active {
    source_spec = p.source_spec;
    revision = p.revision;
    capabilities = p.capabilities;
    runtime_features = p.runtime_features;
  });
  last_spec = some p.source_spec;
  status =
      publish_instance m.status active.instance_of.status.health active.instance_of.host
        (CoreState.running p.revision.epoch (pid_of active.instance_of.status.state))
        (launch_summary p) p.revision now;
}

in_place_outcome : Change → ConfigRevision → ApplyOutcome
in_place_outcome Change.patch revision = ApplyOutcome.patched revision
in_place_outcome Change.reload revision = ApplyOutcome.reloaded revision
in_place_outcome Change.noop revision = ApplyOutcome.noop revision
in_place_outcome Change.switch revision = ApplyOutcome.switched revision

pub with_result_warning :
    Option Text → Manager × Result ApplyOutcome → Manager × Result ApplyOutcome
with_result_warning warning (m, result) = (m, with_durability_result result warning)

module _ (render : Error → Text) where
  -- The stop of the current epoch failed.
  unstopped : Manager → Apply → Active → Text → Error → Manager × Result ApplyOutcome
  unstopped m a old what e =
      let failed =
        apply_failed
          (bytes "failed to stop current epoch for " ++ what ++ bytes ": " ++ render e) in
      if is_unconfirmed e
      then (latch_quarantine render m old.revision.epoch e a.now, err e)
      else (publish_terminal_error render m failed a.now, err failed)

  rollback_answered :
      Active → Text → Text → ℕ → Manager × Result InstanceStatus → Manager × Result ApplyOutcome
  rollback_answered old what apply_text now (m, ok status) = (
    install_switched m old.revision.epoch (relaunch old) status now,
    ok (ApplyOutcome.rolled_back old.revision apply_text),
  )
  rollback_answered old what apply_text now (m, err e) =
      let both = stop_unconfirmed (
        bytes "desired "
        ++ what
        ++ bytes " failed ("
        ++ apply_text
        ++ bytes "); rollback replacement "
        ++ render e) in
      let failed = apply_rollback_failed apply_text (render e) in
      if is_unconfirmed e
      then (latch_quarantine render m old.revision.epoch both now, err both)
      else (publish_terminal_error render m failed now, err failed)

  -- The old configuration is started again.
  roll_back : Manager → Apply → Active → Text → Text → Manager × Result ApplyOutcome
  unfolding rollback_answered
  roll_back m a old what apply_text = rollback_answered old what apply_text a.now (
      spawn_replacement render
        (publish_launch m (CoreState.restarting old.revision.epoch 0) (relaunch old) a.now)
        old.revision.epoch a.rollback)

  -- Behind the restoration of the old document.
  restored : Manager → Apply → Active → Text → Result (Option Text) → Manager × Result ApplyOutcome
  unfolding roll_back with_result_warning
  restored m a old apply_text (err restore_error) =
      let failed =
        apply_rollback_failed apply_text
          (bytes "runtime restore failed: " ++ render restore_error) in
      (publish_terminal_error render m failed a.now, err failed)
  restored m a old apply_text (ok warning) =
      with_result_warning warning (roll_back m a old (bytes "apply") apply_text)

  -- The desired core within the old epoch.
  restart_spawned :
      Apply
      → Active
      → PreparedLaunch
      → Manager × Result InstanceStatus
      → Manager × Result ApplyOutcome
  unfolding restored
  restart_spawned a old p (m, ok status) =
      (install_switched m p.revision.epoch p status a.now, ok (ApplyOutcome.restarted p.revision))
  restart_spawned a old p (m, err e) =
      let otherwise = restored m a old (render e) a.restore in
      if is_unconfirmed e
      then (latch_quarantine render m p.revision.epoch e a.now, err e)
      else otherwise

  pub restart_stopped :
      Manager → Apply → Active → PreparedLaunch → Result (Unit {0}) → Manager × Result ApplyOutcome
  unfolding unstopped restart_spawned
  restart_stopped m a old p (err e) = unstopped m a old (bytes "reconcile") e
  restart_stopped m a old p (ok done) = restart_spawned a old p (
      spawn_replacement render
        (publish_launch (record m { live = without old.instance_of.epoch m.live })
          (CoreState.restarting p.revision.epoch 0) p a.now)
        p.revision.epoch a.replacement)

  restart_with_compensation :
      Manager → Apply → Active → PreparedLaunch → Manager × Result ApplyOutcome
  unfolding restart_stopped
  restart_with_compensation m a old p =
      restart_stopped (record m { current = none }) a old p
        (stop_and_confirm_dead render old.instance_of.status.state a.old_stop)

  -- The desired core in an epoch of its own.
  switch_spawned :
      Apply
      → Active
      → PreparedLaunch
      → Manager × Result InstanceStatus
      → Manager × Result ApplyOutcome
  unfolding roll_back
  switch_spawned a old p (m, ok status) =
      let installed = install_switched m p.revision.epoch p status a.now in
      (
        record installed {
          artifacts = cleaned old.revision.epoch a.old_cleanup installed.artifacts;
        },
        ok (ApplyOutcome.switched p.revision),
      )
  switch_spawned a old p (m, err e) =
      let rest = record m { artifacts = cleaned p.revision.epoch a.cleanup m.artifacts } in
      let otherwise = roll_back rest a old (bytes "switch") (render e) in
      if is_unconfirmed e
      then (latch_quarantine render m p.revision.epoch e a.now, err e)
      else otherwise

  pub switch_stopped :
      Manager → Apply → Active → PreparedLaunch → Result (Unit {0}) → Manager × Result ApplyOutcome
  unfolding unstopped switch_spawned
  switch_stopped m a old p (err e) =
      unstopped (record m { artifacts = cleaned p.revision.epoch a.cleanup m.artifacts }) a old
        (bytes "switch") e
  switch_stopped m a old p (ok done) = switch_spawned a old p (
      spawn_replacement render
        (publish_launch (record m { live = without old.instance_of.epoch m.live })
          (CoreState.switching (some old.revision.epoch) p.revision.epoch) p a.now)
        p.revision.epoch a.replacement)

  switch_prepared :
      Manager → Apply → Active → ℕ → Result PreparedLaunch → Manager × Result ApplyOutcome
  unfolding switch_stopped
  switch_prepared m a old epoch (err e) = (m, err e)
  switch_prepared m a old epoch (ok given) =
      switch_stopped (record m { current = none }) a old (launch_for epoch given)
        (stop_and_confirm_dead render old.instance_of.status.state a.old_stop)

  switch_with_compensation : Manager → Apply → Active → Manager × Result ApplyOutcome
  unfolding switch_prepared
  switch_with_compensation m a old =
      let epoch = next_epoch m.epoch in
      switch_prepared (record m { epoch = epoch; artifacts = epoch ∷ m.artifacts }) a old epoch
        (a.switch_prepare epoch)

  -- Behind the commit of the new document to the path of the running core.
  apply_committed :
      Manager
      → Apply
      → Active
      → PreparedLaunch
      → Change
      → Result (Option Text)
      → Manager × Result ApplyOutcome
  unfolding in_place in_place_outcome with_result_warning restart_with_compensation
  apply_committed m a active p change (err e) = (m, err e)
  apply_committed m a active p change (ok warning) =
      let restart = with_result_warning warning (restart_with_compensation m a active p) in
      if reconcile_in_place a.reconcile change
      then (
        in_place m active p a.now,
        ok (with_durability_warning (in_place_outcome change p.revision) warning),
      )
      else restart

  apply_backed :
      Manager
      → Apply
      → Active
      → PreparedLaunch
      → Change
      → Result (Unit {0})
      → Manager × Result ApplyOutcome
  unfolding apply_committed
  apply_backed m a active p change (err e) = (m, err e)
  apply_backed m a active p change (ok done) = apply_committed m a active p change a.commit

  apply_classified :
      Manager → Apply → Active → PreparedLaunch → Change → Manager × Result ApplyOutcome
  unfolding switch_with_compensation apply_backed
  apply_classified m a active p Change.noop = (m, ok (ApplyOutcome.noop active.revision))
  apply_classified m a active p Change.switch = switch_with_compensation m a active
  apply_classified m a active p Change.patch = apply_backed m a active p Change.patch a.backup
  apply_classified m a active p Change.reload = apply_backed m a active p Change.reload a.backup

  -- Behind the preparation and the classification of the change.
  apply_prepared :
      Manager → Apply → Active → Result (PreparedLaunch × Change) → Manager × Result ApplyOutcome
  unfolding apply_classified
  apply_prepared m a active (err e) = (m, err e)
  apply_prepared m a active (ok (given, change)) =
      apply_classified m a active (apply_launch active.revision given) change

  apply_current : Manager → Apply → Option Active → Manager × Result ApplyOutcome
  unfolding conflict apply_prepared
  apply_current m a none = (m, err not_started)
  apply_current m a (some active) =
      if is_terminal active.instance_of.status.state
      then (m, err not_started)
      else apply_prepared m a active (
          conflict a.expected_revision (revision_id active.revision)
          >>= (λ c. a.load)
          >>= (λ l. a.prepare >>= (λ p. a.change >>= (λ c. ok (p, c)))))

  apply_admitted : Manager → Apply → Result (Unit {0}) → Manager × Result ApplyOutcome
  unfolding apply_current
  apply_admitted m a (err e) = (m, err e)
  apply_admitted m a (ok done) = apply_current m a m.current

  unfoldable pub apply_config : Manager → Apply → Manager × Result ApplyOutcome
  unfolding apply_admitted
  apply_config m a = apply_admitted m a (reject_quarantine m.quarantine)
