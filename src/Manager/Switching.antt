-- ===== src/Manager/Switching.antt =====
-- `CoreManager::restart` and `switch` of crates/nyanpasu-core-manager/src/manager/switching.rs under
-- the control lock, hard and graceful. A record answers what a switch meets outside; the new core
-- (the bootstrap of a graceful switch) is stopped at most once in any run, so `halt` is one answer.
pub mod Owned
use nyanpasu_service.Prelude.{
  ℕ, Bool, true, false, not, Option, none, some, List, [], ◌∷◌, ◌++◌, if◌then◌else◌,
}
use nyanpasu_service.Text.{Text, bytes}
use nyanpasu_service.Kind.{ClashCoreKind}
use nyanpasu_service.Error.{Error, Result, ok, err, ◌>>=◌, not_started, stop_unconfirmed}
use nyanpasu_service.State.{CoreState, InstanceState, InstanceStatus, is_terminal}
use nyanpasu_service.Spec.{InstanceSpec}
use nyanpasu_service.Instance.Stop.{Answers, stop_and_confirm_dead}
use nyanpasu_service.Manager.Ctrl.{QuarantinedEpoch, Active, Manager, without}
use nyanpasu_service.Manager.Quarantine.{
  record_quarantine, reject_quarantine, latch_quarantine, publish_terminal_error,
}
use nyanpasu_service.Manager.Launch.{
  PreparedLaunch, next_epoch, launch_for, cleaned, is_unconfirmed, install_switched, publish_launch,
  republish_retained, Halt, Replacement, latch_if_unconfirmed, spawn_replacement,
}
use nyanpasu_service.Manager.Apply.InPlace.{Reconcile, patch_and_verify}
use nyanpasu_service.Manager.Lifecycle.{Start, start_locked, start_prepared, stale_stopped}

pub data DegradeReason : Type 0 where
  not_running unsupported_kind dns_listen inbound_conflict patch_failed http_controller :
      DegradeReason

-- `OverlapBlock` of config/mihomo.rs
pub data OverlapBlock : Type 0 where
  dns_listen inbound_surface : OverlapBlock

pub data SwitchOutcome : Type 0 where
  graceful : SwitchOutcome
  hard : DegradeReason → SwitchOutcome
  durability_uncertain : SwitchOutcome → Text → SwitchOutcome

abbrev pub is_mihomo : ClashCoreKind → Bool
is_mihomo ClashCoreKind.mihomo = true
is_mihomo ClashCoreKind.clash_rust = false
is_mihomo ClashCoreKind.clash_premium = false
is_mihomo ClashCoreKind.meow = false

blocked : Option OverlapBlock → Option DegradeReason
blocked none = none
blocked (some OverlapBlock.dns_listen) = some DegradeReason.dns_listen
blocked (some OverlapBlock.inbound_surface) = some DegradeReason.inbound_conflict

unfoldable pub graceful_degrade_reason :
    Bool → ClashCoreKind → Option OverlapBlock → Option DegradeReason
unfolding blocked
graceful_degrade_reason local_controller kind overlap_block =
    if not local_controller
    then some DegradeReason.http_controller
    else if not (is_mihomo kind)
    then some DegradeReason.unsupported_kind
    else blocked overlap_block

-- The answers that a switch meets. `start` is of the paths that start a core from nothing,
-- `local_controller` of the feature resolution, `prepare` of `prepare_launch_with_features` or of
-- `prepare_graceful` for the new epoch, `cleanup` of every clean-up of the new epoch.
pub record Switch : Type 0 where
  pub start : Start
  pub kind : ClashCoreKind
  pub load : Result (Unit {0})
  pub launchable : Result (Unit {0})
  pub local_controller : Result Bool
  pub overlap : Option OverlapBlock
  pub prepare : ℕ → Result PreparedLaunch
  pub cleanup : Result (Unit {0})
  pub old_stop : Answers
  pub old_cleanup : Result (Unit {0})
  pub spawn : Result (Unit {0})
  pub ready : Result InstanceStatus
  pub halt : Halt
  pub commit : Result (Option Text)
  pub restoration : Bool
  pub reconcile : Reconcile
  pub replacement : Replacement

-- The block under the timeout: the bootstrap takes a patch, if the restoration has one, or is only
-- probed.
unfoldable pub reconciled : Switch → Bool
reconciled a =
    let verified = patch_and_verify a.reconcile in
    if a.reconcile.in_time then (if a.restoration then verified else a.reconcile.healthy) else false

-- `with_switch_durability_result`
unfoldable pub with_switch_durability_result :
    Result SwitchOutcome → Option Text → Result SwitchOutcome
with_switch_durability_result result none = result
with_switch_durability_result (ok outcome) (some warning) =
    ok (SwitchOutcome.durability_uncertain outcome warning)
with_switch_durability_result (err e) (some warning) = err (Error.durability_uncertain e warning)

-- `cleanup_epoch(old_epoch).map(|()| outcome)`
switched : SwitchOutcome → Result (Unit {0}) → Result SwitchOutcome
switched outcome (ok done) = ok outcome
switched outcome (err e) = err e

-- A start in place of a switch, and what it reports.
pub hard_outcome : DegradeReason → Manager × Result (Unit {0}) → Manager × Result SwitchOutcome
hard_outcome reason (m, ok done) = (m, ok (SwitchOutcome.hard reason))
hard_outcome reason (m, err e) = (m, err e)

-- The new epoch's artifacts go, and the core that runs is shown again.
pub abandoned : Manager → Switch → ℕ → Manager
abandoned m a epoch =
    republish_retained (record m { artifacts = cleaned epoch a.cleanup m.artifacts }) a.start.now

-- The new epoch is dead; its artifacts go.
discarded : Manager → Switch → ℕ → Manager
discarded m a epoch = record m {
  artifacts = cleaned epoch a.cleanup m.artifacts;
  live = without epoch m.live;
}

module _ (render : Error → Text) where
  -- `hard_switch` behind the clean-up of the old epoch.
  hard_cleaned :
      Manager → Switch → ℕ → PreparedLaunch → Result (Unit {0}) → Manager × Result (Unit {0})
  hard_cleaned m a old_epoch p (err e) = (publish_terminal_error render m e a.start.now, err e)
  hard_cleaned m a old_epoch p (ok done) =
      start_prepared render (record m { artifacts = without old_epoch m.artifacts }) a.start p

  -- `hard_switch` behind the stop of the old instance.
  hard_stopped :
      Manager → Switch → ℕ → ℕ → PreparedLaunch → Result (Unit {0}) → Manager × Result (Unit {0})
  unfolding hard_cleaned
  hard_stopped m a old_epoch epoch p (err e) =
      let rest = record m { artifacts = cleaned epoch a.cleanup m.artifacts } in
      (
        latch_if_unconfirmed render rest old_epoch e a.start.now
            (publish_terminal_error render rest e a.start.now),
        err e,
      )
  hard_stopped m a old_epoch epoch p (ok done) =
      hard_cleaned (record m { live = without old_epoch m.live }) a old_epoch p a.old_cleanup

  pub hard_prepared :
      Manager → Switch → Active → ℕ → Result PreparedLaunch → Manager × Result (Unit {0})
  unfolding hard_stopped abandoned
  hard_prepared m a old epoch (err e) = (abandoned m a epoch, err e)
  hard_prepared m a old epoch (ok given) =
      let p = launch_for epoch given in
      let switching = CoreState.switching (some old.instance_of.epoch) epoch in
      hard_stopped (record (publish_launch m switching p a.start.now) { current = none }) a
        old.instance_of.epoch epoch p
        (stop_and_confirm_dead render old.instance_of.status.state a.old_stop)

  hard_switch : Manager → Switch → Active → Manager × Result (Unit {0})
  unfolding hard_prepared
  hard_switch m a old =
      let epoch = next_epoch m.epoch in
      hard_prepared (record m { epoch = epoch; artifacts = epoch ∷ m.artifacts }) a old epoch
        (a.prepare epoch)

  -- The bootstrap could not be reconciled; its process is dead, and is replaced.
  replaced :
      Switch
      → ℕ
      → ℕ
      → PreparedLaunch
      → Manager × Result InstanceStatus
      → Manager × Result SwitchOutcome
  unfolding switched
  replaced a old_epoch epoch p (m, ok status) = (
    record (install_switched m epoch p status a.start.now) {
      artifacts = cleaned old_epoch a.old_cleanup m.artifacts;
    },
    switched (SwitchOutcome.hard DegradeReason.patch_failed) a.old_cleanup,
  )
  replaced a old_epoch epoch p (m, err e) = (
    latch_if_unconfirmed render m epoch e a.start.now (
        publish_terminal_error render (record m { artifacts = cleaned epoch a.cleanup m.artifacts })
          e a.start.now),
    err e,
  )

  unreconciled :
      Manager → Switch → ℕ → ℕ → PreparedLaunch → Result (Unit {0}) → Manager × Result SwitchOutcome
  unfolding replaced
  unreconciled m a old_epoch epoch p (err e) = (
    latch_if_unconfirmed render m epoch e a.start.now
        (publish_terminal_error render m e a.start.now),
    err e,
  )
  unreconciled m a old_epoch epoch p (ok done) =
      replaced a old_epoch epoch p
        (spawn_replacement render (record m { live = without epoch m.live }) epoch a.replacement)

  -- Behind the commit of the full configuration.
  committed :
      Manager → Switch → ℕ → ℕ → PreparedLaunch → InstanceStatus → Manager × Result SwitchOutcome
  unfolding unreconciled switched
  committed m a old_epoch epoch p status =
      if reconciled a
      then (
        record (install_switched m epoch p status a.start.now) {
          artifacts = cleaned old_epoch a.old_cleanup m.artifacts;
        },
        switched SwitchOutcome.graceful a.old_cleanup,
      )
      else unreconciled m a old_epoch epoch p
          (stop_and_confirm_dead render a.halt.before a.halt.answers)

  -- The commit failed, and the bootstrap was stopped.
  uncommitted : Manager → Switch → ℕ → Error → Result (Unit {0}) → Manager × Result SwitchOutcome
  unfolding discarded
  uncommitted m a epoch e (ok done) =
      let rest = discarded m a epoch in
      (
        latch_if_unconfirmed render rest epoch e a.start.now
            (publish_terminal_error render rest e a.start.now),
        err e,
      )
  uncommitted m a epoch e (err new_error) =
      let both = stop_unconfirmed (
        bytes "full runtime commit failed: "
        ++ render e
        ++ bytes "; bootstrap stop also failed: "
        ++ render new_error) in
      (latch_quarantine render m epoch both a.start.now, err both)

  with_warning : Option Text → Manager × Result SwitchOutcome → Manager × Result SwitchOutcome
  with_warning warning (m, result) = (m, with_switch_durability_result result warning)

  commit_answered :
      Manager
      → Switch
      → ℕ
      → ℕ
      → PreparedLaunch
      → InstanceStatus
      → Result (Option Text)
      → Manager × Result SwitchOutcome
  unfolding uncommitted committed with_warning
  commit_answered m a old_epoch epoch p status (err e) =
      uncommitted m a epoch e (stop_and_confirm_dead render a.halt.before a.halt.answers)
  commit_answered m a old_epoch epoch p status (ok warning) =
      with_warning warning (committed m a old_epoch epoch p status)

  -- The old instance could not be stopped for certain, and the bootstrap was stopped.
  old_unstopped :
      Manager → Switch → ℕ → ℕ → Error → Result (Unit {0}) → Manager × Result SwitchOutcome
  unfolding discarded
  old_unstopped m a old_epoch epoch e (ok done) =
      let rest = discarded m a epoch in
      (
        latch_if_unconfirmed render rest old_epoch e a.start.now
            (publish_terminal_error render rest e a.start.now),
        err e,
      )
  old_unstopped m a old_epoch epoch e (err new_error) =
      let both = stop_unconfirmed (
        bytes "old epoch stop failed: "
        ++ render e
        ++ bytes "; new bootstrap stop also failed: "
        ++ render new_error) in
      let recorded =
        if is_unconfirmed e
        then record_quarantine m.quarantine old_epoch (render e)
        else m.quarantine in
      (
        latch_quarantine render (record m { quarantine = recorded }) epoch both a.start.now,
        err both,
      )

  old_stopped :
      Manager
      → Switch
      → ℕ
      → ℕ
      → PreparedLaunch
      → InstanceStatus
      → Result (Unit {0})
      → Manager × Result SwitchOutcome
  unfolding old_unstopped commit_answered
  old_stopped m a old_epoch epoch p status (err e) =
      old_unstopped m a old_epoch epoch e
        (stop_and_confirm_dead render a.halt.before a.halt.answers)
  old_stopped m a old_epoch epoch p status (ok done) =
      commit_answered (record m { live = without old_epoch m.live }) a old_epoch epoch p status
        a.commit

  -- The bootstrap did not become ready, and was stopped; the old core still runs.
  bootstrap_rejected :
      Manager → Switch → ℕ → Error → Result (Unit {0}) → Manager × Result SwitchOutcome
  unfolding abandoned
  bootstrap_rejected m a epoch e (ok done) =
      (abandoned (record m { live = without epoch m.live }) a epoch, err e)
  bootstrap_rejected m a epoch e (err stop_error) =
      let both =
        stop_unconfirmed (
          render e
          ++ bytes "; failed to stop rejected graceful bootstrap: "
          ++ render stop_error) in
      (latch_quarantine render m epoch both a.start.now, err both)

  bootstrapped :
      Manager
      → Switch
      → Active
      → ℕ
      → PreparedLaunch
      → Result InstanceStatus
      → Manager × Result SwitchOutcome
  unfolding bootstrap_rejected old_stopped
  bootstrapped m a old epoch p (err e) =
      bootstrap_rejected m a epoch e (stop_and_confirm_dead render a.halt.before a.halt.answers)
  bootstrapped m a old epoch p (ok status) =
      old_stopped (record m { current = none }) a old.instance_of.epoch epoch p status
        (stop_and_confirm_dead render old.instance_of.status.state a.old_stop)

  graceful_spawned :
      Manager
      → Switch
      → Active
      → ℕ
      → PreparedLaunch
      → Result (Unit {0})
      → Manager × Result SwitchOutcome
  unfolding abandoned bootstrapped
  graceful_spawned m a old epoch p (err e) = (abandoned m a epoch, err e)
  graceful_spawned m a old epoch p (ok done) =
      bootstrapped (record m { live = epoch ∷ m.live }) a old epoch p a.ready

  pub graceful_prepared :
      Manager → Switch → Active → ℕ → Result PreparedLaunch → Manager × Result SwitchOutcome
  unfolding abandoned graceful_spawned
  graceful_prepared m a old epoch (err e) = (abandoned m a epoch, err e)
  graceful_prepared m a old epoch (ok given) =
      let p = launch_for epoch given in
      let switching = CoreState.switching (some old.instance_of.epoch) epoch in
      graceful_spawned (publish_launch m switching p a.start.now) a old epoch p a.spawn

  graceful_switch : Manager → Switch → Active → Manager × Result SwitchOutcome
  unfolding graceful_prepared
  graceful_switch m a old =
      let epoch = next_epoch m.epoch in
      graceful_prepared (record m { epoch = epoch; artifacts = epoch ∷ m.artifacts }) a old epoch
        (a.prepare epoch)

  by_reason : Manager → Switch → Active → Option DegradeReason → Manager × Result SwitchOutcome
  unfolding hard_outcome hard_switch graceful_switch
  by_reason m a old (some reason) = hard_outcome reason (hard_switch m a old)
  by_reason m a old none = graceful_switch m a old

  -- A switch of a core that runs, behind the checks of the new one.
  running_switch : Manager → Switch → Active → Result Bool → Manager × Result SwitchOutcome
  unfolding by_reason
  running_switch m a old (err e) = (m, err e)
  running_switch m a old (ok local_controller) =
      by_reason m a old (graceful_degrade_reason local_controller a.kind a.overlap)

  switch_over : Manager → Switch → Option Active → Manager × Result SwitchOutcome
  unfolding hard_outcome running_switch
  switch_over m a none = hard_outcome DegradeReason.not_running (start_locked render m a.start)
  switch_over m a (some active) =
      if is_terminal active.instance_of.status.state
      then hard_outcome DegradeReason.not_running (
          stale_stopped render (record m { current = none }) a.start active.instance_of.epoch
            (stop_and_confirm_dead render active.instance_of.status.state a.start.stale_stop))
      else running_switch m a active (a.load >>= (λ l. a.launchable >>= (λ c. a.local_controller)))

  unfoldable pub switch_locked : Manager → Switch → Manager × Result SwitchOutcome
  unfolding switch_over
  switch_locked m a = switch_over m a m.current

  switch_admitted : Manager → Switch → Result (Unit {0}) → Manager × Result SwitchOutcome
  switch_admitted m a (err e) = (m, err e)
  switch_admitted m a (ok done) = switch_locked m a

  unfoldable pub switch : Manager → Switch → Manager × Result SwitchOutcome
  unfolding switch_admitted
  switch m a = switch_admitted m a (reject_quarantine m.quarantine)

  restart_last : Manager → Switch → Option InstanceSpec → Manager × Result SwitchOutcome
  restart_last m a none = (m, err not_started)
  restart_last m a (some spec) = switch_locked m a

  restart_admitted : Manager → Switch → Result (Unit {0}) → Manager × Result SwitchOutcome
  unfolding restart_last
  restart_admitted m a (err e) = (m, err e)
  restart_admitted m a (ok done) = restart_last m a m.last_spec

  -- `restart`; the answers are of a switch to the last spec.
  unfoldable pub restart : Manager → Switch → Manager × Result SwitchOutcome
  unfolding restart_admitted
  restart m a = restart_admitted m a (reject_quarantine m.quarantine)
