-- ===== src/Manager/Launch.antt =====
-- What the manager's operations share: launches, epochs, the stop of an instance with its answers,
-- and the replacement of one (`spawn_replacement` of manager/switching.rs under
-- crates/nyanpasu-core-manager/src).
pub mod Owned
use Prim.Native.Nat.{◌^◌, ◌%◌}
use nyanpasu_service.Prelude.{
  ℕ, ◌+◌, Bool, true, false, not, Option, none, some, List, [], ◌∷◌, ◌++◌, if◌then◌else◌,
}
use nyanpasu_service.Text.{Text, bytes}
use nyanpasu_service.Error.{Error, Result, ok, err, already_running, not_started, stop_unconfirmed}
use nyanpasu_service.State.{
  CoreState, StopReason, InstanceState, InstanceStatus, is_terminal, Feature, RuntimeFeature,
  SpecSummary, ConfigRevision, Host,
}
use nyanpasu_service.Spec.{InstanceSpec}
use nyanpasu_service.Instance.Stop.{Answers, stop_and_confirm_dead}
use nyanpasu_service.Manager.Publish.{
  apply_epoch_status, publish, publish_instance, spec_summary, instance_core_state,
}
use nyanpasu_service.Manager.Ctrl.{QuarantinedEpoch, Instance, Active, Manager, without}
use nyanpasu_service.Manager.Quarantine.{
  reject_quarantine, latch_quarantine, publish_terminal_error,
}

-- `PreparedLaunch`, less the documents, which these operations only pass on.
pub record PreparedLaunch : Type 0 where
  pub source_spec : InstanceSpec
  pub host : Host
  pub revision : ConfigRevision
  pub capabilities : List Feature
  pub runtime_features : List RuntimeFeature

-- The revision of a launch that is prepared for a new epoch (`prepare_launch_with_features`,
-- `prepare_graceful`), the rest of the launch being given.
abbrev pub launch_for : ℕ → PreparedLaunch → PreparedLaunch
launch_for epoch p = record p { revision = record (p.revision) { epoch = epoch; generation = 1 } }

-- `next_epoch`: `fetch_add(1)` on the atomic, and one more.
abbrev pub next_epoch : ℕ → ℕ
next_epoch epoch = (epoch + 1) % 2 ^ 64

-- What `cleanup_epoch` leaves on disk, where it succeeds.
abbrev pub cleaned : ℕ → Result (Unit {0}) → List ℕ → List ℕ
cleaned epoch (ok done) artifacts = without epoch artifacts
cleaned epoch (err e) artifacts = artifacts

abbrev pub pid_of : InstanceState → ℕ
pid_of (InstanceState.running pid) = pid
pid_of state = 0

abbrev pub is_unconfirmed : Error → Bool
is_unconfirmed (stop_unconfirmed message) = true
is_unconfirmed other = false

-- The launch of an instance that was running before.
abbrev pub relaunch : Active → PreparedLaunch
relaunch active = record {
  source_spec = active.source_spec;
  host = active.instance_of.host;
  revision = active.revision;
  capabilities = active.capabilities;
  runtime_features = active.runtime_features;
}

abbrev pub launch_summary : PreparedLaunch → SpecSummary
launch_summary p = spec_summary p.source_spec p.capabilities p.runtime_features

-- An instance of `epoch` is up: it is published, and becomes the current one.
unfoldable pub install_switched : Manager → ℕ → PreparedLaunch → InstanceStatus → ℕ → Manager
install_switched m epoch p status now = record m {
  status =
      publish_instance m.status status.health p.host
        (CoreState.running p.revision.epoch (pid_of status.state)) (launch_summary p) p.revision
        now;
  last_spec = some p.source_spec;
  current = some (record {
    instance_of = record { epoch = epoch; status = status; host = p.host };
    source_spec = p.source_spec;
    revision = p.revision;
    capabilities = p.capabilities;
    runtime_features = p.runtime_features;
  });
}

-- The publication of a state with the data of a launch.
unfoldable pub publish_launch : Manager → CoreState → PreparedLaunch → ℕ → Manager
publish_launch m state p now = record m {
  status = publish m.status state (some (launch_summary p)) (some p.host) (some p.revision) now;
}

-- `republish_retained`
republish : Manager → ℕ → Option Active → Manager
republish m now none = m
republish m now (some active) = record m {
  status =
      publish_instance m.status active.instance_of.status.health active.instance_of.host
        (instance_core_state active.instance_of.epoch active.instance_of.status.state)
        (launch_summary (relaunch active)) active.revision now;
}

pub republish_retained : Manager → ℕ → Manager
unfolding republish
republish_retained m now = republish m now m.current

-- The stop of an instance: its state on entry, and the answers met.
pub record Halt : Type 0 where
  pub before : InstanceState
  pub answers : Answers

-- A process that is spawned, becomes ready or not, and is then stopped.
pub record Replacement : Type 0 where
  pub spawn : Result (Unit {0})
  pub ready : Result InstanceStatus
  pub halt : Halt

module _ (render : Error → Text) where
  -- `if matches!(error, StopUnconfirmed(_)) { return Err(latch_quarantine(…)) }`, the error being
  -- returned in either case.
  unfoldable pub latch_if_unconfirmed : Manager → ℕ → Error → ℕ → Manager → Manager
  latch_if_unconfirmed m epoch e now otherwise =
      if is_unconfirmed e then latch_quarantine render m epoch e now else otherwise

  -- A replacement that did not become ready.
  replacement_rejected : Manager → ℕ → Error → Result (Unit {0}) → Manager × Result InstanceStatus
  replacement_rejected m epoch not_ready (ok done) =
      (record m { live = without epoch m.live }, err not_ready)
  replacement_rejected m epoch not_ready (err stop_error) = (
    m,
    err (
        stop_unconfirmed (
          render not_ready
          ++ bytes "; failed to stop rejected replacement: "
          ++ render stop_error)),
  )

  replacement_spawned : Manager → ℕ → Halt → Result InstanceStatus → Manager × Result InstanceStatus
  unfolding replacement_rejected
  replacement_spawned m epoch halt (ok status) = (m, ok status)
  replacement_spawned m epoch halt (err not_ready) =
      replacement_rejected m epoch not_ready (stop_and_confirm_dead render halt.before halt.answers)

  replace : Manager → ℕ → Replacement → Result (Unit {0}) → Manager × Result InstanceStatus
  unfolding replacement_spawned
  replace m epoch r (err e) = (m, err e)
  replace m epoch r (ok done) =
      replacement_spawned (record m { live = epoch ∷ m.live }) epoch r.halt r.ready

  -- `spawn_replacement`
  unfoldable pub spawn_replacement : Manager → ℕ → Replacement → Manager × Result InstanceStatus
  unfolding replace
  spawn_replacement m epoch r = replace m epoch r r.spawn
