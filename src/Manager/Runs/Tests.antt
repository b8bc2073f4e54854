-- ===== src/Manager/Runs/Tests.antt =====
-- A manager whose core starts, is switched gracefully, and then cannot be stopped for certain.
use nyanpasu_service.Prelude.{ℕ, ◌≡◌, refl, true, none, List, [], ◌∷◌, map}
use nyanpasu_service.Text.{Text, bytes}
use nyanpasu_service.Kind.{ClashCoreKind}
use nyanpasu_service.Error.{Error, Result, ok}
use nyanpasu_service.Health.{default_policy}
use nyanpasu_service.State.{InstanceState, Host, initial_status}
use nyanpasu_service.Spec.{InstanceSpec}
use nyanpasu_service.Instance.Stop.{
  ReapOutcome, SupervisorStop, MonitorJoin, Answers, stop_and_confirm_dead,
}
use nyanpasu_service.Manager.Ctrl.{Manager, without}
use nyanpasu_service.Manager.Quarantine.{
  record_quarantine, reject_quarantine, quarantine_error, latch_quarantine, publish_terminal_error,
}
use nyanpasu_service.Manager.Launch.{
  PreparedLaunch, Replacement, install_switched, publish_launch, latch_if_unconfirmed,
}
use nyanpasu_service.Manager.Lifecycle.{Start, start}
use nyanpasu_service.Manager.Stopping.{stop}
use nyanpasu_service.Manager.Apply.InPlace.{patch_and_verify}
use nyanpasu_service.Manager.Switching.{
  reconciled, Switch, SwitchOutcome, switch, switch_locked, graceful_degrade_reason,
  with_switch_durability_result,
}
use nyanpasu_service.Manager.Runs.{Operation, run}
use nyanpasu_service.Manager.Ownership.{IsOwned}
use nyanpasu_service.Manager.Runs.Owned.{run-IsOwned}

abbrev silent : Error → Text
silent e = bytes "error"

abbrev empty : Manager
empty = record {
  current = none;
  last_spec = none;
  quarantine = [];
  status = initial_status 0;
  epoch = 4;
  log_sink = true;
  artifacts = [];
  live = [];
}

abbrev stubborn : Answers
stubborn = record {
  supervisor = SupervisorStop.failed (bytes "busy");
  monitor = MonitorJoin.aborted;
  state_after = InstanceState.stopping;
  pid_record = true;
  has_parent = true;
  pid_file_exists = ok true;
  reap = ok ReapOutcome.not_found;
  timeout = bytes "5s";
}

abbrev spec : InstanceSpec
spec = record {
  core = record {
    kind = ClashCoreKind.mihomo;
    binary_path = bytes "/mihomo";
    version = none;
    features = [];
  };
  config_path = bytes "/config.yaml";
  working_dir = bytes "/";
  pid_file = none;
  options = record { startup_timeout = 100; health = default_policy };
}

abbrev prepared_at : ℕ → Result PreparedLaunch
prepared_at epoch = ok (record {
  source_spec = spec;
  host = Host.unix_socket (bytes "/run/core.sock");
  revision = record {
    epoch = epoch;
    generation = 1;
    source_hash = bytes "a";
    effective_hash = bytes "b";
    runtime_path = bytes "/runtime/5.yaml";
  };
  capabilities = [];
  runtime_features = [];
})

abbrev starting_up : Start
starting_up = record {
  now = 1;
  stale_stop = stubborn;
  stale_cleanup = ok tt;
  load = ok tt;
  prepare = prepared_at;
  cleanup = ok tt;
  spawn = ok tt;
  ready = ok (record { state = InstanceState.running 7; health = none });
  rejected_state = InstanceState.starting;
  rejected_stop = stubborn;
}

abbrev obedient : Answers
obedient = record stubborn { supervisor = SupervisorStop.stopped; monitor = MonitorJoin.joined }

abbrev replacing : Replacement
replacing = record {
  spawn = ok tt;
  ready = ok (record { state = InstanceState.running 8; health = none });
  halt = record { before = InstanceState.starting; answers = obedient };
}

abbrev switching_over : Switch
switching_over = record {
  start = starting_up;
  kind = ClashCoreKind.mihomo;
  load = ok tt;
  launchable = ok tt;
  local_controller = ok true;
  overlap = none;
  prepare = prepared_at;
  cleanup = ok tt;
  old_stop = obedient;
  old_cleanup = ok tt;
  spawn = ok tt;
  ready = ok (record { state = InstanceState.running 8; health = none });
  halt = record { before = InstanceState.starting; answers = obedient };
  commit = ok none;
  restoration = true;
  reconcile = record {
    in_time = true;
    client = ok tt;
    update = ok tt;
    configs = ok tt;
    verified = ok true;
    healthy = true;
  };
  replacement = replacing;
}

switched_gracefully :
    (switch silent (run silent empty (Operation.start_with starting_up ∷ [])) switching_over).1
    ≡ ok SwitchOutcome.graceful
unfolding run switch switch_locked start install_switched publish_launch reject_quarantine
    quarantine_error stop_and_confirm_dead graceful_degrade_reason with_switch_durability_result
    reconciled patch_and_verify
switched_gracefully = refl

abbrev operations : List Operation
operations =
    Operation.start_with starting_up
    ∷ Operation.switch_with switching_over
    ∷ Operation.stop_with (record { now = 2; stop = stubborn; cleanup = ok tt })
    ∷ []

quarantined_epochs : map (λ q. q.epoch) (run silent empty operations).quarantine ≡ (6 ∷ [])
unfolding run start switch switch_locked graceful_degrade_reason with_switch_durability_result
    reconciled patch_and_verify without stop install_switched publish_launch latch_if_unconfirmed
    record_quarantine reject_quarantine quarantine_error latch_quarantine publish_terminal_error
    stop_and_confirm_dead
quarantined_epochs = refl

still_alive : (run silent empty operations).live ≡ (6 ∷ [])
unfolding run start switch switch_locked graceful_degrade_reason with_switch_durability_result
    reconciled patch_and_verify without stop install_switched publish_launch latch_if_unconfirmed
    record_quarantine reject_quarantine quarantine_error latch_quarantine publish_terminal_error
    stop_and_confirm_dead
still_alive = refl

run-IsOwned_example : IsOwned (run silent empty operations)
run-IsOwned_example = run-IsOwned silent empty operations (tt, tt)
