-- ===== src/Manager/Apply/Tests.antt =====
-- A running core that takes a patch over, and one whose reload fails and that is rolled back.
use nyanpasu_service.Prelude.{◌≡◌, refl, true, none, some, [], ◌∷◌}
use nyanpasu_service.Text.{Text, bytes}
use nyanpasu_service.Kind.{ClashCoreKind}
use nyanpasu_service.Error.{Error, Result, ok, err, startup_failed}
use nyanpasu_service.Health.{default_policy}
use nyanpasu_service.State.{InstanceState, Host, ConfigRevision, initial_status}
use nyanpasu_service.Spec.{InstanceSpec}
use nyanpasu_service.Instance.Stop.{
  SupervisorStop, MonitorJoin, ReapOutcome, Answers, stop_and_confirm_dead,
}
use nyanpasu_service.Manager.Ctrl.{Active, Manager, without}
use nyanpasu_service.Manager.Quarantine.{reject_quarantine, quarantine_error}
use nyanpasu_service.Manager.Launch.{
  PreparedLaunch, Replacement, install_switched, publish_launch, spawn_replacement,
}
use nyanpasu_service.Manager.Apply.InPlace.{Change, reconcile_in_place}
use nyanpasu_service.Manager.Apply.{
  ApplyOutcome, Apply, with_durability_warning, with_durability_result, apply_config,
}
use nyanpasu_service.Manager.Apply.Report.{revision_of, Reported}
use nyanpasu_service.Manager.Apply.Outcome.{apply_config-Reported}

abbrev pub silent : Error → Text
silent e = bytes "error"

abbrev pub spec : InstanceSpec
spec = record {
  core = record {
    kind = ClashCoreKind.mihomo;
    binary_path = bytes "/mihomo";
    version = none;
    features = [];
  };
  config_path = bytes "/config.yaml";
  working_dir = bytes "/";
  pid_file = none;
  options = record { startup_timeout = 100; health = default_policy };
}

abbrev pub revision : ConfigRevision
revision = record {
  epoch = 5;
  generation = 1;
  source_hash = bytes "a";
  effective_hash = bytes "b";
  runtime_path = bytes "/runtime/5.yaml";
}

abbrev pub running_core : Active
running_core = record {
  instance_of = record {
    epoch = 5;
    status = record { state = InstanceState.running 7; health = none };
    host = Host.unix_socket (bytes "/run/core.sock");
  };
  source_spec = spec;
  revision = revision;
  capabilities = [];
  runtime_features = [];
}

abbrev pub up : Manager
up = record {
  current = some running_core;
  last_spec = some spec;
  quarantine = [];
  status = initial_status 0;
  epoch = 5;
  log_sink = true;
  artifacts = 5 ∷ [];
  live = 5 ∷ [];
}

abbrev pub obedient : Answers
obedient = record {
  supervisor = SupervisorStop.stopped;
  monitor = MonitorJoin.joined;
  state_after = InstanceState.stopping;
  pid_record = true;
  has_parent = true;
  pid_file_exists = ok true;
  reap = ok ReapOutcome.not_found;
  timeout = bytes "5s";
}

abbrev pub replacing : Result (Unit {0}) → Replacement
replacing spawn = record {
  spawn = spawn;
  ready = ok (record { state = InstanceState.running 8; health = none });
  halt = record { before = InstanceState.starting; answers = obedient };
}

abbrev pub given : PreparedLaunch
given = record {
  source_spec = spec;
  host = Host.unix_socket (bytes "/run/core.sock");
  revision = record revision { source_hash = bytes "c"; effective_hash = bytes "d" };
  capabilities = [];
  runtime_features = [];
}

abbrev pub applying : Change → Result (Unit {0}) → Apply
applying change update = record {
  now = 3;
  expected_revision = none;
  load = ok tt;
  prepare = ok given;
  change = ok change;
  backup = ok tt;
  commit = ok none;
  reconcile = record {
    in_time = true;
    client = ok tt;
    update = update;
    configs = ok tt;
    verified = ok true;
    healthy = true;
  };
  old_stop = obedient;
  replacement = replacing (err (startup_failed (bytes "bad")));
  restore = ok none;
  rollback = replacing (ok tt);
  switch_prepare = λ epoch. ok given;
  cleanup = ok tt;
  old_cleanup = ok tt;
}

patched_in_place :
    (apply_config silent up (applying Change.patch (ok tt))).1
    ≡ ok (
        ApplyOutcome.patched
          (record revision { generation = 2; source_hash = bytes "c"; effective_hash = bytes "d" }))
unfolding apply_config reject_quarantine quarantine_error reconcile_in_place with_durability_warning
patched_in_place = refl

failed_reload_rolled_back :
    (apply_config silent up (applying Change.reload (err (startup_failed (bytes "bad"))))).1
    ≡ ok (ApplyOutcome.rolled_back revision (bytes "error"))
unfolding apply_config reject_quarantine quarantine_error reconcile_in_place with_durability_warning
    with_durability_result stop_and_confirm_dead install_switched publish_launch spawn_replacement
    without
failed_reload_rolled_back = refl

patched_reported :
    (revision_of (apply_config silent up (applying Change.patch (ok tt))).0.current
      ≡ some
          (record revision { generation = 2; source_hash = bytes "c"; effective_hash = bytes "d" }))
unfolding apply_config reject_quarantine quarantine_error reconcile_in_place
patched_reported = refl

apply_config-Reported_example :
    Reported up
      (apply_config silent up (applying Change.reload (err (startup_failed (bytes "bad")))))
apply_config-Reported_example =
    apply_config-Reported silent up (applying Change.reload (err (startup_failed (bytes "bad"))))
