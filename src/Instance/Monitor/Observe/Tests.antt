-- ===== src/Instance/Monitor/Observe/Tests.antt =====
-- An observation that makes a run ready.
use nyanpasu_service.Prelude.{◌≡◌, refl, true, false, none, some}
use nyanpasu_service.Health.{ProbeResult, default_policy, new_tracker, observe}
use nyanpasu_service.State.{InstanceState, initial_instance}
use nyanpasu_service.Instance.Monitor.Data.{ProbePhase, ProbeObservation, RunState, Monitor}
use nyanpasu_service.Instance.Monitor.Observe.{
  observation_applies, too_late, apply_to_run, apply_probe_observation,
}
use nyanpasu_service.Instance.Monitor.Observe.Readiness.{MakesReady, ready_only_if}

abbrev run : RunState
run = record {
  run_id = 1;
  pid = 4242;
  ack_attempted = false;
  ready = false;
  tracker = new_tracker default_policy 0;
}

abbrev waiting : Monitor
waiting = record {
  status = initial_instance 0;
  user_stop = false;
  probe_timeout = false;
  probe_cancel = false;
  cancel = false;
  ever_ready = false;
  timeout_fired = false;
  probes_cancelled = false;
  next_run_id = 1;
  current = some run;
  driver = some (record { run_id = 1; pid = 4242; use_liveness = false });
  respawn_deadline = none;
  last_exit = none;
  finished = false;
}

abbrev up : ProbeObservation
up = record {
  run_id = 1;
  pid = 4242;
  phase = ProbePhase.readiness;
  completed_at = 10;
  completed_at_ms = 10;
  result = ProbeResult.healthy;
}

becomes_ready : (apply_probe_observation 100 waiting (up, true) waiting.current).1 ≡ true
unfolding apply_probe_observation observation_applies too_late apply_to_run observe new_tracker
becomes_ready = refl

late_is_passed : (apply_probe_observation 9 waiting (up, true) waiting.current).1 ≡ false
unfolding apply_probe_observation observation_applies too_late
late_is_passed = refl

ready_only_if_example :
    (r : RunState) × MakesReady 100 waiting up true r
    × ((apply_probe_observation 100 waiting (up, true) waiting.current).0.status.state
        ≡ InstanceState.running r.pid)
ready_only_if_example = ready_only_if 100 waiting up true becomes_ready
