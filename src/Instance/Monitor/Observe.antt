-- ===== src/Instance/Monitor/Observe.antt =====
-- What one probe observation does to the monitor: `apply_probe_observation` and
-- `drain_probe_observations` of crates/nyanpasu-core-manager/src/instance.rs.
pub mod Readiness
mod Tests
use native.Mathlib.Decide.{dec_lt}
use mathlib.Core.Logic.{ite}
use nyanpasu_service.Prelude.{
  ℕ, ◌+◌, Bool, true, false, ◌&&◌, ◌||◌, not, Option, none, some, List, [], ◌∷◌, ◌++◌, ltb, ◌==◌,
  if◌then◌else◌, min,
}
use nyanpasu_service.Text.{Text, bytes}
use nyanpasu_service.Health.{
  HealthPolicy, ProbeResult, TrackerState, TrackerUpdate, HealthTracker, new_tracker, observe,
  is_healthy,
}
use nyanpasu_service.State.{
  HealthState, HealthState-discrete, HealthStatus, StopReason, InstanceState, InstanceStatus,
  is_terminal, initial_instance,
}
use nyanpasu_service.Spec.{InstanceOptions}
use nyanpasu_service.Instance.Monitor.Data.{
  ProbePhase, ProbeObservation, TerminatedPayload, RunState, ProbeDriver, Monitor, SupervisorEvent,
  Answered, Event, Reading, is_set,
}

-- The health state that stands for a tracker state.
abbrev pub to_health : TrackerState → HealthState
to_health TrackerState.starting = HealthState.starting
to_health TrackerState.healthy = HealthState.healthy
to_health TrackerState.unhealthy = HealthState.unhealthy

-- `previous.filter(|status| status.state == state).map_or(fresh, |status| status.changed_at)`
changed_at_for : Option HealthStatus → HealthState → ℕ → ℕ
changed_at_for none state fresh = fresh
changed_at_for (some previous) state fresh =
    ite (HealthState-discrete previous.state state) previous.changed_at fresh

unfoldable pub reset_starting_health : Option HealthStatus → ℕ → HealthStatus
unfolding changed_at_for
reset_starting_health previous now_ms = record {
  state = HealthState.starting;
  changed_at = changed_at_for previous HealthState.starting now_ms;
  consecutive_failures = 0;
  last_error = none;
  last_success_at = none;
}

abbrev previous_success : Option HealthStatus → Option ℕ
previous_success none = none
previous_success (some previous) = previous.last_success_at

last_success : Option HealthStatus → ProbeObservation → ProbeResult → Option ℕ
last_success previous o ProbeResult.healthy = some o.completed_at_ms
last_success previous o (ProbeResult.unhealthy detail) = previous_success previous

health_status : Option HealthStatus → TrackerUpdate → ProbeObservation → HealthStatus
unfolding changed_at_for last_success
health_status previous update o = record {
  state = to_health update.state;
  changed_at = changed_at_for previous (to_health update.state) o.completed_at_ms;
  consecutive_failures = update.consecutive_failures;
  last_error = update.last_error;
  last_success_at = last_success previous o o.result;
}

observation_applies : ProbeObservation → RunState → Bool
observation_applies o run = o.run_id == run.run_id && o.pid == run.pid

abbrev beyond : ℕ → Option ℕ → Bool
beyond at none = false
beyond at (some deadline) = ltb deadline at

-- Whether an observation of the current run came too late to count.
too_late : ℕ → Monitor → ProbeObservation → Bool
too_late initial_deadline m o =
    (not m.ever_ready && ltb initial_deadline o.completed_at)
    || beyond o.completed_at m.respawn_deadline

tell_liveness : Option ProbeDriver → Option ProbeDriver
tell_liveness none = none
tell_liveness (some driver) = some (record driver { use_liveness = true })

-- The supervisor acknowledged the first healthy state of the run.
acknowledged : Monitor → RunState → TrackerUpdate → ProbeObservation → Monitor
unfolding tell_liveness
acknowledged m run update o = record m {
  ever_ready = true;
  respawn_deadline = none;
  current = some (record run { ready = true });
  driver = tell_liveness m.driver;
  status = record {
    state = InstanceState.running run.pid;
    health = some (health_status m.status.health update o);
  };
}

apply_to_run : Monitor → RunState → Answered → Monitor × Bool
unfolding acknowledged
apply_to_run m run (o, answer) =
    let (tracker, update) = observe run.tracker o.completed_at o.result in
    let tracked = record run { tracker = tracker } in
    let asked = record tracked { ack_attempted = true } in
    if not run.ack_attempted && is_healthy update.state
    then (
      (if answer then acknowledged m asked update o else record m { current = some asked }),
      answer,
    )
    else (
      record m {
        current = some tracked;
        status = record m.status { health = some (health_status m.status.health update o) };
      },
      false,
    )

-- `apply_probe_observation`, with whether the run became ready.
pub apply_probe_observation : ℕ → Monitor → Answered → Option RunState → Monitor × Bool
unfolding observation_applies too_late
apply_probe_observation initial_deadline m (o, answer) none = (m, false)
apply_probe_observation initial_deadline m (o, answer) (some run) =
    if observation_applies o run && not (too_late initial_deadline m o)
    then apply_to_run m run (o, answer)
    else (m, false)

-- `drain_probe_observations`: up to the first observation that makes the run ready.
pub drain_probe_observations : ℕ → Monitor → List Answered → Monitor × Bool
drain_probe_observations initial_deadline m [] = (m, false)
drain_probe_observations initial_deadline m (o ∷ rest) =
    let (next, became_ready) = apply_probe_observation initial_deadline m o m.current in
    let drained = drain_probe_observations initial_deadline next rest in
    if became_ready then (next, true) else drained
