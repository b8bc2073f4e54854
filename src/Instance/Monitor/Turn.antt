-- ===== src/Instance/Monitor/Turn.antt =====
-- The turns of `monitor_loop` (crates/nyanpasu-core-manager/src/instance.rs), one function for each
-- arm of its `select!`.
mod Lifecycle
mod Tests
use native.Mathlib.Decide.{dec_lt}
use mathlib.Core.Logic.{ite}
use nyanpasu_service.Prelude.{
  ℕ, ◌+◌, Bool, true, false, ◌&&◌, ◌||◌, not, Option, none, some, List, [], ◌∷◌, ◌++◌, ltb, ◌==◌,
  if◌then◌else◌, min,
}
use nyanpasu_service.Text.{Text, bytes}
use nyanpasu_service.Health.{
  HealthPolicy, ProbeResult, TrackerState, TrackerUpdate, HealthTracker, new_tracker, observe,
  is_healthy,
}
use nyanpasu_service.State.{
  HealthState, HealthState-discrete, HealthStatus, StopReason, InstanceState, InstanceStatus,
  is_terminal, initial_instance,
}
use nyanpasu_service.Spec.{InstanceOptions}
use nyanpasu_service.Instance.Monitor.Data.{
  ProbePhase, ProbeObservation, TerminatedPayload, RunState, ProbeDriver, Monitor, SupervisorEvent,
  Answered, Event, Reading, is_set,
}
use nyanpasu_service.Instance.Monitor.Observe.{
  reset_starting_health, apply_probe_observation, drain_probe_observations,
}

-- `u64::saturating_add(1)`
abbrev pub next_id : ℕ → ℕ
next_id n = min (n + 1) 18446744073709551615

-- `payload.code == Some(0)`
abbrev clean_exit : Option TerminatedPayload → Bool
clean_exit none = false
clean_exit (some payload) = elim payload.code [ none ↦ false | some code ↦ code == 0 ]

abbrev exit_text : Option TerminatedPayload → Text
exit_text none = bytes "None"
exit_text (some payload) = bytes "Some(" ++ payload.debug ++ bytes ")"

pub terminal_reason : Monitor → Text → StopReason
terminal_reason m diagnostics =
    if m.user_stop
    then StopReason.user
    else if m.probe_timeout
    then StopReason.error (bytes "health probe timed out\n" ++ diagnostics)
    else if clean_exit m.last_exit
    then StopReason.finished
    else StopReason.error
        (bytes "core exited unexpectedly (" ++ exit_text m.last_exit ++ bytes ")\n" ++ diagnostics)

-- `publish_terminal`, and the return behind it.
publish_terminal : Monitor → Text → Monitor
unfolding terminal_reason
publish_terminal m diagnostics = record m {
  status = record { state = InstanceState.stopped (terminal_reason m diagnostics); health = none };
  finished = true;
}

-- What both deadlines do to a run that is not ready in time.
time_out : Monitor → Monitor
time_out m = record m {
  current = none;
  respawn_deadline = none;
  driver = none;
  probe_timeout = true;
  probe_cancel = true;
  cancel = true;
}

on_started : InstanceOptions → Monitor → Reading → ℕ → Monitor
on_started options m r pid =
    let run_id = next_id m.next_run_id in
    record m {
      next_run_id = run_id;
      status = record m.status { health = some (reset_starting_health m.status.health r.now_ms) };
      current = some (record {
        run_id = run_id;
        pid = pid;
        ack_attempted = false;
        ready = false;
        tracker = new_tracker options.health r.now;
      });
      respawn_deadline = if m.ever_ready then some (r.now + options.startup_timeout) else none;
      driver =
          if m.probes_cancelled
          then none
          else some (record { run_id = run_id; pid = pid; use_liveness = false });
    }

on_supervisor : InstanceOptions → Monitor → Reading → SupervisorEvent → Monitor
unfolding on_started publish_terminal
on_supervisor options m r (SupervisorEvent.started pid) = on_started options m r pid
on_supervisor options m r (SupervisorEvent.restarting attempt) = record m {
  driver = none;
  current = none;
  respawn_deadline = none;
  status = record {
    state = InstanceState.restarting attempt;
    health = some (reset_starting_health m.status.health r.now_ms);
  };
}
on_supervisor options m r (SupervisorEvent.exited payload) = record m {
  driver = none;
  current = none;
  respawn_deadline = none;
  last_exit = some payload;
}
on_supervisor options m r SupervisorEvent.gave_up = record m {
  driver = none;
  status = record {
    state = InstanceState.stopped (
        StopReason.error (bytes "core kept crashing; restart budget exhausted\n" ++ r.diagnostics));
    health = none;
  };
  finished = true;
}
on_supervisor options m r SupervisorEvent.stopped =
    publish_terminal (record m { driver = none }) r.diagnostics
on_supervisor options m r SupervisorEvent.ready = m
on_supervisor options m r SupervisorEvent.closed = publish_terminal m r.diagnostics

on_initial_deadline : ℕ → Monitor → List Answered → Monitor
on_initial_deadline initial_deadline m queued =
    let (drained, became_ready) = drain_probe_observations initial_deadline m queued in
    if not became_ready && not drained.ever_ready
    then record (time_out drained) { timeout_fired = true }
    else drained

on_respawn_deadline : ℕ → Monitor → List Answered → Monitor
on_respawn_deadline initial_deadline m queued =
    let (drained, became_ready) = drain_probe_observations initial_deadline m queued in
    if not became_ready && is_set drained.respawn_deadline then time_out drained else drained

-- The arms of the `select!`, a disabled one doing nothing. A probe request is answered outside.
pub turn : InstanceOptions → ℕ → Monitor → Reading → Event → Monitor
unfolding on_supervisor on_initial_deadline on_respawn_deadline
turn options initial_deadline m r (Event.supervisor e) = on_supervisor options m r e
turn options initial_deadline m r (Event.initial_deadline_passed queued) =
    if not m.ever_ready && not m.timeout_fired
    then on_initial_deadline initial_deadline m queued
    else m
turn options initial_deadline m r (Event.respawn_deadline_passed queued) =
    if is_set m.respawn_deadline then on_respawn_deadline initial_deadline m queued else m
turn options initial_deadline m r Event.probe_request = m
turn options initial_deadline m r (Event.observed o) =
    (apply_probe_observation initial_deadline m o m.current).0

-- The first arm, which `biased` tries before all others.
cancel_probes : Monitor → Monitor
cancel_probes m = record m {
  probes_cancelled = true;
  driver = none;
  current = none;
  respawn_deadline = none;
}

-- One turn of the loop. While a cancellation is pending the turn is the first arm's, and the event
-- waits for the next turn.
pub step : InstanceOptions → ℕ → Monitor → Reading → Event → Monitor
step options initial_deadline m r e =
    if m.finished
    then m
    else if m.probe_cancel && not m.probes_cancelled
    then cancel_probes m
    else turn options initial_deadline m r e

-- The requests that the guard of `probe_requests.recv()` hands to the driver.
data ProbeReply : Type 0 where
  forwarded : ProbeReply
  refused : Text → ProbeReply

answer_probe_request : Monitor → ProbeReply
answer_probe_request m = elim m.current [
  | none ↦ refused (bytes "instance is not running")
  | some run ↦
      if run.ready
      then (elim m.driver [
        | none ↦ refused (bytes "instance probe driver is not running")
        | some driver ↦ forwarded
      ])
      else refused (bytes "instance is not running")
]

-- The loop's locals and `Shared` at spawn.
pub start : ℕ → Monitor
start now_ms = record {
  status = initial_instance now_ms;
  user_stop = false;
  probe_timeout = false;
  probe_cancel = false;
  cancel = false;
  ever_ready = false;
  timeout_fired = false;
  probes_cancelled = false;
  next_run_id = 0;
  current = none;
  driver = none;
  respawn_deadline = none;
  last_exit = none;
  finished = false;
}

-- What `stop_and_confirm_dead` does to the loop from outside, unless the loop has ended. Its test and
-- its publishing are one step here, between two turns: that the loop ends between the two, and is
-- then overwritten with `Stopping`, is not modelled.
request_stop : Monitor → Monitor
request_stop m = if is_terminal m.status.state then m else record m {
  user_stop = true;
  probe_cancel = true;
  status = record { state = InstanceState.stopping; health = none };
}

-- The turns of a run, with a stop request wherever one comes between two.
pub data Move : Type 0 where
  turned : Reading → Event → Move
  stop_requested : Move

move : InstanceOptions → ℕ → Monitor → Move → Monitor
unfolding step request_stop
move options initial_deadline m (turned r e) = step options initial_deadline m r e
move options initial_deadline m stop_requested = request_stop m

pub moves : InstanceOptions → ℕ → Monitor → List Move → Monitor
moves options initial_deadline m [] = m
moves options initial_deadline m (v ∷ rest) =
    moves options initial_deadline (move options initial_deadline m v) rest
