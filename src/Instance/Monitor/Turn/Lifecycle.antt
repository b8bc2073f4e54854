-- ===== src/Instance/Monitor/Turn/Lifecycle.antt =====
-- The monitor over its whole life: its invariant, and how the loop ends.
use nyanpasu_service.Prelude.{
  ℕ, ◌≡◌, refl, inl, inr, true, false, ◌&&◌, not, none, List, [], ◌∷◌, arith, Bool-cases,
}
use nyanpasu_service.Text.{Text}
use nyanpasu_service.Spec.{InstanceOptions}
use nyanpasu_service.Instance.Monitor.Data.{
  Monitor, SupervisorEvent, Answered, Event, Reading, is_set,
}
use nyanpasu_service.Instance.Monitor.Observe.{drain_probe_observations}
use nyanpasu_service.Instance.Monitor.Observe.Readiness.{
  IsCoherent, apply_probe_observation-Observing, drain-Observing,
}
use nyanpasu_service.Instance.Monitor.Turn.{
  publish_terminal, time_out, on_started, on_supervisor, on_initial_deadline, on_respawn_deadline,
  turn, cancel_probes, step, start, request_stop, Move, turned, stop_requested, move, moves,
}

start-IsCoherent : (now : ℕ) → IsCoherent (start now)
unfolding start
start-IsCoherent now = ground arith

on_started-IsCoherent :
    (options : InstanceOptions) (m : Monitor) (r : Reading) (pid : ℕ)
    → IsCoherent m
    → m.finished ≡ false
    → IsCoherent (on_started options m r pid)
unfolding on_started
on_started-IsCoherent options m r pid h f = ground arith

publish_terminal-IsCoherent :
    (m : Monitor) (text : Text) → IsCoherent m → IsCoherent (publish_terminal m text)
unfolding publish_terminal
publish_terminal-IsCoherent m text h = record {
  run_coherent = h.run_coherent;
  driver_coherent = λ e. cc;
  no_early_respawn = h.no_early_respawn;
  running_was_ready = λ e. cc;
  timed_out = h.timed_out;
  timeout_recorded = h.timeout_recorded;
  ended = λ e. (refl, refl);
  terminal_ended = λ e. refl;
}

no_driver-IsCoherent : (m : Monitor) → IsCoherent m → IsCoherent (record m { driver = none })
no_driver-IsCoherent m h = record {
  run_coherent = h.run_coherent;
  driver_coherent = λ e. tt;
  no_early_respawn = h.no_early_respawn;
  running_was_ready = h.running_was_ready;
  timed_out = h.timed_out;
  timeout_recorded = h.timeout_recorded;
  ended = h.ended;
  terminal_ended = h.terminal_ended;
}

on_supervisor-IsCoherent :
    (options : InstanceOptions) (m : Monitor) (r : Reading) (e : SupervisorEvent)
    → IsCoherent m
    → m.finished ≡ false
    → IsCoherent (on_supervisor options m r e)
unfolding on_supervisor
on_supervisor-IsCoherent options m r (SupervisorEvent.started pid) h f =
    on_started-IsCoherent options m r pid h f
on_supervisor-IsCoherent options m r (SupervisorEvent.restarting attempt) h f = ground arith
on_supervisor-IsCoherent options m r (SupervisorEvent.exited payload) h f = ground arith
on_supervisor-IsCoherent options m r SupervisorEvent.gave_up h f = ground arith
on_supervisor-IsCoherent options m r SupervisorEvent.stopped h f =
    publish_terminal-IsCoherent (record m { driver = none }) r.diagnostics
      (no_driver-IsCoherent m h)
on_supervisor-IsCoherent options m r SupervisorEvent.ready h f = h
on_supervisor-IsCoherent options m r SupervisorEvent.closed h f =
    publish_terminal-IsCoherent m r.diagnostics h

time_out-IsCoherent : (m : Monitor) → IsCoherent m → IsCoherent (time_out m)
unfolding time_out
time_out-IsCoherent m h = ground arith

time_out_fired-IsCoherent :
    (m : Monitor) → IsCoherent m → IsCoherent (record (time_out m) { timeout_fired = true })
unfolding time_out
time_out_fired-IsCoherent m h = ground arith

on_initial_deadline-IsCoherent :
    (deadline : ℕ) (m : Monitor) (queued : List Answered)
    → IsCoherent m
    → m.finished ≡ false
    → IsCoherent (on_initial_deadline deadline m queued)
unfolding on_initial_deadline
on_initial_deadline-IsCoherent deadline m queued h f =
    let (drained, became) = drain_probe_observations deadline m queued in
    let kept = (drain-Observing deadline m queued h f).coherent in
    elim (Bool-cases (not became && not drained.ever_ready)) [
      | inl late ↦ rw late (time_out_fired-IsCoherent drained kept)
      | inr timely ↦ rw timely kept
    ]

on_respawn_deadline-IsCoherent :
    (deadline : ℕ) (m : Monitor) (queued : List Answered)
    → IsCoherent m
    → m.finished ≡ false
    → IsCoherent (on_respawn_deadline deadline m queued)
unfolding on_respawn_deadline
on_respawn_deadline-IsCoherent deadline m queued h f =
    let (drained, became) = drain_probe_observations deadline m queued in
    let kept = (drain-Observing deadline m queued h f).coherent in
    elim (Bool-cases (not became && is_set drained.respawn_deadline)) [
      | inl late ↦ rw late (time_out-IsCoherent drained kept)
      | inr timely ↦ rw timely kept
    ]

turn-IsCoherent :
    (options : InstanceOptions) (deadline : ℕ) (m : Monitor) (r : Reading) (e : Event)
    → IsCoherent m
    → m.finished ≡ false
    → IsCoherent (turn options deadline m r e)
unfolding turn
turn-IsCoherent options deadline m r (Event.supervisor e) h f =
    on_supervisor-IsCoherent options m r e h f
turn-IsCoherent options deadline m r (Event.initial_deadline_passed queued) h f =
    elim (Bool-cases (not m.ever_ready && not m.timeout_fired)) [
      | inl open_arm ↦ rw open_arm (on_initial_deadline-IsCoherent deadline m queued h f)
      | inr closed_arm ↦ rw closed_arm h
    ]
turn-IsCoherent options deadline m r (Event.respawn_deadline_passed queued) h f =
    elim (Bool-cases (is_set m.respawn_deadline)) [
      | inl open_arm ↦ rw open_arm (on_respawn_deadline-IsCoherent deadline m queued h f)
      | inr closed_arm ↦ rw closed_arm h
    ]
turn-IsCoherent options deadline m r Event.probe_request h f = h
turn-IsCoherent options deadline m r (Event.observed o) h f =
    (apply_probe_observation-Observing deadline m o h f).coherent

cancel_probes-IsCoherent : (m : Monitor) → IsCoherent m → IsCoherent (cancel_probes m)
unfolding cancel_probes
cancel_probes-IsCoherent m h = ground arith

request_stop-IsCoherent : (m : Monitor) → IsCoherent m → IsCoherent (request_stop m)
unfolding request_stop
request_stop-IsCoherent m h = ground arith

step-IsCoherent :
    (options : InstanceOptions) (deadline : ℕ) (m : Monitor) (r : Reading) (e : Event)
    → IsCoherent m
    → IsCoherent (step options deadline m r e)
unfolding step
step-IsCoherent options deadline m r e h = elim (Bool-cases m.finished) [
  | inl over ↦ simp over h
  | inr live ↦ elim (Bool-cases (m.probe_cancel && not m.probes_cancelled)) [
    | inl pending ↦ simp (live, pending) (cancel_probes-IsCoherent m h)
    | inr clear ↦ simp (live, clear) (turn-IsCoherent options deadline m r e h live)
  ]
]

moves-IsCoherent :
    (options : InstanceOptions) (deadline : ℕ) (m : Monitor) (vs : List Move)
    → IsCoherent m
    → IsCoherent (moves options deadline m vs)
unfolding moves move
moves-IsCoherent options deadline m [] h = h
moves-IsCoherent options deadline m (turned r e ∷ vs) h =
    moves-IsCoherent options deadline (step options deadline m r e) vs
      (step-IsCoherent options deadline m r e h)
moves-IsCoherent options deadline m (stop_requested ∷ vs) h =
    moves-IsCoherent options deadline (request_stop m) vs (request_stop-IsCoherent m h)

-- Whatever the supervisor, the probes, the deadlines and the stop requests do, in any order, the
-- monitor stays coherent: the current run is the latest and is ready only after an acknowledgement,
-- the driver probes that run, `Running` is published only once a run was ready, a respawn deadline
-- is set only then too, a timeout has cancelled both tokens, and the published state is terminal,
-- with no health, exactly when the loop has ended.
pub monitor-IsCoherent :
    (options : InstanceOptions) (deadline now : ℕ) (vs : List Move)
    → IsCoherent (moves options deadline (start now) vs)
monitor-IsCoherent options deadline now vs =
    moves-IsCoherent options deadline (start now) vs (start-IsCoherent now)
