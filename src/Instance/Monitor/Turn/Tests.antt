-- ===== src/Instance/Monitor/Turn/Tests.antt =====
-- A life of the monitor: a run that becomes ready, crashes, is restarted and then stopped.
use nyanpasu_service.Prelude.{ℕ, true, some, List, [], ◌∷◌}
use nyanpasu_service.Text.{bytes}
use nyanpasu_service.Health.{ProbeResult, default_policy}
use nyanpasu_service.Spec.{InstanceOptions}
use nyanpasu_service.Instance.Monitor.Data.{
  ProbePhase, ProbeObservation, SupervisorEvent, Event, Reading,
}
use nyanpasu_service.Instance.Monitor.Observe.Readiness.{IsCoherent}
use nyanpasu_service.Instance.Monitor.Turn.{start, Move, turned, stop_requested, moves}
use nyanpasu_service.Instance.Monitor.Turn.Lifecycle.{monitor-IsCoherent}

abbrev options : InstanceOptions
options = record { startup_timeout = 100; health = default_policy }

abbrev at : ℕ → Reading
at t = record { now = t; now_ms = t; diagnostics = bytes "" }

abbrev up : ℕ → ℕ → ℕ → ProbeObservation
up run_id pid t = record {
  run_id = run_id;
  pid = pid;
  phase = ProbePhase.readiness;
  completed_at = t;
  completed_at_ms = t;
  result = ProbeResult.healthy;
}

abbrev life : List Move
life =
    turned (at 1) (Event.supervisor (SupervisorEvent.started 7))
    ∷ turned (at 5) (Event.observed (up 1 7 5, true))
    ∷ turned (at 9)
        (Event.supervisor (SupervisorEvent.exited (record { code = some 1; debug = bytes "1" })))
    ∷ turned (at 9) (Event.supervisor (SupervisorEvent.restarting 1))
    ∷ turned (at 12) (Event.supervisor (SupervisorEvent.started 8))
    ∷ stop_requested
    ∷ turned (at 13) (Event.observed (up 2 8 13, true))
    ∷ turned (at 13) (Event.observed (up 2 8 13, true))
    ∷ turned (at 14) (Event.supervisor SupervisorEvent.stopped)
    ∷ []

monitor-IsCoherent_example : IsCoherent (moves options 100 (start 0) life)
monitor-IsCoherent_example = monitor-IsCoherent options 100 0 life
