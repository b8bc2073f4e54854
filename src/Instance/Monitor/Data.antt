-- ===== src/Instance/Monitor/Data.antt =====
-- The state and the events of the monitor loop (instance.rs, health/driver.rs and health/probe.rs
-- under crates/nyanpasu-core-manager/src). An event carries what its turn reads from outside: the
-- observations queued and the supervisor's answer to each acknowledgement.
use nyanpasu_service.Prelude.{ℕ, Bool, true, false, Option, none, some, List}
use nyanpasu_service.Text.{Text}
use nyanpasu_service.Health.{ProbeResult, HealthTracker}
use nyanpasu_service.State.{InstanceStatus}

pub data ProbePhase : Type 0 where
  readiness liveness reconcile : ProbePhase

pub record ProbeObservation : Type 0 where
  pub run_id : ℕ
  pub pid : ℕ
  pub phase : ProbePhase
  pub completed_at : ℕ
  pub completed_at_ms : ℕ
  pub result : ProbeResult

-- The exit of another crate's `TerminatedPayload`: its code and its debug text.
pub record TerminatedPayload : Type 0 where
  pub code : Option ℕ
  pub debug : Text

pub record RunState : Type 0 where
  pub run_id : ℕ
  pub pid : ℕ
  pub ack_attempted : Bool
  pub ready : Bool
  pub tracker : HealthTracker

-- A `ProbeDriver`: the run that it probes, and whether it was told to use the liveness probe.
pub record ProbeDriver : Type 0 where
  pub run_id : ℕ
  pub pid : ℕ
  pub use_liveness : Bool

-- The locals of the loop and the part of `Shared` that it writes. `finished` is its `return`.
pub record Monitor : Type 0 where
  pub status : InstanceStatus
  pub user_stop : Bool
  pub probe_timeout : Bool
  pub probe_cancel : Bool
  pub cancel : Bool
  pub ever_ready : Bool
  pub timeout_fired : Bool
  pub probes_cancelled : Bool
  pub next_run_id : ℕ  -- u64
  pub current : Option RunState
  pub driver : Option ProbeDriver
  pub respawn_deadline : Option ℕ
  pub last_exit : Option TerminatedPayload
  pub finished : Bool

pub data SupervisorEvent : Type 0 where
  started : ℕ → SupervisorEvent
  restarting : ℕ → SupervisorEvent
  exited : TerminatedPayload → SupervisorEvent
  gave_up stopped ready closed : SupervisorEvent

-- An observation with the answer that `acknowledge_ready` gives if it is asked.
abbrev pub Answered : Type 0
Answered = ProbeObservation × Bool

pub data Event : Type 0 where
  supervisor : SupervisorEvent → Event
  initial_deadline_passed : List Answered → Event
  respawn_deadline_passed : List Answered → Event
  probe_request : Event
  observed : Answered → Event

-- What a turn reads: `Instant::now`, `now_ms` and the diagnostics.
pub record Reading : Type 0 where
  pub now : ℕ
  pub now_ms : ℕ
  pub diagnostics : Text

abbrev pub is_set : Option ℕ → Bool
is_set none = false
is_set (some deadline) = true
