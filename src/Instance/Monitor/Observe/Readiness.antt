-- ===== src/Instance/Monitor/Observe/Readiness.antt =====
-- When an observation makes a run ready, and what every observation keeps.
use mathlib.Core.Path.{subst}
use nyanpasu_service.Prelude.{
  ℕ, ◌≤◌, ◌≡◌, refl, inl, inr, Bool, true, false, ◌&&◌, not, Option, none, some, List, [], ◌∷◌,
  arith, Bool-cases, ◌∙◌,
}
use nyanpasu_service.Health.{ProbeResult, HealthTracker, observe, is_healthy}
use nyanpasu_service.State.{InstanceState, is_terminal}
use nyanpasu_service.Instance.Monitor.Data.{
  ProbeObservation, RunState, ProbeDriver, Monitor, Answered,
}
use nyanpasu_service.Instance.Monitor.Observe.{
  observation_applies, too_late, tell_liveness, apply_to_run, apply_probe_observation,
  drain_probe_observations,
}

abbrev pub is_running : InstanceState → Bool
is_running (InstanceState.running pid) = true
is_running (InstanceState.stopped reason) = false
is_running InstanceState.starting = false
is_running InstanceState.stopping = false
is_running (InstanceState.restarting attempt) = false

-- A ready run was acknowledged, and it is the latest run.
abbrev pub RunCoherent : Bool → ℕ → Option RunState → Type 0
RunCoherent ever_ready latest none = Unit
RunCoherent ever_ready latest (some run) =
    (run.run_id ≡ latest) × (run.ready ≡ true → (run.ack_attempted ≡ true) × (ever_ready ≡ true))

-- The driver probes the current run.
abbrev pub DriverCoherent : Option RunState → Option ProbeDriver → Type 0
DriverCoherent run none = Unit
DriverCoherent none (some driver) = ⊥
DriverCoherent (some run) (some driver) = (driver.run_id ≡ run.run_id) × (driver.pid ≡ run.pid)

pub record IsCoherent (m : Monitor) : Type 0 where
  pub run_coherent : RunCoherent m.ever_ready m.next_run_id m.current
  pub driver_coherent : m.finished ≡ false → DriverCoherent m.current m.driver
  pub no_early_respawn : m.ever_ready ≡ false → m.respawn_deadline ≡ none
  pub running_was_ready : is_running m.status.state ≡ true → m.ever_ready ≡ true
  pub timed_out : m.probe_timeout ≡ true → (m.probe_cancel ≡ true) × (m.cancel ≡ true)
  pub timeout_recorded : m.timeout_fired ≡ true → m.probe_timeout ≡ true
  pub ended : m.finished ≡ true → (is_terminal m.status.state ≡ true) × (m.status.health ≡ none)
  pub terminal_ended : is_terminal m.status.state ≡ true → m.finished ≡ true

-- What an observation cannot change.
pub record Observing (m n : Monitor) : Type 0 where
  pub coherent : IsCoherent n
  pub same_finished : n.finished ≡ m.finished
  pub same_cancel : n.probe_cancel ≡ m.probe_cancel
  pub same_timeout : n.probe_timeout ≡ m.probe_timeout
  pub same_latest : n.next_run_id ≡ m.next_run_id

tell_liveness-coherent :
    (run : RunState) (d : Option ProbeDriver)
    → DriverCoherent (some run) d
    → DriverCoherent (some run) (tell_liveness d)
unfolding tell_liveness
tell_liveness-coherent run none h = tt
tell_liveness-coherent run (some d) h = h

apply_to_run-Observing :
    (m : Monitor) (run : RunState) (o : ProbeObservation) (answer : Bool)
    → IsCoherent m
    → m.finished ≡ false
    → m.current ≡ some run
    → Observing m (apply_to_run m run (o, answer)).0
unfolding apply_to_run
apply_to_run-Observing m run o answer h f c =
    let rc = subst (RunCoherent m.ever_ready m.next_run_id) c h.run_coherent in
    let dc = subst (λ r. DriverCoherent r m.driver) c (h.driver_coherent f) in
    ground (arith, tell_liveness-coherent run m.driver dc)

same-Observing : (m : Monitor) → IsCoherent m → Observing m m
same-Observing m h = record {
  coherent = h;
  same_finished = refl;
  same_cancel = refl;
  same_timeout = refl;
  same_latest = refl;
}

apply-Observing :
    (deadline : ℕ) (m : Monitor) (o : ProbeObservation) (answer : Bool) (run : Option RunState)
    → IsCoherent m
    → m.finished ≡ false
    → m.current ≡ run
    → Observing m (apply_probe_observation deadline m (o, answer) run).0
unfolding apply_probe_observation
apply-Observing deadline m o answer none h f c = same-Observing m h
apply-Observing deadline m o answer (some run) h f c =
    elim (Bool-cases (observation_applies o run && not (too_late deadline m o))) [
      | inl applies ↦ rw applies (apply_to_run-Observing m run o answer h f c)
      | inr passed ↦ rw passed (same-Observing m h)
    ]

pub apply_probe_observation-Observing :
    (deadline : ℕ) (m : Monitor) (o : Answered)
    → IsCoherent m
    → m.finished ≡ false
    → Observing m (apply_probe_observation deadline m o m.current).0
apply_probe_observation-Observing deadline m (o, answer) h f =
    apply-Observing deadline m o answer m.current h f refl

Observing-trans : {l m n : Monitor} → Observing l m → Observing m n → Observing l n
Observing-trans a b = record {
  coherent = b.coherent;
  same_finished = b.same_finished ∙ a.same_finished;
  same_cancel = b.same_cancel ∙ a.same_cancel;
  same_timeout = b.same_timeout ∙ a.same_timeout;
  same_latest = b.same_latest ∙ a.same_latest;
}

pub drain-Observing :
    (deadline : ℕ) (m : Monitor) (queued : List Answered)
    → IsCoherent m
    → m.finished ≡ false
    → Observing m (drain_probe_observations deadline m queued).0
unfolding drain_probe_observations
drain-Observing deadline m [] h f = same-Observing m h
drain-Observing deadline m (o ∷ rest) h f =
    let first = apply_probe_observation-Observing deadline m o h f in
    let next = (apply_probe_observation deadline m o m.current).0 in
    elim (Bool-cases (apply_probe_observation deadline m o m.current).1) [
      | inl became ↦ rw became first
      | inr waits ↦ rw waits (
          Observing-trans first
            (drain-Observing deadline next rest first.coherent (first.same_finished ∙ f)))
    ]

-- What an observation must be for the run that it makes ready.
pub record MakesReady (deadline : ℕ) (m : Monitor) (o : ProbeObservation) (answer : Bool)
    (run : RunState) : Type 0 where
  pub current : m.current ≡ some run
  pub of_run : (o.run_id ≡ run.run_id) × (o.pid ≡ run.pid)
  pub in_time : m.ever_ready ≡ false → o.completed_at ≤ deadline
  pub respawned_in_time : (at : ℕ) → m.respawn_deadline ≡ some at → o.completed_at ≤ at
  pub healthy : is_healthy (observe run.tracker o.completed_at o.result).0.state ≡ true
  pub first_answer : run.ack_attempted ≡ false
  pub acknowledged : answer ≡ true

in_time_of :
    (deadline : ℕ) (m : Monitor) (o : ProbeObservation)
    → too_late deadline m o ≡ false
    → (m.ever_ready ≡ false → o.completed_at ≤ deadline)
      × ((at : ℕ) → m.respawn_deadline ≡ some at → o.completed_at ≤ at)
unfolding too_late
in_time_of deadline m o h = (λ e. ground arith, λ at e. ground arith)

apply_to_run-ready :
    (m : Monitor) (run : RunState) (o : ProbeObservation) (answer : Bool)
    → (apply_to_run m run (o, answer)).1 ≡ true
    → (run.ack_attempted ≡ false)
      × (answer ≡ true)
      × (is_healthy (observe run.tracker o.completed_at o.result).1.state ≡ true)
      × ((apply_to_run m run (o, answer)).0.status.state ≡ InstanceState.running run.pid)
      × ((apply_to_run m run (o, answer)).0.ever_ready ≡ true)
unfolding apply_to_run
apply_to_run-ready m run o answer h = ground arith

applies_of :
    (o : ProbeObservation) (run : RunState)
    → observation_applies o run ≡ true
    → (o.run_id ≡ run.run_id) × (o.pid ≡ run.pid)
unfolding observation_applies
applies_of o run h = ground arith

update_state :
    (t : HealthTracker) (now : ℕ) (r : ProbeResult)
    → (observe t now r).1.state ≡ (observe t now r).0.state
unfolding observe
update_state t now r = refl

ready_of :
    (deadline : ℕ) (m : Monitor) (o : ProbeObservation) (answer : Bool) (c : Option RunState)
    → m.current ≡ c
    → (apply_probe_observation deadline m (o, answer) c).1 ≡ true
    → (run : RunState) × MakesReady deadline m o answer run
      × ((apply_probe_observation deadline m (o, answer) c).0.status.state
          ≡ InstanceState.running run.pid)
unfolding apply_probe_observation
ready_of deadline m o answer none c h = cc
ready_of deadline m o answer (some run) c h =
    elim (Bool-cases (observation_applies o run && not (too_late deadline m o))) [
      | inl applies ↦
          let (unasked, answered, healthy, running, ever) =
            apply_to_run-ready m run o answer (ground arith) in
          let timely = in_time_of deadline m o (ground arith) in
          (
            run,
            record {
              current = c;
              of_run = applies_of o run (ground arith);
              in_time = timely.0;
              respawned_in_time = timely.1;
              healthy = rw (← update_state run.tracker o.completed_at o.result) healthy;
              first_answer = unasked;
              acknowledged = answered;
            },
            rw applies running,
          )
      | inr passed ↦ cc
    ]

-- An observation makes the monitor report a ready run only if it belongs to the current run, was
-- completed by the start deadline (as long as no run was ever ready) and by the respawn deadline,
-- turned the run's tracker healthy, and its acknowledgement was the run's first and was accepted;
-- the state published then is `Running` with the run's pid.
pub ready_only_if :
    (deadline : ℕ) (m : Monitor) (o : ProbeObservation) (answer : Bool)
    → (apply_probe_observation deadline m (o, answer) m.current).1 ≡ true
    → (run : RunState) × MakesReady deadline m o answer run
      × ((apply_probe_observation deadline m (o, answer) m.current).0.status.state
          ≡ InstanceState.running run.pid)
ready_only_if deadline m o answer h = ready_of deadline m o answer m.current refl h
