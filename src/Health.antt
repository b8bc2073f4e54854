-- ===== src/Health.antt =====
-- crates/nyanpasu-core-manager/src/health/mod.rs: the health policy and the tracker that turns
-- probe results into health transitions. Instants and durations are nanoseconds.
mod Streaks
mod Tests
use nyanpasu_service.Prelude.{
  ℕ, ◌+◌, Bool, true, false, ◌&&◌, not, Option, none, some, List, [], ◌∷◌, ltb, leb, ◌==◌,
  if◌then◌else◌, saturating_inc,
}
use nyanpasu_service.Text.{Text, bytes, cap_detail}
use nyanpasu_service.Error.{Error, Result, ok, err, invalid_health_policy}
use mathlib.Core.Option

pub record HealthPolicy : Type 0 where
  pub interval : ℕ
  pub timeout : ℕ
  pub failure_threshold : ℕ  -- NonZeroU32
  pub success_threshold : ℕ  -- NonZeroU32
  pub start_period : ℕ

unfoldable pub new_policy : ℕ → ℕ → ℕ → ℕ → ℕ → Result HealthPolicy
new_policy interval timeout failure_threshold success_threshold start_period =
    if interval == 0
    then err (invalid_health_policy (bytes "interval must be greater than zero"))
    else if timeout == 0
    then err (invalid_health_policy (bytes "timeout must be greater than zero"))
    else ok (record {
      interval = interval;
      timeout = timeout;
      failure_threshold = failure_threshold;
      success_threshold = success_threshold;
      start_period = start_period;
    })

-- `HealthPolicy::default`: 250 ms, 1 s, 3 failures, 1 success, no start period.
abbrev pub default_policy : HealthPolicy
default_policy = record {
  interval = 250_000_000;
  timeout = 1_000_000_000;
  failure_threshold = 3;
  success_threshold = 1;
  start_period = 0;
}

pub data ProbeResult : Type 0 where
  healthy : ProbeResult
  unhealthy : Option Text → ProbeResult

pub data TrackerState : Type 0 where
  starting healthy unhealthy : TrackerState

abbrev pub is_healthy : TrackerState → Bool
is_healthy TrackerState.healthy = true
is_healthy state = false

abbrev pub is_unhealthy : TrackerState → Bool
is_unhealthy TrackerState.unhealthy = true
is_unhealthy state = false

-- `!=` of the derived `PartialEq`.
abbrev pub state_changed : TrackerState → TrackerState → Bool
state_changed TrackerState.starting TrackerState.starting = false
state_changed TrackerState.healthy TrackerState.healthy = false
state_changed TrackerState.unhealthy TrackerState.unhealthy = false
state_changed before after = true

pub record TrackerUpdate : Type 0 where
  pub state : TrackerState
  pub transitioned : Bool
  pub consecutive_failures : ℕ
  pub last_error : Option Text

pub record HealthTracker : Type 0 where
  pub policy : HealthPolicy
  pub started_at : ℕ
  pub grace_ended : Bool
  pub state : TrackerState
  pub consecutive_failures : ℕ  -- u32
  pub consecutive_successes : ℕ  -- u32
  pub last_error : Option Text

unfoldable pub new_tracker : HealthPolicy → ℕ → HealthTracker
new_tracker policy started_at = record {
  policy = policy;
  started_at = started_at;
  grace_ended = false;
  state = TrackerState.starting;
  consecutive_failures = 0;
  consecutive_successes = 0;
  last_error = none;
}

-- The arm of `observe` for `ProbeResult::Healthy`.
observe_healthy : HealthTracker → HealthTracker
observe_healthy s =
    let t = record s { grace_ended = true; consecutive_failures = 0; last_error = none } in
    let successes = saturating_inc s.consecutive_successes in
    if is_healthy s.state
    then record t { consecutive_successes = 0 }
    else if leb s.policy.success_threshold successes
    then record t { state = TrackerState.healthy; consecutive_successes = 0 }
    else record t { consecutive_successes = successes }

unfoldable pub grace_active : HealthTracker → ℕ → Bool
grace_active s now = not s.grace_ended && ltb now (s.started_at + s.policy.start_period)

-- The arm of `observe` for `ProbeResult::Unhealthy`.
observe_unhealthy : HealthTracker → ℕ → Option Text → HealthTracker
unfolding grace_active
observe_unhealthy s now detail =
    let t = record s { consecutive_successes = 0; last_error = Option.map cap_detail detail } in
    let failures = saturating_inc s.consecutive_failures in
    if grace_active s now
    then t
    else if not (is_unhealthy s.state) && leb s.policy.failure_threshold failures
    then record t { consecutive_failures = failures; state = TrackerState.unhealthy }
    else record t { consecutive_failures = failures }

pub track : HealthTracker → ℕ → ProbeResult → HealthTracker
unfolding observe_healthy observe_unhealthy
track s now ProbeResult.healthy = observe_healthy s
track s now (ProbeResult.unhealthy detail) = observe_unhealthy s now detail

-- `HealthTracker::observe`: the new tracker, and the update that it returns.
unfoldable pub observe : HealthTracker → ℕ → ProbeResult → HealthTracker × TrackerUpdate
unfolding track
observe s now result =
    let t = track s now result in
    (
      t,
      record {
        state = t.state;
        transitioned = state_changed s.state t.state;
        consecutive_failures = t.consecutive_failures;
        last_error = t.last_error;
      },
    )

-- A run of observations, oldest first: the instant of each and its result.
pub observe_all : HealthTracker → List (ℕ × ProbeResult) → HealthTracker
observe_all s [] = s
observe_all s ((now, result) ∷ rest) = observe_all (observe s now result).0 rest
