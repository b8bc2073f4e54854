-- ===== src/Health/Streaks.antt =====
-- Streaks of probe results: when the tracker changes state, and what it counts.
pub mod Grace
use nyanpasu_service.Prelude.{
  ℕ, ◌+◌, ◌≤◌, ◌<◌, ◌≡◌, ◌≢◌, refl, ◌⊎◌, Bool, true, false, Option, none, some, List, [], ◌∷◌, ◌++◌,
  arith, length, All, u32_max, ◌∙◌, ◌||◌, leb,
}
use nyanpasu_service.Text.{Text, max_last_error_bytes}
use nyanpasu_service.Text.Boundary.{length-cap_detail-le}
use nyanpasu_service.Health.{
  HealthPolicy, ProbeResult, TrackerState, HealthTracker, is_unhealthy, is_healthy, new_tracker,
  observe, observe_all, grace_active,
}

-- What `NonZeroU32` guarantees of the thresholds.
pub record IsValidPolicy (p : HealthPolicy) : Type 0 where
  pub failures_positive : 0 < p.failure_threshold
  pub failures_u32 : p.failure_threshold ≤ u32_max
  pub successes_positive : 0 < p.success_threshold
  pub successes_u32 : p.success_threshold ≤ u32_max

abbrev ErrorFits : Option Text → Type 0
ErrorFits none = Unit
ErrorFits (some e) = length e ≤ max_last_error_bytes

pub record IsTracked (s : HealthTracker) : Type 0 where
  pub policy_valid : IsValidPolicy s.policy
  pub one_streak : (s.consecutive_failures ≡ 0) ⊎ (s.consecutive_successes ≡ 0)
  pub not_yet_healthy : s.consecutive_successes < s.policy.success_threshold
  pub not_yet_unhealthy :
      s.state ≢ TrackerState.unhealthy → s.consecutive_failures < s.policy.failure_threshold
  pub healthy_no_successes : s.state ≡ TrackerState.healthy → s.consecutive_successes ≡ 0
  pub starting_in_grace : s.grace_ended ≡ false → s.state ≢ TrackerState.healthy
  pub counted : s.consecutive_failures ≤ u32_max
  pub error_capped : ErrorFits s.last_error

observe-IsTracked :
    (s : HealthTracker) (now : ℕ) (r : ProbeResult) → IsTracked s → IsTracked (observe s now r).0
unfolding observe
observe-IsTracked s now ProbeResult.healthy h = ground arith
observe-IsTracked s now (ProbeResult.unhealthy none) h = ground arith
observe-IsTracked s now (ProbeResult.unhealthy (some d)) h = ground (arith, length-cap_detail-le d)

observe_all-IsTracked :
    (s : HealthTracker) (obs : List (ℕ × ProbeResult)) → IsTracked s → IsTracked (observe_all s obs)
unfolding observe_all
observe_all-IsTracked s [] h = h
observe_all-IsTracked s ((now, r) ∷ obs) h =
    observe_all-IsTracked (observe s now r).0 obs (observe-IsTracked s now r h)

pub new_tracker-IsTracked :
    (p : HealthPolicy) (at : ℕ) → IsValidPolicy p → IsTracked (new_tracker p at)
unfolding new_tracker
new_tracker-IsTracked p at h = ground arith

-- From a new tracker whose policy has the thresholds that `NonZeroU32` allows, whatever is
-- observed: at most one streak counter is non-zero, each is below its threshold as long as the
-- state that the threshold leads to is not reached, no counter leaves `u32`, the tracker is not
-- healthy before its grace has ended, and the error kept is at most 512 bytes long.
pub run-IsTracked :
    (p : HealthPolicy) (at : ℕ) (obs : List (ℕ × ProbeResult))
    → IsValidPolicy p
    → IsTracked (observe_all (new_tracker p at) obs)
run-IsTracked p at obs h =
    observe_all-IsTracked (new_tracker p at) obs (new_tracker-IsTracked p at h)

abbrev is_failure : ProbeResult → Bool
is_failure ProbeResult.healthy = false
is_failure (ProbeResult.unhealthy detail) = true

-- A failed probe that finished when the tracker's grace no longer held.
abbrev pub CountedFailure : HealthTracker → ℕ × ProbeResult → Type 0
CountedFailure s o = (grace_active s o.0 ≡ false) × (is_failure o.1 ≡ true)

abbrev pub Success : ℕ × ProbeResult → Type 0
Success o = is_failure o.1 ≡ false

-- A failure leaves alone what decides whether the grace holds.
observe-grace :
    (s : HealthTracker) (now : ℕ) (r : ProbeResult) (k : ℕ)
    → is_failure r ≡ true
    → grace_active (observe s now r).0 k ≡ grace_active s k
unfolding observe
observe-grace s now (ProbeResult.unhealthy d) k h = ground arith
observe-grace s now ProbeResult.healthy k h = cc

All-counted :
    (s : HealthTracker) (now : ℕ) (r : ProbeResult) (obs : List (ℕ × ProbeResult))
    → is_failure r ≡ true
    → All (CountedFailure s) obs
    → All (CountedFailure (observe s now r).0) obs
All-counted s now r [] h all = tt
All-counted s now r ((k, q) ∷ obs) h all =
    ((observe-grace s now r k h ∙ all.0.0, all.0.1), All-counted s now r obs h all.1)

observe_counted :
    (s : HealthTracker) (now : ℕ) (r : ProbeResult)
    → IsTracked s
    → CountedFailure s (now, r)
    → ((observe s now r).0.policy ≡ s.policy)
      × (is_unhealthy (observe s now r).0.state
          ≡ (is_unhealthy s.state || leb s.policy.failure_threshold (s.consecutive_failures + 1)))
      × (is_unhealthy s.state ≡ false
          → (observe s now r).0.consecutive_failures ≡ s.consecutive_failures + 1)
unfolding observe
observe_counted s now (ProbeResult.unhealthy d) h c = ground arith
observe_counted s now ProbeResult.healthy h c = cc

-- Outside its grace, a tracker that is not yet unhealthy and sees nothing but failed probes turns
-- unhealthy exactly when the failures in a row reach the threshold, and then stays so.
pub failures_reach_threshold :
    (s : HealthTracker) (obs : List (ℕ × ProbeResult))
    → IsTracked s
    → All (CountedFailure s) obs
    → is_unhealthy (observe_all s obs).state ≡ (
        is_unhealthy s.state
        || leb s.policy.failure_threshold (s.consecutive_failures + length obs))
unfolding observe_all
failures_reach_threshold s [] h all = ground arith
failures_reach_threshold s ((now, r) ∷ obs) h all =
    let ih =
      failures_reach_threshold (observe s now r).0 obs (observe-IsTracked s now r h)
        (All-counted s now r obs all.0.1 all.1) in
    ground (arith, ih, observe_counted s now r h all.0)

observe-Success :
    (s : HealthTracker) (now : ℕ) (r : ProbeResult)
    → IsTracked s
    → Success (now, r)
    → ((observe s now r).0.policy ≡ s.policy)
      × (is_healthy (observe s now r).0.state
          ≡ (is_healthy s.state || leb s.policy.success_threshold (s.consecutive_successes + 1)))
      × (is_healthy (observe s now r).0.state ≡ false
          → (observe s now r).0.consecutive_successes ≡ s.consecutive_successes + 1)
unfolding observe
observe-Success s now ProbeResult.healthy h c = ground arith
observe-Success s now (ProbeResult.unhealthy d) h c = cc

-- A tracker that sees nothing but successful probes is healthy exactly if it was, or if the
-- successes in a row reach the threshold.
pub successes_reach_threshold :
    (s : HealthTracker) (obs : List (ℕ × ProbeResult))
    → IsTracked s
    → All Success obs
    → is_healthy (observe_all s obs).state ≡ (
        is_healthy s.state || leb s.policy.success_threshold (s.consecutive_successes + length obs))
unfolding observe_all
successes_reach_threshold s [] h all = ground arith
successes_reach_threshold s ((now, r) ∷ obs) h all =
    let ih =
      successes_reach_threshold (observe s now r).0 obs (observe-IsTracked s now r h) all.1 in
    ground (arith, ih, observe-Success s now r h all.0)

observe-ne-starting :
    (s : HealthTracker) (now : ℕ) (r : ProbeResult)
    → s.state ≢ TrackerState.starting
    → (observe s now r).0.state ≢ TrackerState.starting
unfolding observe
observe-ne-starting s now ProbeResult.healthy h = ground arith
observe-ne-starting s now (ProbeResult.unhealthy d) h = ground arith

-- A tracker that has left `Starting` never returns to it.
pub observe_all-ne-starting :
    (s : HealthTracker) (obs : List (ℕ × ProbeResult))
    → s.state ≢ TrackerState.starting
    → (observe_all s obs).state ≢ TrackerState.starting
unfolding observe_all
observe_all-ne-starting s [] h = h
observe_all-ne-starting s ((now, r) ∷ obs) h =
    observe_all-ne-starting (observe s now r).0 obs (observe-ne-starting s now r h)
