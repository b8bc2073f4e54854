-- ===== src/Health/Tests.antt =====
-- Concrete runs of the health tracker, and its theorems at inputs that meet their hypotheses.
use nyanpasu_service.Prelude.{◌≡◌, refl, ◌||◌, some, List, [], ◌∷◌, ◌++◌, ℕ, ◌+◌, leb, arith, ◌≢◌}
use nyanpasu_service.Text.{bytes}
use nyanpasu_service.Health.{
  ProbeResult, TrackerState, HealthTracker, default_policy, new_tracker, observe, observe_all,
  is_healthy, is_unhealthy, grace_active,
}
use nyanpasu_service.Health.Streaks.{
  IsValidPolicy, IsTracked, new_tracker-IsTracked, run-IsTracked, failures_reach_threshold,
  successes_reach_threshold, observe_all-ne-starting,
}
use nyanpasu_service.Health.Streaks.Grace.{grace_forgives}

abbrev down : ProbeResult
down = ProbeResult.unhealthy (some (bytes "connection refused"))

abbrev fresh : HealthTracker
fresh = new_tracker default_policy 0

abbrev two_failures : List (ℕ × ProbeResult)
two_failures = (1, down) ∷ (2, down) ∷ []

abbrev flapping : List (ℕ × ProbeResult)
flapping = (1, down) ∷ (2, ProbeResult.healthy) ∷ (3, down) ∷ (4, down) ∷ (5, down) ∷ []

default_policy-IsValidPolicy : IsValidPolicy default_policy
default_policy-IsValidPolicy = omega arith

fresh-IsTracked : IsTracked fresh
fresh-IsTracked = new_tracker-IsTracked default_policy 0 default_policy-IsValidPolicy

third_failure_turns : (observe_all fresh flapping).state ≡ TrackerState.unhealthy
unfolding observe_all new_tracker observe
third_failure_turns = refl

run-IsTracked_example : IsTracked (observe_all fresh flapping)
run-IsTracked_example = run-IsTracked default_policy 0 flapping default_policy-IsValidPolicy

failures_reach_threshold_example :
    is_unhealthy (observe_all fresh two_failures).state
    ≡ (is_unhealthy fresh.state || leb 3 (fresh.consecutive_failures + 2))
unfolding new_tracker grace_active
failures_reach_threshold_example =
    failures_reach_threshold fresh two_failures fresh-IsTracked ((refl, refl), ((refl, refl), tt))

-- Half a minute of grace.
abbrev lenient : HealthTracker
lenient = new_tracker (record default_policy { start_period = 30 }) 0

grace_forgives_example :
    ((observe_all lenient two_failures).state ≡ lenient.state)
    × ((observe_all lenient two_failures).consecutive_failures ≡ lenient.consecutive_failures)
    × ((observe_all lenient (two_failures ++ ((30, down) ∷ []))).consecutive_failures
        ≡ lenient.consecutive_failures + 1)
    × ((observe_all lenient
          (two_failures ++ ((3, ProbeResult.healthy) ∷ (4, down) ∷ []))).consecutive_failures
        ≡ 1)
unfolding new_tracker
grace_forgives_example =
    grace_forgives lenient two_failures 30 3 4 (some (bytes "connection refused")) refl
      (omega arith) ((omega arith, refl), ((omega arith, refl), tt)) (omega arith)

abbrev one_success : List (ℕ × ProbeResult)
one_success = (7, ProbeResult.healthy) ∷ []

successes_reach_threshold_example :
    is_healthy (observe_all fresh one_success).state
    ≡ (is_healthy fresh.state || leb 1 (fresh.consecutive_successes + 1))
unfolding new_tracker
successes_reach_threshold_example =
    successes_reach_threshold fresh one_success fresh-IsTracked (refl, tt)

observe_all-ne-starting_example :
    (observe_all (observe_all fresh one_success) flapping).state ≢ TrackerState.starting
unfolding observe_all new_tracker observe
observe_all-ne-starting_example =
    observe_all-ne-starting (observe_all fresh one_success) flapping (λ e. cc)
