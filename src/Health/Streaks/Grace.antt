-- ===== src/Health/Streaks/Grace.antt =====
-- The start period: failures that it forgives, and what ends it.
use nyanpasu_service.Prelude.{
  ℕ, ◌+◌, ◌≤◌, ◌<◌, ◌≡◌, refl, true, false, Option, List, [], ◌∷◌, ◌++◌, arith, All, u32_max, ◌∙◌,
}
use nyanpasu_service.Text.{Text}
use nyanpasu_service.Health.{ProbeResult, HealthTracker, observe, observe_all, grace_active}
use nyanpasu_service.Health.Streaks.{is_failure}

-- A failed probe that finished before the start period was over, read off the clock alone.
abbrev pub EarlyFailure : HealthTracker → ℕ × ProbeResult → Type 0
EarlyFailure s o = (o.0 < s.started_at + s.policy.start_period) × (is_failure o.1 ≡ true)

-- What an early failure leaves alone.
abbrev SameButError : HealthTracker → HealthTracker → Type 0
SameButError s t =
    (t.state ≡ s.state)
    × (t.consecutive_failures ≡ s.consecutive_failures)
    × (t.grace_ended ≡ s.grace_ended)
    × (t.started_at ≡ s.started_at)
    × (t.policy ≡ s.policy)

observe-EarlyFailure :
    (s : HealthTracker) (now : ℕ) (r : ProbeResult)
    → s.grace_ended ≡ false
    → EarlyFailure s (now, r)
    → SameButError s (observe s now r).0
unfolding observe grace_active
observe-EarlyFailure s now (ProbeResult.unhealthy d) g h = ground arith
observe-EarlyFailure s now ProbeResult.healthy g h = cc

All-early :
    (s t : HealthTracker) (obs : List (ℕ × ProbeResult))
    → SameButError s t
    → All (EarlyFailure s) obs
    → All (EarlyFailure t) obs
All-early s t [] same all = tt
All-early s t (o ∷ obs) same all = (ground (arith, all.0, same), All-early s t obs same all.1)

observe_all-SameButError :
    (s : HealthTracker) (obs : List (ℕ × ProbeResult))
    → s.grace_ended ≡ false
    → All (EarlyFailure s) obs
    → SameButError s (observe_all s obs)
unfolding observe_all
observe_all-SameButError s [] g all = (refl, refl, refl, refl, refl)
observe_all-SameButError s ((now, r) ∷ obs) g all =
    let step = observe-EarlyFailure s now r g all.0 in
    let ih =
      observe_all-SameButError (observe s now r).0 obs (step.2 ∙ g)
        (All-early s (observe s now r).0 obs step all.1) in
    (ih.0 ∙ step.0, ih.1 ∙ step.1, ih.2 ∙ step.2, ih.3 ∙ step.3, ih.4 ∙ step.4)

observe_all-append :
    (s : HealthTracker) (obs more : List (ℕ × ProbeResult))
    → observe_all s (obs ++ more) ≡ observe_all (observe_all s obs) more
unfolding observe_all
observe_all-append s [] more = refl
observe_all-append s ((now, r) ∷ obs) more = observe_all-append (observe s now r).0 obs more

-- A failure counts that finished at or after the end of the start period.
late_failure :
    (s t : HealthTracker) (late : ℕ) (detail : Option Text)
    → SameButError s t
    → s.started_at + s.policy.start_period ≤ late
    → s.consecutive_failures < u32_max
    → (observe_all t ((late, ProbeResult.unhealthy detail) ∷ [])).consecutive_failures
      ≡ s.consecutive_failures + 1
unfolding observe_all observe grace_active
late_failure s t late detail same after room = ground (arith, same)

-- A failure counts that follows a success, whenever it finished.
failure_after_success :
    (t : HealthTracker) (healthy_at failed_at : ℕ) (detail : Option Text)
    → (observe_all t (
        (healthy_at, ProbeResult.healthy)
        ∷ (failed_at, ProbeResult.unhealthy detail)
        ∷ [])).consecutive_failures
      ≡ 1
unfolding observe_all observe grace_active
failure_after_success t healthy_at failed_at detail = ground arith

-- From a tracker that has seen no success yet, and whose failure counter is not at its largest:
-- failed probes that finish before the start period is over change neither the state nor the
-- failure count, however many there are. A failed probe behind them counts if it finishes when the
-- period is over; and one that follows a success behind them counts at any instant, within the
-- period too.
pub grace_forgives :
    (s : HealthTracker) (obs : List (ℕ × ProbeResult)) (late healthy_at failed_at : ℕ)
    (detail : Option Text)
    → s.grace_ended ≡ false
    → s.consecutive_failures < u32_max
    → All (EarlyFailure s) obs
    → s.started_at + s.policy.start_period ≤ late
    → ((observe_all s obs).state ≡ s.state)
      × ((observe_all s obs).consecutive_failures ≡ s.consecutive_failures)
      × ((observe_all s (obs ++ ((late, ProbeResult.unhealthy detail) ∷ []))).consecutive_failures
          ≡ s.consecutive_failures + 1)
      × ((observe_all s (
            obs
            ++ ((healthy_at, ProbeResult.healthy)
                ∷ (failed_at, ProbeResult.unhealthy detail)
                ∷ []))).consecutive_failures
          ≡ 1)
grace_forgives s obs late healthy_at failed_at detail g room all after =
    let same = observe_all-SameButError s obs g all in
    let behind = observe_all s obs in
    (
      same.0,
      same.1,
      rw (observe_all-append s obs ((late, ProbeResult.unhealthy detail) ∷ []))
          (late_failure s behind late detail same after room),
      rw
          (observe_all-append s obs
            ((healthy_at, ProbeResult.healthy) ∷ (failed_at, ProbeResult.unhealthy detail) ∷ []))
          (failure_after_success behind healthy_at failed_at detail),
    )
