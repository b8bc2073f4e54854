-- ===== src/Instance/Stop/Confirmed.antt =====
-- A stop that succeeds has evidence of death, and one that fails says so.
use nyanpasu_service.Prelude.{◌≡◌, refl, ◌⊎◌, inl, inr, true, ◌&&◌, ◌||◌, not, arith, Bool-cases}
use nyanpasu_service.Text.{Text, bytes}
use nyanpasu_service.Error.{Error, Result, ok, err, stop_unconfirmed}
use nyanpasu_service.State.{InstanceState, is_terminal}
use nyanpasu_service.Instance.Stop.{
  ReapOutcome, Answers, verified, reaped, fallback, stop_error, stop_result, is_ok, is_joined,
  reap_epoch_record_if_present, stop_and_confirm_dead,
}

-- Something other than hope says that the process is dead.
pub data Dead (before : InstanceState) (a : Answers) : Type 0 where
  already_terminal : is_terminal before ≡ true → Dead before a
  stopped :
      is_ok (stop_result a a.supervisor) ≡ true
      → (is_joined a.monitor || is_terminal a.state_after) ≡ true
      → Dead before a
  reaped_dead :
      (a.reap ≡ ok ReapOutcome.killed) ⊎ (a.reap ≡ ok ReapOutcome.already_exited) → Dead before a
  gone : a.reap ≡ ok ReapOutcome.not_found → is_terminal a.state_after ≡ true → Dead before a

abbrev pub Verdict : InstanceState → Answers → Result (Unit {0}) → Type 0
Verdict before a (ok done) = Dead before a
Verdict before a (err e) = (message : Text) × (e ≡ stop_unconfirmed message)

verified-Verdict :
    (render : Error → Text) (before : InstanceState) (a : Answers) (what : Text)
    (r : Result (Unit {0}))
    → Dead before a
    → Verdict before a (verified render what r)
unfolding verified
verified-Verdict render before a what (ok done) d = d
verified-Verdict render before a what (err e) d = (_, refl)

reaped-Verdict :
    (render : Error → Text) (before : InstanceState) (a : Answers) (why : Text)
    (r : Result ReapOutcome)
    → a.reap ≡ r
    → Verdict before a (reaped render why (is_terminal a.state_after) r)
unfolding reaped
reaped-Verdict render before a why (err e) h = (_, refl)
reaped-Verdict render before a why (ok ReapOutcome.already_exited) h = Dead.reaped_dead (inr h)
reaped-Verdict render before a why (ok ReapOutcome.killed) h = Dead.reaped_dead (inl h)
reaped-Verdict render before a why (ok ReapOutcome.not_found) h =
    elim (Bool-cases (is_terminal a.state_after)) [
      | inl t ↦ rw t (Dead.gone h t)
      | inr t ↦ rw t (why, refl)
    ]

fallback-Verdict :
    (render : Error → Text) (before : InstanceState) (a : Answers) (why : Text)
    → Verdict before a (fallback render a why)
unfolding fallback
fallback-Verdict render before a why = elim (Bool-cases (not a.pid_record)) [
  | inl p ↦ rw p (why, refl)
  | inr p ↦ elim (Bool-cases (not a.has_parent)) [
    | inl q ↦ rw (p, q) (_, refl)
    | inr q ↦ rw (p, q) (reaped-Verdict render before a why a.reap refl)
  ]
]

-- Every stop either returns with evidence that the process is dead (the instance was terminal
-- already, or supervision stopped and the monitor ended or published a terminal state, or the
-- reaper found the process dead, or found no record of a terminal instance), or fails with
-- `StopUnconfirmed` and no other error.
pub stop-Verdict :
    (render : Error → Text) (before : InstanceState) (a : Answers)
    → Verdict before a (stop_and_confirm_dead render before a)
unfolding stop_and_confirm_dead
stop-Verdict render before a = elim (Bool-cases (is_terminal before)) [
  | inl t ↦ rw t (
      verified-Verdict render before a (bytes "terminal instance identity verification failed: ")
        (reap_epoch_record_if_present a) (Dead.already_terminal t))
  | inr t ↦
      elim (Bool-cases (
        is_ok (stop_result a a.supervisor) && (is_joined a.monitor || is_terminal a.state_after))) [
          | inl s ↦
              rw (t, s)
                (verified-Verdict render before a
                  (bytes "stopped instance identity verification failed: ")
                  (reap_epoch_record_if_present a) (Dead.stopped (ground arith) (ground arith)))
          | inr s ↦
              rw (t, s) (fallback-Verdict render before a (stop_error (stop_result a a.supervisor)))
        ]
]
