-- ===== src/Instance/Stop.antt =====
-- `Instance::stop_and_confirm_dead` of crates/nyanpasu-core-manager/src/instance.rs. The supervisor
-- and the pid-file reaper belong to another crate; the answers that they give are an argument. What
-- the call publishes on its way is `request_stop` of Instance/Monitor/Turn; the terminal state that
-- it publishes after the reaper's confirmation is left out.
pub mod Confirmed
mod Tests
use nyanpasu_service.Prelude.{
  ℕ, Bool, true, false, ◌&&◌, ◌||◌, not, Option, none, some, ◌++◌, if◌then◌else◌,
}
use nyanpasu_service.Text.{Text, bytes}
use nyanpasu_service.Error.{Error, Result, ok, err, stop_unconfirmed}
use nyanpasu_service.State.{InstanceState, StopReason, is_terminal}

-- `OrphanReapOutcome`
pub data ReapOutcome : Type 0 where
  already_exited killed not_found : ReapOutcome

-- What `supervisor.stop()` under its timeout came to; `absent` is a supervisor already taken.
pub data SupervisorStop : Type 0 where
  absent stopped timed_out : SupervisorStop
  failed : Text → SupervisorStop

-- Whether the monitor task ended by itself within the timeout.
pub data MonitorJoin : Type 0 where
  no_task joined aborted : MonitorJoin

-- The answers met on the way. `pid_record` says whether the pid file and the config carry this
-- epoch's names side by side, `has_parent` whether the config path has a parent directory.
pub record Answers : Type 0 where
  pub supervisor : SupervisorStop
  pub monitor : MonitorJoin
  pub state_after : InstanceState
  pub pid_record : Bool
  pub has_parent : Bool
  pub pid_file_exists : Result Bool
  pub reap : Result ReapOutcome
  pub timeout : Text  -- `{timeout:?}`

abbrev no_parent : Error
no_parent = stop_unconfirmed (bytes "runtime config has no parent directory")

-- `?` on the reaper's answer, which is not looked at otherwise.
forget : Result ReapOutcome → Result (Unit {0})
forget (ok outcome) = ok tt
forget (err e) = err e

when_present : Answers → Result Bool → Result (Unit {0})
unfolding forget
when_present a (err e) = err e
when_present a (ok false) = ok tt
when_present a (ok true) = if a.has_parent then forget a.reap else err no_parent

reap_epoch_record_if_present : Answers → Result (Unit {0})
unfolding when_present
reap_epoch_record_if_present a = if a.pid_record then when_present a a.pid_file_exists else ok tt

-- The error message of the supervisor's stop, `none` for `Ok(())`.
pub stop_result : Answers → SupervisorStop → Option Text
stop_result a SupervisorStop.absent = none
stop_result a SupervisorStop.stopped = none
stop_result a (SupervisorStop.failed e) = some (bytes "supervisor stop failed: " ++ e)
stop_result a SupervisorStop.timed_out = some (bytes "supervisor stop exceeded " ++ a.timeout)

abbrev pub is_ok : Option Text → Bool
is_ok none = true
is_ok (some message) = false

abbrev pub is_joined : MonitorJoin → Bool
is_joined MonitorJoin.joined = true
is_joined MonitorJoin.no_task = false
is_joined MonitorJoin.aborted = false

stop_error : Option Text → Text
stop_error (some message) = message
stop_error none = bytes "instance monitor did not confirm termination"

-- `render` is the error's `Display`.
module _ (render : Error → Text) where
  -- `map_err` of an identity check into `StopUnconfirmed`.
  verified : Text → Result (Unit {0}) → Result (Unit {0})
  verified what (ok a) = ok tt
  verified what (err e) = err (stop_unconfirmed (what ++ render e))

  -- The verdict on the reaper's answer where normal termination is uncertain.
  reaped : Text → Bool → Result ReapOutcome → Result (Unit {0})
  reaped why terminal (err e) =
      err (stop_unconfirmed (why ++ bytes "; epoch identity reaper failed: " ++ render e))
  reaped why terminal (ok ReapOutcome.already_exited) = ok tt
  reaped why terminal (ok ReapOutcome.killed) = ok tt
  reaped why terminal (ok ReapOutcome.not_found) =
      if terminal then ok tt else err (stop_unconfirmed why)

  fallback : Answers → Text → Result (Unit {0})
  unfolding reaped
  fallback a why =
      if not a.pid_record
      then err (stop_unconfirmed why)
      else if not a.has_parent
      then err no_parent
      else reaped why (is_terminal a.state_after) a.reap

  -- `before` is the instance's state on entry.
  unfoldable pub stop_and_confirm_dead : InstanceState → Answers → Result (Unit {0})
  unfolding verified reap_epoch_record_if_present stop_result fallback stop_error
  stop_and_confirm_dead before a =
      if is_terminal before
      then verified (bytes "terminal instance identity verification failed: ")
          (reap_epoch_record_if_present a)
      else if is_ok (stop_result a a.supervisor)
          && (is_joined a.monitor || is_terminal a.state_after)
      then verified (bytes "stopped instance identity verification failed: ")
          (reap_epoch_record_if_present a)
      else fallback a (stop_error (stop_result a a.supervisor))
