-- ===== src/Instance/Stop/Tests.antt =====
-- A stop whose supervisor fails, confirmed by the reaper.
use nyanpasu_service.Prelude.{◌≡◌, refl, true}
use nyanpasu_service.Text.{Text, bytes}
use nyanpasu_service.Error.{Error, ok}
use nyanpasu_service.State.{InstanceState}
use nyanpasu_service.Instance.Stop.{
  ReapOutcome, SupervisorStop, MonitorJoin, Answers, stop_result, fallback, reaped,
  stop_and_confirm_dead,
}
use nyanpasu_service.Instance.Stop.Confirmed.{Verdict, stop-Verdict}

abbrev silent : Error → Text
silent e = bytes "error"

abbrev stubborn : Answers
stubborn = record {
  supervisor = SupervisorStop.failed (bytes "busy");
  monitor = MonitorJoin.aborted;
  state_after = InstanceState.stopping;
  pid_record = true;
  has_parent = true;
  pid_file_exists = ok true;
  reap = ok ReapOutcome.killed;
  timeout = bytes "5s";
}

stubborn_is_killed : stop_and_confirm_dead silent (InstanceState.running 7) stubborn ≡ ok tt
unfolding stop_and_confirm_dead stop_result fallback reaped
stubborn_is_killed = refl

stop-Verdict_example :
    Verdict
      (InstanceState.running 7)
      stubborn
      (stop_and_confirm_dead silent (InstanceState.running 7) stubborn)
stop-Verdict_example = stop-Verdict silent (InstanceState.running 7) stubborn
