-- ===== src/LogSink/Drain.antt =====
-- The loop that feeds the archive from the broadcast channel: `run` and `drain` of
-- crates/nyanpasu-core-manager/src/log_sink.rs. The channel's answers are given by turn.
mod Bounded
mod Taken
mod Tests
use nyanpasu_service.Prelude.{
  ℕ, ◌+◌, Bool, true, false, ◌||◌, Option, none, some, List, [], ◌∷◌, ◌++◌, ltb, if◌then◌else◌,
  length,
}
use nyanpasu_service.Text.{Text}
use nyanpasu_service.LogSink.Writer.{Disk, LogFile, Writer, Entry, open_writer, write}

abbrev pub max_batch_records : ℕ
max_batch_records = 256

-- The answers of `try_recv`: at the end of a list of them, the channel is empty.
pub data Polled {ℓ} (F : Type ℓ) : Type ℓ where
  frame : F → Polled F
  lagged : ℕ → Polled F
  closed : Polled F

-- A turn of the loop: `recv` is answered, or the token is seen to be cancelled; and the answers that
-- have come into the channel since the turn before.
pub data Turn {ℓ} (F : Type ℓ) : Type ℓ where
  received cancelled : List (Polled F) → Turn F

module _ {ℓ} {F : Type ℓ} where
  -- The batch, whether the channel is closed, and the answers that have not been asked for.
  unfoldable pub drain : List (Polled F) → List (Entry F) → List (Entry F) × Bool × List (Polled F)
  drain [] batch = (batch, false, [])
  drain (Polled.frame f ∷ answers) batch =
      let rest = drain answers (batch ++ (Entry.log f ∷ [])) in
      if ltb (length batch) max_batch_records
      then rest
      else (batch, false, Polled.frame f ∷ answers)
  drain (Polled.lagged dropped ∷ answers) batch =
      let rest = drain answers (batch ++ (Entry.gap dropped ∷ [])) in
      if ltb (length batch) max_batch_records
      then rest
      else (batch, false, Polled.lagged dropped ∷ answers)
  drain (Polled.closed ∷ answers) batch =
      if ltb (length batch) max_batch_records
      then (batch, true, answers)
      else (batch, false, Polled.closed ∷ answers)

  with_first : Polled F → List (Polled F) → List (Entry F) × Bool × List (Polled F)
  unfolding drain
  with_first (Polled.frame f) answers = drain answers (Entry.log f ∷ [])
  with_first (Polled.lagged dropped) answers = drain answers (Entry.gap dropped ∷ [])
  with_first Polled.closed answers = ([], true, answers)

  -- The arm of `recv`, which waits while the channel is empty.
  receive : List (Polled F) → List (Entry F) × Bool × List (Polled F)
  unfolding with_first
  receive [] = ([], false, [])
  receive (first ∷ answers) = with_first first answers

  -- What a turn writes, whether it is the last one, and what it leaves in the channel.
  unfoldable pub turn_batch : List (Polled F) → Turn F → List (Entry F) × Bool × List (Polled F)
  unfolding receive drain
  turn_batch unread (Turn.received arrived) = receive (unread ++ arrived)
  turn_batch unread (Turn.cancelled arrived) =
      let drained = drain (unread ++ arrived) [] in
      (drained.0, drained.1 || ltb (length (drained.0)) max_batch_records, drained.2)

  module _ (disk : Disk) (encode : F → Option Text) (encode_gap : ℕ → ℕ → Option Text) where
    -- Each turn comes with the clock reading of its write.
    unfoldable pub run : Writer → List (Polled F) → List (ℕ × Turn F) → Writer
    unfolding turn_batch
    run w unread [] = w
    run w unread ((at, turn) ∷ turns) =
        let taken = turn_batch unread turn in
        let after = write disk encode encode_gap w at (taken.0) in
        let rest = run after (taken.2) turns in if taken.1 then after else rest

    run_opened : Option Writer → List (ℕ × Turn F) → Option Writer
    unfolding run
    run_opened none turns = none
    run_opened (some w) turns = some (run w [] turns)

    -- `spawn`: the first file is opened before the loop begins.
    unfoldable pub spawn : List LogFile → ℕ → ℕ → List (ℕ × Turn F) → Option Writer
    unfolding run_opened
    spawn files max_bytes max_files turns =
        run_opened (open_writer disk files max_bytes max_files) turns
