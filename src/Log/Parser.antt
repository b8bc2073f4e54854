-- ===== src/Log/Parser.antt =====
-- `LogParser` of crates/nyanpasu-core-manager/src/log.rs: the state machine that holds fatal
-- records for their continuation lines. `parse_header` is a parameter, with its clock.
pub mod Bounds
pub mod Records
mod Tests
use nyanpasu_service.Prelude.{
  ℕ, zero, suc, ◌+◌, Bool, true, false, ◌&&◌, ◌||◌, not, Option, none, some, List, [], ◌∷◌, ◌++◌,
  ltb, leb, ◌==◌, if◌then◌else◌, length, take, map,
}
use nyanpasu_service.Text.{Text, bytes, newline, truncate_text, append_bounded, starts_with}
use nyanpasu_service.Kind.{ClashCoreKind}
use nyanpasu_service.Log.Frame.{
  LogLevel, LogStream, LogTimestamp, LogField, LogFrame, Pending, append, bound_frame, rank,
}
use nyanpasu_service.Log.Ansi.{strip_ansi}

pub record ParsedLine : Type 0 where
  pub timestamp : Option LogTimestamp
  pub level : LogLevel
  pub target : Option Text
  pub message : Text
  pub fields : List LogField

-- At most two frames leave the parser per line.
abbrev pub ParsedFrames : Type 0
ParsedFrames = Option LogFrame × Option LogFrame

-- `.into_iter().flatten()`
abbrev pub flatten_frames : ParsedFrames → List LogFrame
flatten_frames (none, none) = []
flatten_frames (some a, none) = a ∷ []
flatten_frames (none, some b) = b ∷ []
flatten_frames (some a, some b) = a ∷ b ∷ []

-- `pending` is the source's array of two, by stream.
pub record LogParser (C : Type 0) : Type 0 where
  pub kind : ClashCoreKind
  pub epoch : ℕ
  pub clock : C
  pub pending_stdout : Option Pending
  pub pending_stderr : Option Pending
  pub newest_pending : Option LogStream

abbrev pub frame_of : Option Pending → Option LogFrame
frame_of none = none
frame_of (some p) = some p.frame

abbrev is_stderr : LogStream → Bool
is_stderr LogStream.stdout = false
is_stderr LogStream.stderr = true

-- Where both streams held a record, the newest comes last.
oldest_first : Option LogStream → Option LogFrame → Option LogFrame → ParsedFrames
oldest_first (some LogStream.stdout) out err = (err, out)
oldest_first (some LogStream.stderr) out err = (out, err)
oldest_first none out err = (out, err)

-- The level of a line that has no header.
plain_level : Bool → Bool → LogStream → LogLevel
plain_level true warning_root stream = LogLevel.error
plain_level false true stream = LogLevel.warning
plain_level false false LogStream.stdout = LogLevel.info
plain_level false false LogStream.stderr = LogLevel.warning

module _ {C : Type 0} where
  pub new_parser : ClashCoreKind → ℕ → C → LogParser C
  new_parser kind epoch clock = record {
    kind = kind;
    epoch = epoch;
    clock = clock;
    pending_stdout = none;
    pending_stderr = none;
    newest_pending = none;
  }

  abbrev pub pending : LogParser C → LogStream → Option Pending
  pending p LogStream.stdout = p.pending_stdout
  pending p LogStream.stderr = p.pending_stderr

  abbrev set_pending : LogParser C → LogStream → Option Pending → LogParser C
  set_pending p LogStream.stdout held = record p { pending_stdout = held }
  set_pending p LogStream.stderr held = record p { pending_stderr = held }

  pub emit : LogParser C → LogStream → LogFrame → Bool → LogParser C × ParsedFrames
  emit p stream frame hold =
      let flushed = frame_of (pending p stream) in
      if hold
      then (
        set_pending (record p { newest_pending = some stream }) stream
            (some (record { frame = frame; continuations = 0 })),
        (flushed, none),
      )
      else (set_pending p stream none, (flushed, some frame))

  pub finish : LogParser C → LogParser C × ParsedFrames
  unfolding oldest_first
  finish p = (
    record p { pending_stdout = none; pending_stderr = none; newest_pending = none },
    oldest_first p.newest_pending (frame_of p.pending_stdout) (frame_of p.pending_stderr),
  )

-- `header` is the kind's header parser over the parser's clock, and `millis` reads an instant.
module _ {C O : Type 0} (header : ClashCoreKind → Text → O → C → Option ParsedLine × C)
    (millis : O → ℕ) where
  push_header : LogParser C → LogStream → Text → O → ParsedLine → LogParser C × ParsedFrames
  push_header p stream line observed_at parsed =
      let frame : LogFrame = record {
        at = millis observed_at;
        epoch = p.epoch;
        kind = p.kind;
        stream = stream;
        level = parsed.level;
        timestamp = parsed.timestamp;
        target = parsed.target;
        message = parsed.message;
        fields = parsed.fields;
        raw = line;
        truncated = false;
      } in
      emit p stream (bound_frame frame) (leb (rank LogLevel.error) (rank parsed.level))

  push_root : LogParser C → LogStream → Text → O → LogParser C × ParsedFrames
  push_root p stream line observed_at =
      let error_root = starts_with line (bytes "Error:") in
      let frame : LogFrame = record {
        at = millis observed_at;
        epoch = p.epoch;
        kind = p.kind;
        stream = stream;
        level = plain_level error_root (starts_with line (bytes "warning:")) stream;
        timestamp = none;
        target = none;
        message = line;
        fields = [];
        raw = line;
        truncated = false;
      } in
      emit p stream (bound_frame frame) (error_root && is_stderr stream)

  -- A line without a header: a continuation of the stream's held record, or a root of its own.
  push_plain : LogParser C → LogStream → Text → O → Option Pending → LogParser C × ParsedFrames
  push_plain p stream line observed_at none = push_root p stream line observed_at
  push_plain p stream line observed_at (some held) =
      if starts_with line (bytes "Error:") || starts_with line (bytes "warning:")
      then push_root p stream line observed_at
      else (set_pending p stream (some (append held line)), (none, none))

  push_parsed : LogParser C → LogStream → Text → O → Option ParsedLine → LogParser C × ParsedFrames
  push_parsed p stream line observed_at (some parsed) = push_header p stream line observed_at parsed
  push_parsed p stream line observed_at none =
      push_plain p stream line observed_at (pending p stream)

  -- The rest of `push_at`, behind `strip_ansi`.
  push_stripped : LogParser C → LogStream → Text → O → LogParser C × ParsedFrames
  push_stripped p stream line observed_at =
      let (parsed, clock) = header p.kind line observed_at p.clock in
      push_parsed (record p { clock = clock }) stream line observed_at parsed

  pub push_at : LogParser C → LogStream → Text → O → LogParser C × ParsedFrames
  push_at p stream line observed_at = push_stripped p stream (strip_ansi line) observed_at

  -- The lines of a run in the order of their arrival, and the frames that leave for them.
  pub push_all : LogParser C → List (LogStream × Text × O) → LogParser C × List LogFrame
  push_all p [] = (p, [])
  push_all p ((stream, line, observed_at) ∷ rest) =
      let (q, frames) = push_at p stream line observed_at in
      let (r, later) = push_all q rest in (r, flatten_frames frames ++ later)

  -- All the frames of a run that ends with `finish`.
  pub collect : LogParser C → List (LogStream × Text × O) → List LogFrame
  collect p lines = let (q, frames) = push_all p lines in frames ++ flatten_frames (finish q).1
