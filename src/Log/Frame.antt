-- ===== src/Log/Frame.antt =====
-- One normalized console record (crates/nyanpasu-core-metadata/src/log.rs), its caps, and how a
-- held record takes continuation lines (crates/nyanpasu-core-manager/src/log.rs).
pub mod Caps
mod Tests
use nyanpasu_service.Prelude.{
  ℕ, zero, suc, ◌+◌, Bool, true, false, ◌&&◌, ◌||◌, not, Option, none, some, List, [], ◌∷◌, ◌++◌,
  ltb, leb, ◌==◌, if◌then◌else◌, length, take, map,
}
use nyanpasu_service.Text.{Text, bytes, newline, truncate_text, append_bounded, starts_with}
use nyanpasu_service.Kind.{ClashCoreKind}

abbrev pub max_continuation_lines : ℕ
max_continuation_lines = 16

abbrev pub max_log_text_bytes : ℕ
max_log_text_bytes = 16384  -- 16 * 1024

abbrev pub max_log_target_bytes : ℕ
max_log_target_bytes = 2048

abbrev pub max_log_timestamp_raw_bytes : ℕ
max_log_timestamp_raw_bytes = 256

abbrev pub max_log_fields : ℕ
max_log_fields = 64

abbrev pub max_log_field_text_bytes : ℕ
max_log_field_text_bytes = 1024

pub data LogLevel : Type 0 where
  trace debug info warning error fatal : LogLevel

-- The derived order of the enum.
abbrev pub rank : LogLevel → ℕ
rank LogLevel.trace = 0
rank LogLevel.debug = 1
rank LogLevel.info = 2
rank LogLevel.warning = 3
rank LogLevel.error = 4
rank LogLevel.fatal = 5

pub data LogStream : Type 0 where
  stdout stderr : LogStream

pub record LogTimestamp : Type 0 where
  pub raw : Text
  pub unix_ms : Option ℕ
  pub inferred : Bool

pub record LogField : Type 0 where
  pub key : Text
  pub value : Text

pub record LogFrame : Type 0 where
  pub at : ℕ
  pub epoch : ℕ
  pub kind : ClashCoreKind
  pub stream : LogStream
  pub level : LogLevel
  pub timestamp : Option LogTimestamp
  pub target : Option Text
  pub message : Text
  pub fields : List LogField
  pub raw : Text
  pub truncated : Bool

pub record Pending : Type 0 where
  pub frame : LogFrame
  pub continuations : ℕ

-- `Pending::append`. Both texts take the line, whichever of them is cut.
pub append : Pending → Text → Pending
append p line =
    let raw = append_bounded p.frame.raw line max_log_text_bytes in
    let message = append_bounded p.frame.message line max_log_text_bytes in
    let appended = record p.frame { message = message.0; raw = raw.0 } in
    if p.continuations == max_continuation_lines
    then record p { frame = record p.frame { truncated = true } }
    else if raw.1 || message.1
    then record {
      frame = record appended { truncated = true };
      continuations = max_continuation_lines;
    }
    else record { frame = appended; continuations = p.continuations + 1 }

-- The steps of `bound_frame`, each with its part of the cut flag.
bound_target : Option Text → Option Text × Bool
bound_target none = (none, false)
bound_target (some target) = let t = truncate_text target max_log_target_bytes in (some t.0, t.1)

bound_timestamp : Option LogTimestamp → Option LogTimestamp × Bool
bound_timestamp none = (none, false)
bound_timestamp (some stamp) =
    let t = truncate_text stamp.raw max_log_timestamp_raw_bytes in
    (some (record stamp { raw = t.0 }), t.1)

bound_fields : List LogField → List LogField × Bool
bound_fields [] = ([], false)
bound_fields (f ∷ fs) =
    let key = truncate_text f.key max_log_field_text_bytes in
    let value = truncate_text f.value max_log_field_text_bytes in
    let rest = bound_fields fs in
    (record { key = key.0; value = value.0 } ∷ rest.0, key.1 || value.1 || rest.1)

pub bound_frame : LogFrame → LogFrame
bound_frame f =
    let message = truncate_text f.message max_log_text_bytes in
    let raw = truncate_text f.raw max_log_text_bytes in
    let target = bound_target f.target in
    let timestamp = bound_timestamp f.timestamp in
    let many = ltb max_log_fields (length f.fields) in
    let fields = bound_fields (if many then take max_log_fields f.fields else f.fields) in
    record f {
      message = message.0;
      raw = raw.0;
      target = target.0;
      timestamp = timestamp.0;
      fields = fields.0;
      truncated =
          f.truncated || (message.1 || raw.1 || target.1 || timestamp.1 || many || fields.1);
    }
