-- ===== src/Log/Headers.antt =====
-- Header parsers of crates/nyanpasu-core-manager/src/log.rs: the levels, and the logfmt lines of
-- mihomo. The instant that a time stamp stands for (chrono) is the parameter `parse_time`.
pub mod Fields
mod Tests
use mathlib.Core.Logic.{ite}
use native.Mathlib.Decide.{ℕ_discrete}
use nyanpasu_service.Prelude.{
  ℕ, Bool, true, false, Option, none, some, List, [], ◌∷◌, ◌++◌, if◌then◌else◌,
}
use nyanpasu_service.Text.{Text, bytes}
use nyanpasu_service.Log.Frame.{LogLevel, LogTimestamp, LogField}
use nyanpasu_service.Log.Logfmt.{scan_logfmt}
use nyanpasu_service.Log.Parser.{ParsedLine}

unfoldable pub text_discrete : Discrete Text
text_discrete = hlevel ℕ_discrete

unfoldable pub is_text : Text → Text → Bool
is_text text word = ite (text_discrete text word) true false

-- The arms of the match, in their order.
abbrev pub levels : List (Text × LogLevel)
levels =
    (bytes "trace", LogLevel.trace)
    ∷ (bytes "TRC", LogLevel.trace)
    ∷ (bytes "TRACE", LogLevel.trace)
    ∷ (bytes "debug", LogLevel.debug)
    ∷ (bytes "DBG", LogLevel.debug)
    ∷ (bytes "DEBUG", LogLevel.debug)
    ∷ (bytes "info", LogLevel.info)
    ∷ (bytes "INF", LogLevel.info)
    ∷ (bytes "INFO", LogLevel.info)
    ∷ (bytes "warn", LogLevel.warning)
    ∷ (bytes "warning", LogLevel.warning)
    ∷ (bytes "WRN", LogLevel.warning)
    ∷ (bytes "WARN", LogLevel.warning)
    ∷ (bytes "error", LogLevel.error)
    ∷ (bytes "ERR", LogLevel.error)
    ∷ (bytes "ERROR", LogLevel.error)
    ∷ (bytes "fatal", LogLevel.fatal)
    ∷ (bytes "panic", LogLevel.fatal)
    ∷ (bytes "FTL", LogLevel.fatal)
    ∷ (bytes "PNC", LogLevel.fatal)
    ∷ (bytes "???", LogLevel.info)
    ∷ []

level_in : List (Text × LogLevel) → Text → Option LogLevel
unfolding is_text
level_in [] level = none
level_in ((word, known) ∷ rest) level =
    let later = level_in rest level in if is_text level word then some known else later

unfoldable pub parse_level : Text → Option LogLevel
unfolding level_in
parse_level level = level_in levels level

-- The locals of `parse_mihomo`.
record Found : Type 0 where
  pub raw_time : Option Text
  pub level : Option LogLevel
  pub message : Option Text
  pub fields : List LogField

abbrev nothing : Found
nothing = record { raw_time = none; level = none; message = none; fields = [] }

take_field : Found → LogField → Found
unfolding is_text parse_level
take_field found f =
    if is_text f.key (bytes "time")
    then record found { raw_time = some f.value }
    else if is_text f.key (bytes "level")
    then record found { level = parse_level f.value }
    else if is_text f.key (bytes "msg")
    then record found { message = some f.value }
    else record found { fields = found.fields ++ (f ∷ []) }

take_fields : Found → List LogField → Found
unfolding take_field
take_fields found [] = found
take_fields found (f ∷ fs) = take_fields (take_field found f) fs

parsed_line :
    (Text → Option ℕ)
    → List LogField
    → Option Text
    → Option LogLevel
    → Option Text
    → Option ParsedLine
parsed_line parse_time fields (some raw_time) (some level) (some message) = some (record {
  timestamp = some (record { raw = raw_time; unix_ms = parse_time raw_time; inferred = false });
  level = level;
  target = none;
  message = message;
  fields = fields;
})
parsed_line parse_time fields (some raw_time) (some level) none = none
parsed_line parse_time fields (some raw_time) none message = none
parsed_line parse_time fields none level message = none

scanned : (Text → Option ℕ) → Option (List LogField) → Option ParsedLine
unfolding take_fields parsed_line
scanned parse_time none = none
scanned parse_time (some fields) =
    let found = take_fields nothing fields in
    parsed_line parse_time found.fields found.raw_time found.level found.message

unfoldable pub parse_mihomo : (Text → Option ℕ) → Text → Option ParsedLine
unfolding scanned
parse_mihomo parse_time line = scanned parse_time (scan_logfmt line)
