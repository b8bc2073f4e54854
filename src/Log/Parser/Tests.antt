-- ===== src/Log/Parser/Tests.antt =====
-- A run of console lines, and the parser's theorems at it. The header parser of these runs reads a
-- line that begins with `E ` as a fatal record.
use nyanpasu_service.Prelude.{
  ℕ, ◌+◌, ◌≡◌, Option, none, some, List, [], ◌∷◌, ◌++◌, if◌then◌else◌, length, All,
}
use nyanpasu_service.Text.{Text, bytes, starts_with}
use nyanpasu_service.Kind.{ClashCoreKind}
use nyanpasu_service.Log.Frame.{LogLevel, LogStream}
use nyanpasu_service.Log.Parser.{ParsedLine, LogParser, new_parser, push_at, collect}
use nyanpasu_service.Log.Parser.Bounds.{Stepped, push_at-Stepped, new_parser-IsWellFormed}
use nyanpasu_service.Log.Parser.Bounds.Collected.{Emitted, collect-Emitted}
use nyanpasu_service.Log.Parser.Records.{held, opened}
use nyanpasu_service.Log.Parser.Records.Stamps.{stamps, held_stamps}
use nyanpasu_service.Log.Parser.Records.Order.{opened_stamps, collect-stamps}

abbrev tagged : ClashCoreKind → Text → ℕ → Unit {0} → Option ParsedLine × Unit {0}
tagged kind line at clock = (
  (if starts_with line (bytes "E ")
      then some (record {
        timestamp = none;
        level = LogLevel.fatal;
        target = none;
        message = line;
        fields = [];
      })
      else none),
  tt,
)

abbrev millis : ℕ → ℕ
millis n = n

-- A held fatal record, a line of the other stream, a continuation, and a warning that ends it.
abbrev lines : List (LogStream × Text × ℕ)
lines =
    (LogStream.stdout, bytes "E first", 1)
    ∷ (LogStream.stderr, bytes "note", 2)
    ∷ (LogStream.stdout, bytes "  at main", 3)
    ∷ (LogStream.stdout, bytes "warning: late", 4)
    ∷ []

abbrev parser : LogParser (Unit {0})
parser = new_parser ClashCoreKind.mihomo 7 tt

collect-Emitted_example : All (Emitted 7 ClashCoreKind.mihomo) (collect tagged millis parser lines)
collect-Emitted_example = collect-Emitted tagged millis ClashCoreKind.mihomo 7 tt lines

collect-stamps_example :
    (stamps LogStream.stdout (collect tagged millis parser lines)
      ≡ held_stamps parser LogStream.stdout
        ++ opened_stamps tagged millis parser LogStream.stdout lines)
    × (length (collect tagged millis parser lines)
        ≡ held parser + opened tagged millis parser lines)
unfolding new_parser
collect-stamps_example = collect-stamps tagged millis parser LogStream.stdout lines (tt, tt)

push_at-Stepped_example :
    Stepped parser LogStream.stdout
      (push_at tagged millis parser LogStream.stdout (bytes "E first") 1)
push_at-Stepped_example =
    push_at-Stepped tagged millis parser LogStream.stdout (bytes "E first") 1
      (new_parser-IsWellFormed ClashCoreKind.mihomo 7 tt)
