-- ===== src/Log/Summary.antt =====
-- `error_summary` and `format_tail` of crates/nyanpasu-core-manager/src/log.rs.
pub mod Latest
mod Tests
use mathlib.Core.Option
use nyanpasu_service.Prelude.{
  ℕ, zero, suc, ◌+◌, Bool, true, false, ◌&&◌, ◌||◌, not, Option, none, some, List, [], ◌∷◌, ◌++◌,
  ltb, leb, ◌==◌, if◌then◌else◌, length, take, map,
}
use nyanpasu_service.Text.{Text, bytes, newline, truncate_text, append_bounded, starts_with}
use nyanpasu_service.Kind.{ClashCoreKind}
use nyanpasu_service.Log.Frame.{LogLevel, LogFrame, rank}

max_level : List LogFrame → Option LogLevel
max_level [] = none
max_level (f ∷ fs) =
    let later = max_level fs in
    if leb (rank LogLevel.warning) (rank f.level)
    then (elim later [
      | none ↦ some f.level
      | some level ↦ if ltb (rank level) (rank f.level) then some f.level else some level
    ])
    else later

-- `.iter().rev().find(…)`: the last frame of that level.
find_last : LogLevel → List LogFrame → Option LogFrame
find_last level [] = none
find_last level (f ∷ fs) = elim (find_last level fs) [
  | some g ↦ some g
  | none ↦ if rank f.level == rank level then some f else none
]

pub error_summary : List LogFrame → Option Text
error_summary frames = elim (max_level frames) [
  | none ↦ none
  | some level ↦ Option.map (λ f. f.message) (find_last level frames)
]

-- `format_tail`: the raw records, joined by newlines.
unfoldable pub format_tail : List LogFrame → Text
format_tail [] = []
format_tail (f ∷ []) = f.raw
format_tail (f ∷ g ∷ fs) = f.raw ++ newline ∷ format_tail (g ∷ fs)
