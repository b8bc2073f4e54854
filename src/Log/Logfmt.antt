-- ===== src/Log/Logfmt.antt =====
-- `scan_logfmt` of crates/nyanpasu-core-manager/src/log.rs. The index into the line is the rest of the
-- line here, and a mode says which of the loops it is in. Every cut is at an ASCII byte, so the
-- tests of `line.get` and `String::from_utf8` succeed on a line that is UTF-8.
pub mod Inverse
use nyanpasu_service.Prelude.{
  ℕ, Bool, true, false, ◌||◌, Option, none, some, List, [], ◌∷◌, ◌++◌, ◌==◌, if◌then◌else◌,
}
use nyanpasu_service.Text.{Text}
use nyanpasu_service.Log.Frame.{LogField}

-- `u8::is_ascii_whitespace`
abbrev pub is_space : ℕ → Bool
is_space b = (b == 32) || (b == 9) || (b == 10) || (b == 12) || (b == 13)

abbrev pub quote : ℕ
quote = 34

abbrev pub backslash : ℕ
backslash = 92

-- Between fields; in a key; behind the `=`; in a quoted value, behind a backslash in one, behind its
-- closing quote; in a bare value.
pub data Mode : Type 0 where
  between : Mode
  key_of at_value : Text → Mode
  quoted escaped closed bare : Text → Text → Mode

-- What an escape stands for.
unescape : ℕ → Text
unescape b =
    if (b == quote) || (b == backslash)
    then b ∷ []
    else if b == b'n'
    then 10 ∷ []
    else if b == b'r'
    then 13 ∷ []
    else if b == b't'
    then 9 ∷ []
    else backslash ∷ b ∷ []

abbrev pub field : Text → Text → LogField
field key value = record { key = key; value = value }

-- A byte, in a mode: the next mode and a field that it ends, or `None` of the whole line.
step : Mode → ℕ → Option (Mode × List LogField)
unfolding unescape
step Mode.between b =
    if is_space b
    then some (Mode.between, [])
    else if b == b'='
    then none
    else some (Mode.key_of (b ∷ []), [])
step (Mode.key_of key) b =
    if b == b'='
    then some (Mode.at_value key, [])
    else if is_space b
    then none
    else some (Mode.key_of (key ++ (b ∷ [])), [])
step (Mode.at_value key) b =
    if b == quote
    then some (Mode.quoted key [], [])
    else if is_space b
    then some (Mode.between, field key [] ∷ [])
    else some (Mode.bare key (b ∷ []), [])
step (Mode.quoted key value) b =
    if b == quote
    then some (Mode.closed key value, [])
    else if b == backslash
    then some (Mode.escaped key value, [])
    else some (Mode.quoted key (value ++ (b ∷ [])), [])
step (Mode.escaped key value) b = some (Mode.quoted key (value ++ unescape b), [])
step (Mode.closed key value) b =
    if is_space b then some (Mode.between, field key value ∷ []) else none
step (Mode.bare key value) b =
    if is_space b
    then some (Mode.between, field key value ∷ [])
    else some (Mode.bare key (value ++ (b ∷ [])), [])

-- The end of the line.
finish_line : Mode → Option (List LogField)
finish_line Mode.between = some []
finish_line (Mode.key_of key) = none
finish_line (Mode.at_value key) = some (field key [] ∷ [])
finish_line (Mode.quoted key value) = none
finish_line (Mode.escaped key value) = none
finish_line (Mode.closed key value) = some (field key value ∷ [])
finish_line (Mode.bare key value) = some (field key value ∷ [])

with_fields : List LogField → Option (List LogField) → Option (List LogField)
with_fields fields none = none
with_fields fields (some rest) = some (fields ++ rest)

scan : Mode → Text → Option (List LogField)
unfolding step finish_line with_fields
scan mode [] = finish_line mode
scan mode (b ∷ bs) = elim (step mode b) [
  | none ↦ none
  | some next ↦ with_fields (next.1) (scan (next.0) bs)
]

unfoldable pub scan_logfmt : Text → Option (List LogField)
unfolding scan
scan_logfmt line = scan Mode.between line
