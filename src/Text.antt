-- ===== src/Text.antt =====
-- Rust strings as their UTF-8 bytes, and the byte-budget routines of the core manager:
-- `char_boundary_at_or_below`, `truncate_text` and `append_bounded` (log.rs) and `cap_detail`
-- (health/mod.rs), all under crates/nyanpasu-core-manager/src.
pub mod Boundary
pub mod Decimal
pub mod Utf8
mod Tests
use Prim.Native.Char.{code}
use nyanpasu_service.Prelude.{
  String, ℕ, zero, suc, ◌-◌, Bool, true, false, ◌&&◌, ◌||◌, Option, none, some, List, [], ◌∷◌, ◌++◌,
  ltb, leb, ◌==◌, if◌then◌else◌, length, get_elem?, take, min,
}

abbrev pub Text : Type 0
Text = List ℕ

-- The bytes of a literal, which is ASCII throughout the sources modelled.
abbrev pub bytes : String → Text
bytes String.[] = []
bytes (String.◌∷◌ c s) = code c ∷ bytes s

-- Equality of strings.
unfoldable pub same_text : Text → Text → Bool
same_text [] [] = true
same_text [] (y ∷ ys) = false
same_text (x ∷ xs) [] = false
same_text (x ∷ xs) (y ∷ ys) = (x == y) && same_text xs ys

abbrev pub newline : ℕ
newline = 10

-- `u8 as i8 >= -0x40`: the byte begins a character.
pub starts_char : ℕ → Bool
starts_char b = ltb b 0x80 || leb 0xc0 b

boundary_at : Option ℕ → Bool
unfolding starts_char
boundary_at none = false
boundary_at (some b) = starts_char b

-- `str::is_char_boundary`: 0 and the length are boundaries, an index past the end is not.
unfoldable pub is_char_boundary : Text → ℕ → Bool
unfolding boundary_at
is_char_boundary text zero = true
is_char_boundary text (suc i) =
    if suc i == length text then true else boundary_at (get_elem? text (suc i))

-- The loop `while !text.is_char_boundary(end) { end -= 1 }`, which stops at 0 at the latest.
unfoldable pub char_boundary_at_or_below : Text → ℕ → ℕ
char_boundary_at_or_below text zero = zero
char_boundary_at_or_below text (suc i) =
    let below = char_boundary_at_or_below text i in
    if is_char_boundary text (suc i) then suc i else below

-- The new text, with the flag that says whether it was cut.
unfoldable pub truncate_text : Text → ℕ → Text × Bool
truncate_text text max_bytes =
    if leb (length text) max_bytes
    then (text, false)
    else (take (char_boundary_at_or_below text max_bytes) text, true)

abbrev is_empty : Text → Bool
is_empty [] = true
is_empty (b ∷ bs) = false

append_cut : Text → Text → ℕ → Text × Bool
append_cut text line end =
    if end == 0 then (text, true) else (text ++ newline ∷ take end line, ltb end (length line))

-- The budget is used only where `text` is shorter than the cap, so the subtraction is exact.
unfoldable pub append_bounded : Text → Text → ℕ → Text × Bool
unfolding append_cut
append_bounded text line max_bytes =
    let budget = max_bytes - length text - 1 in
    if leb max_bytes (length text)
    then (text, true)
    else if is_empty line
    then (text ++ newline ∷ [], false)
    else append_cut text line (char_boundary_at_or_below line (min budget (length line)))

abbrev pub max_last_error_bytes : ℕ
max_last_error_bytes = 512

-- `cap_detail`; its loop is the one of `char_boundary_at_or_below`.
unfoldable pub cap_detail : Text → Text
cap_detail detail =
    if leb (length detail) max_last_error_bytes
    then detail
    else take (char_boundary_at_or_below detail max_last_error_bytes) detail

-- `str::starts_with` over the bytes.
unfoldable pub starts_with : Text → Text → Bool
starts_with text [] = true
starts_with [] (p ∷ prefix) = false
starts_with (b ∷ text) (p ∷ prefix) = b == p && starts_with text prefix
