-- ===== src/Log/Ansi.antt =====
-- `strip_ansi` of crates/nyanpasu-core-manager/src/log.rs.
pub mod Clean
mod Tests
use nyanpasu_service.Prelude.{
  ℕ, zero, suc, ◌+◌, Bool, true, false, ◌&&◌, ◌||◌, not, Option, none, some, List, [], ◌∷◌, ◌++◌,
  ltb, leb, ◌==◌, if◌then◌else◌, length, take, map,
}
use nyanpasu_service.Text.{Text, bytes, newline, truncate_text, append_bounded, starts_with}
use nyanpasu_service.Kind.{ClashCoreKind}

-- `strip_ansi` as one pass: `csi_start` is about to read the `[` behind an escape, and `csi` reads
-- the sequence up to its final byte.
pub data AnsiMode : Type 0 where
  plain csi_start csi : AnsiMode

abbrev pub escape : ℕ
escape = 0x1b

abbrev pub at_bracket : Text → Bool
at_bracket [] = false
at_bracket (b ∷ rest) = b == b'['

next_mode : AnsiMode → ℕ → Text → AnsiMode
next_mode AnsiMode.plain b rest =
    if b == escape && at_bracket rest then AnsiMode.csi_start else AnsiMode.plain
next_mode AnsiMode.csi_start b rest = AnsiMode.csi
next_mode AnsiMode.csi b rest = if leb 0x40 b && leb b 0x7e then AnsiMode.plain else AnsiMode.csi

keeps_byte : AnsiMode → ℕ → Bool
keeps_byte AnsiMode.plain b = not (b == escape)
keeps_byte mode b = false

strip_from : AnsiMode → Text → Text
strip_from mode [] = []
strip_from mode (b ∷ rest) =
    let kept = strip_from (next_mode mode b rest) rest in
    if keeps_byte mode b then b ∷ kept else kept

contains_escape : Text → Bool
contains_escape [] = false
contains_escape (b ∷ rest) = b == escape || contains_escape rest

pub strip_ansi : Text → Text
unfolding strip_from contains_escape
strip_ansi line = if contains_escape line then strip_from AnsiMode.plain line else line
