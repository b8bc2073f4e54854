-- ===== src/Log/Ansi/Tests.antt =====
-- Coloured lines, whole and truncated, and the theorems about stripping at them.
use nyanpasu_service.Prelude.{◌≡◌, refl, [], ◌∷◌, All}
use nyanpasu_service.Text.{Text}
use nyanpasu_service.Text.Utf8.{Utf8, end, one, two}
use nyanpasu_service.Log.Ansi.{strip_ansi, escape, next_mode, keeps_byte}
use nyanpasu_service.Log.Ansi.Clean.{NotEscape, strip_ansi-clean, strip_ansi-Utf8}

-- A colour, one character of two bytes, and a sequence that the line's end cuts.
abbrev coloured : Text
coloured = escape ∷ b'[' ∷ b'3' ∷ b'm' ∷ 0xc3 ∷ 0xa9 ∷ escape ∷ b'[' ∷ b'3' ∷ []

coloured-Utf8 : Utf8 coloured
coloured-Utf8 =
    one refl (one refl (one refl (one refl (two refl refl (one refl (one refl (one refl end)))))))

strips_both : strip_ansi coloured ≡ 0xc3 ∷ 0xa9 ∷ []
unfolding strip_ansi next_mode keeps_byte
strips_both = refl

strip_ansi-clean_example :
    All NotEscape (strip_ansi coloured) × (strip_ansi (strip_ansi coloured) ≡ strip_ansi coloured)
strip_ansi-clean_example = strip_ansi-clean coloured

strip_ansi-Utf8_example : Utf8 (strip_ansi coloured)
strip_ansi-Utf8_example = strip_ansi-Utf8 coloured-Utf8
