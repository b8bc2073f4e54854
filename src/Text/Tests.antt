-- ===== src/Text/Tests.antt =====
-- Cutting texts: runs on concrete bytes, and the text theorems at inputs that meet their hypotheses.
use nyanpasu_service.Prelude.{arith, ◌≡◌, refl, ◌++◌, [], ◌∷◌, true, false, ◌≤◌}
use nyanpasu_service.Text.{
  Text, newline, is_char_boundary, char_boundary_at_or_below, truncate_text, append_bounded,
  cap_detail,
}
use nyanpasu_service.Text.Boundary.{boundary_is_greatest}
use nyanpasu_service.Text.Utf8.{Utf8, end, one, two, three, cut_keeps_Utf8}

-- "aé…": one, two and three bytes.
abbrev mixed : Text
mixed = 0x61 ∷ 0xc3 ∷ 0xa9 ∷ 0xe2 ∷ 0x80 ∷ 0xa6 ∷ []

mixed-Utf8 : Utf8 mixed
mixed-Utf8 = one refl (two refl refl (three refl refl end))

cut_inside : truncate_text mixed 5 ≡ (0x61 ∷ 0xc3 ∷ 0xa9 ∷ [], true)
unfolding truncate_text char_boundary_at_or_below is_char_boundary
cut_inside = refl

separator_only : append_bounded mixed [] 7 ≡ (mixed ++ newline ∷ [], false)
unfolding append_bounded
separator_only = refl

first_character_too_wide : append_bounded mixed (0xc3 ∷ 0xa9 ∷ []) 8 ≡ (mixed, true)
unfolding append_bounded char_boundary_at_or_below is_char_boundary
first_character_too_wide = refl

boundary_is_greatest_example :
    (is_char_boundary mixed (char_boundary_at_or_below mixed 5) ≡ true)
    × (char_boundary_at_or_below mixed 5 ≤ 5)
    × (3 ≤ char_boundary_at_or_below mixed 5)
unfolding is_char_boundary
boundary_is_greatest_example = boundary_is_greatest mixed 5 3 refl (omega arith)

cut_keeps_Utf8_example :
    Utf8 (truncate_text mixed 4).0 × Utf8 (append_bounded mixed mixed 4).0 × Utf8 (cap_detail mixed)
cut_keeps_Utf8_example = cut_keeps_Utf8 {t = mixed} {line = mixed} 4 mixed-Utf8 mixed-Utf8
