-- ===== src/Log/Ansi/Clean.antt =====
-- Stripping console escapes: what is left has none, clean text is kept, and UTF-8 stays UTF-8.
use nyanpasu_service.Prelude.{
  ℕ, ◌≡◌, ◌≢◌, refl, inl, inr, true, false, ◌&&◌, [], ◌∷◌, arith, leb, ◌==◌, All, Bool-cases,
}
use nyanpasu_service.Text.{Text}
use nyanpasu_service.Text.Utf8.{Utf8, end, one, two, three, four, second_of_three, second_of_four}
use nyanpasu_service.Log.Ansi.{
  AnsiMode, plain, csi_start, csi, escape, at_bracket, next_mode, keeps_byte, strip_from,
  contains_escape, strip_ansi,
}

abbrev pub NotEscape : ℕ → Type 0
NotEscape b = b ≢ escape

keeps_byte-NotEscape : (m : AnsiMode) (b : ℕ) → keeps_byte m b ≡ true → NotEscape b
unfolding keeps_byte
keeps_byte-NotEscape plain b h = ground arith
keeps_byte-NotEscape csi_start b h = cc
keeps_byte-NotEscape csi b h = cc

strip_from-clean : (m : AnsiMode) (t : Text) → All NotEscape (strip_from m t)
unfolding strip_from
strip_from-clean m [] = tt
strip_from-clean m (b ∷ rest) = elim (Bool-cases (keeps_byte m b)) [
  | inl kept ↦ rw kept (keeps_byte-NotEscape m b kept, strip_from-clean (next_mode m b rest) rest)
  | inr dropped ↦ rw dropped (strip_from-clean (next_mode m b rest) rest)
]

no_escape_clean : (t : Text) → contains_escape t ≡ false → All NotEscape t
unfolding contains_escape
no_escape_clean [] h = tt
no_escape_clean (b ∷ rest) h = (ground arith, no_escape_clean rest (ground arith))

clean_no_escape : (t : Text) → All NotEscape t → contains_escape t ≡ false
unfolding contains_escape
clean_no_escape [] h = refl
clean_no_escape (b ∷ rest) h = ground (arith, clean_no_escape rest h.1, h.0)

cleaned : (t : Text) → All NotEscape (strip_ansi t)
unfolding strip_ansi
cleaned t = elim (Bool-cases (contains_escape t)) [
  | inl h ↦ rw h (strip_from-clean plain t)
  | inr h ↦ rw h (no_escape_clean t h)
]

unchanged : (t : Text) → All NotEscape t → strip_ansi t ≡ t
unfolding strip_ansi
unchanged t h = rw (clean_no_escape t h)

-- A stripped line holds no escape byte, and stripping it again changes nothing.
pub strip_ansi-clean :
    (t : Text) → All NotEscape (strip_ansi t) × (strip_ansi (strip_ansi t) ≡ strip_ansi t)
strip_ansi-clean t = (cleaned t, unchanged (strip_ansi t) (cleaned t))

-- Behind an escape the sequence's `[` is still to be read.
abbrev AtSequence : AnsiMode → Text → Type 0
AtSequence csi_start t = at_bracket t ≡ true
AtSequence m t = Unit

next_mode-AtSequence : (m : AnsiMode) (b : ℕ) (t : Text) → AtSequence (next_mode m b t) t
unfolding next_mode
next_mode-AtSequence plain b t = elim (Bool-cases (b == escape && at_bracket t)) [
  | inl h ↦ rw h (ground arith)
  | inr h ↦ rw h tt
]
next_mode-AtSequence csi_start b t = tt
next_mode-AtSequence csi b t = elim (Bool-cases (leb 0x40 b && leb b 0x7e)) [
  | inl h ↦ rw h tt
  | inr h ↦ rw h tt
]

-- A byte of a character of several bytes changes no mode: it is kept outside a sequence and
-- dropped within one.
plain_high :
    (b : ℕ) (t : Text) → leb 0x80 b ≡ true → strip_from plain (b ∷ t) ≡ b ∷ strip_from plain t
unfolding strip_from next_mode keeps_byte
plain_high b t h = ground arith

csi_high : (b : ℕ) (t : Text) → leb 0x80 b ≡ true → strip_from csi (b ∷ t) ≡ strip_from csi t
unfolding strip_from next_mode keeps_byte
csi_high b t h = ground arith

not_bracket : (b : ℕ) (t : Text) → leb 0x80 b ≡ true → at_bracket (b ∷ t) ≡ true → ⊥
not_bracket b t h k = ground arith

three_high : (b c : ℕ) → second_of_three b c ≡ true → (leb 0x80 b ≡ true) × (leb 0x80 c ≡ true)
three_high b c h = ground arith

four_high : (b c : ℕ) → second_of_four b c ≡ true → (leb 0x80 b ≡ true) × (leb 0x80 c ≡ true)
four_high b c h = ground arith

strip_from-Utf8 : {t : Text} → Utf8 t → (m : AnsiMode) → AtSequence m t → Utf8 (strip_from m t)
unfolding strip_from
strip_from-Utf8 end m h = end
strip_from-Utf8 (one {b = b} {t = t} k u) m h = elim (Bool-cases (keeps_byte m b)) [
  | inl kept ↦ rw kept (one k (strip_from-Utf8 u (next_mode m b t) (next_mode-AtSequence m b t)))
  | inr dropped ↦ rw dropped (strip_from-Utf8 u (next_mode m b t) (next_mode-AtSequence m b t))
]
strip_from-Utf8 (two {b = b} {c = c} {t = t} k l u) csi_start h =
    absurd (not_bracket b (c ∷ t) (ground arith) h)
strip_from-Utf8 (two {b = b} {c = c} {t = t} k l u) plain h =
    rw (plain_high b (c ∷ t) (ground arith), plain_high c t (ground arith))
      (two k l (strip_from-Utf8 u plain tt))
strip_from-Utf8 (two {b = b} {c = c} {t = t} k l u) csi h =
    rw (csi_high b (c ∷ t) (ground arith), csi_high c t (ground arith)) (strip_from-Utf8 u csi tt)
strip_from-Utf8 (three {b = b} {c = c} {d = d} {t = t} k l u) csi_start h =
    absurd (not_bracket b (c ∷ d ∷ t) (three_high b c k).0 h)
strip_from-Utf8 (three {b = b} {c = c} {d = d} {t = t} k l u) plain h =
    rw
      (
        plain_high b (c ∷ d ∷ t) (three_high b c k).0,
        plain_high c (d ∷ t) (three_high b c k).1,
        plain_high d t (ground arith),
      )
      (three k l (strip_from-Utf8 u plain tt))
strip_from-Utf8 (three {b = b} {c = c} {d = d} {t = t} k l u) csi h =
    rw
      (
        csi_high b (c ∷ d ∷ t) (three_high b c k).0,
        csi_high c (d ∷ t) (three_high b c k).1,
        csi_high d t (ground arith),
      )
      (strip_from-Utf8 u csi tt)
strip_from-Utf8 (four {b = b} {c = c} {d = d} {e = e} {t = t} k l m u) csi_start h =
    absurd (not_bracket b (c ∷ d ∷ e ∷ t) (four_high b c k).0 h)
strip_from-Utf8 (four {b = b} {c = c} {d = d} {e = e} {t = t} k l m u) plain h =
    rw
      (
        plain_high b (c ∷ d ∷ e ∷ t) (four_high b c k).0,
        plain_high c (d ∷ e ∷ t) (four_high b c k).1,
        plain_high d (e ∷ t) (ground arith),
        plain_high e t (ground arith),
      )
      (four k l m (strip_from-Utf8 u plain tt))
strip_from-Utf8 (four {b = b} {c = c} {d = d} {e = e} {t = t} k l m u) csi h =
    rw
      (
        csi_high b (c ∷ d ∷ e ∷ t) (four_high b c k).0,
        csi_high c (d ∷ e ∷ t) (four_high b c k).1,
        csi_high d (e ∷ t) (ground arith),
        csi_high e t (ground arith),
      )
      (strip_from-Utf8 u csi tt)

-- Dropping the escapes of a line in UTF-8 leaves UTF-8: the `expect` behind `strip_ansi` never
-- panics, wherever a sequence is truncated and whatever characters it swallows.
pub strip_ansi-Utf8 : {t : Text} → Utf8 t → Utf8 (strip_ansi t)
unfolding strip_ansi
strip_ansi-Utf8 {t} u = elim (Bool-cases (contains_escape t)) [
  | inl h ↦ rw h (strip_from-Utf8 u plain tt)
  | inr h ↦ rw h u
]
