-- ===== src/Text/Utf8.antt =====
-- What a `str` guarantees: its bytes are well-formed UTF-8, by the table of the Unicode standard
-- that `String::from_utf8` checks. Cutting at a character boundary keeps it.
use nyanpasu_service.Prelude.{
  Bool-cases, inl, inr, ℕ, zero, suc, ◌≡◌, refl, Bool, true, ◌&&◌, [], ◌∷◌, ◌++◌, arith, ltb, leb,
  ◌==◌, if◌then◌else◌, take, length,
}
use nyanpasu_service.Text.{
  Text, is_char_boundary, char_boundary_at_or_below, truncate_text, append_bounded, append_cut,
  cap_detail, max_last_error_bytes,
}
use nyanpasu_service.Text.Boundary.{boundary-boundary}

abbrev pub between : ℕ → ℕ → ℕ → Bool
between lo hi b = leb lo b && leb b hi

abbrev pub is_continuation : ℕ → Bool
is_continuation b = between 0x80 0xbf b

-- The second byte of a character of three bytes that begins with `b`.
abbrev pub second_of_three : ℕ → ℕ → Bool
second_of_three b c =
    if b == 0xe0
    then between 0xa0 0xbf c
    else if b == 0xed
    then between 0x80 0x9f c
    else between 0xe1 0xef b && is_continuation c

abbrev pub second_of_four : ℕ → ℕ → Bool
second_of_four b c =
    if b == 0xf0
    then between 0x90 0xbf c
    else if b == 0xf4
    then between 0x80 0x8f c
    else between 0xf1 0xf3 b && is_continuation c

pub data Utf8 : Text → Type 0 where
  end : Utf8 []
  one : {b : ℕ} {t : Text} → ltb b 0x80 ≡ true → Utf8 t → Utf8 (b ∷ t)
  two :
      {b c : ℕ} {t : Text}
      → between 0xc2 0xdf b ≡ true
      → is_continuation c ≡ true
      → Utf8 t
      → Utf8 (b ∷ c ∷ t)
  three :
      {b c d : ℕ} {t : Text}
      → second_of_three b c ≡ true
      → is_continuation d ≡ true
      → Utf8 t
      → Utf8 (b ∷ c ∷ d ∷ t)
  four :
      {b c d e : ℕ} {t : Text}
      → second_of_four b c ≡ true
      → is_continuation d ≡ true
      → is_continuation e ≡ true
      → Utf8 t
      → Utf8 (b ∷ c ∷ d ∷ e ∷ t)

pub Utf8-append : {s t : Text} → Utf8 s → Utf8 t → Utf8 (s ++ t)
Utf8-append end v = v
Utf8-append (one h u) v = one h (Utf8-append u v)
Utf8-append (two h k u) v = two h k (Utf8-append u v)
Utf8-append (three h k u) v = three h k (Utf8-append u v)
Utf8-append (four h k l u) v = four h k l (Utf8-append u v)

-- A boundary behind the first byte is a boundary of the rest.
boundary_tail :
    (b : ℕ) (t : Text) (k : ℕ)
    → is_char_boundary (b ∷ t) (suc (suc k)) ≡ true
    → is_char_boundary t (suc k) ≡ true
unfolding is_char_boundary
boundary_tail b t k h = ground arith

-- There is no boundary before a continuation byte.
no_boundary :
    (b c : ℕ) (t : Text) → is_continuation c ≡ true → is_char_boundary (b ∷ c ∷ t) 1 ≡ true → ⊥
unfolding is_char_boundary
no_boundary b c t k h = ground arith

second_of_three_continues : (b c : ℕ) → second_of_three b c ≡ true → is_continuation c ≡ true
second_of_three_continues b c h = ground arith

second_of_four_continues : (b c : ℕ) → second_of_four b c ≡ true → is_continuation c ≡ true
second_of_four_continues b c h = ground arith

pub Utf8-take : {t : Text} (u : Utf8 t) (i : ℕ) → is_char_boundary t i ≡ true → Utf8 (take i t)
Utf8-take end zero h = end
Utf8-take end (suc i) h = end
Utf8-take (one k u) zero h = end
Utf8-take (one k u) (suc zero) h = one k end
Utf8-take (one {b = b} {t = t} k u) (suc (suc i)) h =
    one k (Utf8-take u (suc i) (boundary_tail b t i h))
Utf8-take (two k l u) zero h = end
Utf8-take (two {b = b} {c = c} {t = t} k l u) (suc zero) h = absurd (no_boundary b c t l h)
Utf8-take (two k l u) (suc (suc zero)) h = two k l end
Utf8-take (two {b = b} {c = c} {t = t} k l u) (suc (suc (suc i))) h =
    two k l (Utf8-take u (suc i) (boundary_tail c t i (boundary_tail b (c ∷ t) (suc i) h)))
Utf8-take (three k l u) zero h = end
Utf8-take (three {b = b} {c = c} {d = d} {t = t} k l u) (suc zero) h =
    absurd (no_boundary b c (d ∷ t) (second_of_three_continues b c k) h)
Utf8-take (three {b = b} {c = c} {d = d} {t = t} k l u) (suc (suc zero)) h =
    absurd (no_boundary c d t l (boundary_tail b (c ∷ d ∷ t) zero h))
Utf8-take (three k l u) (suc (suc (suc zero))) h = three k l end
Utf8-take (three {b = b} {c = c} {d = d} {t = t} k l u) (suc (suc (suc (suc i)))) h =
    let h' = boundary_tail b (c ∷ d ∷ t) (suc (suc i)) h in
    three k l (Utf8-take u (suc i) (boundary_tail d t i (boundary_tail c (d ∷ t) (suc i) h')))
Utf8-take (four k l m u) zero h = end
Utf8-take (four {b = b} {c = c} {d = d} {e = e} {t = t} k l m u) (suc zero) h =
    absurd (no_boundary b c (d ∷ e ∷ t) (second_of_four_continues b c k) h)
Utf8-take (four {b = b} {c = c} {d = d} {e = e} {t = t} k l m u) (suc (suc zero)) h =
    absurd (no_boundary c d (e ∷ t) l (boundary_tail b (c ∷ d ∷ e ∷ t) zero h))
Utf8-take (four {b = b} {c = c} {d = d} {e = e} {t = t} k l m u) (suc (suc (suc zero))) h =
    let h' = boundary_tail b (c ∷ d ∷ e ∷ t) (suc zero) h in
    absurd (no_boundary d e t m (boundary_tail c (d ∷ e ∷ t) zero h'))
Utf8-take (four k l m u) (suc (suc (suc (suc zero)))) h = four k l m end
Utf8-take (four {b = b} {c = c} {d = d} {e = e} {t = t} k l m u) (suc (suc (suc (suc (suc i))))) h =
    let h' = boundary_tail b (c ∷ d ∷ e ∷ t) (suc (suc (suc i))) h in
    let h'' = boundary_tail c (d ∷ e ∷ t) (suc (suc i)) h' in
    four k l m (Utf8-take u (suc i) (boundary_tail e t i (boundary_tail d (e ∷ t) (suc i) h'')))

-- A cut text is still UTF-8.
Utf8-cut : {t : Text} (n : ℕ) → Utf8 t → Utf8 (take (char_boundary_at_or_below t n) t)
Utf8-cut {t} n u = Utf8-take u _ (boundary-boundary t n)

truncate_text-Utf8 : {t : Text} (m : ℕ) → Utf8 t → Utf8 (truncate_text t m).0
unfolding truncate_text
truncate_text-Utf8 {t} m u = elim (Bool-cases (leb (length t) m)) [
  | inl fits ↦ rw fits u
  | inr over ↦ rw over (Utf8-cut m u)
]

cap_detail-Utf8 : {t : Text} → Utf8 t → Utf8 (cap_detail t)
unfolding cap_detail
cap_detail-Utf8 {t} u = elim (Bool-cases (leb (length t) max_last_error_bytes)) [
  | inl fits ↦ rw fits u
  | inr over ↦ rw over (Utf8-cut max_last_error_bytes u)
]

append_cut-Utf8 :
    {t : Text} (line : Text) (e : ℕ) → Utf8 t → Utf8 (take e line) → Utf8 (append_cut t line e).0
unfolding append_cut
append_cut-Utf8 {t} line e u v = elim (Bool-cases (e == 0)) [
  | inl none_fits ↦ rw none_fits u
  | inr some_fits ↦ rw some_fits (Utf8-append u (one refl v))
]

pub append_bounded-Utf8 :
    {t : Text} (line : Text) (m : ℕ) → Utf8 t → Utf8 line → Utf8 (append_bounded t line m).0
unfolding append_bounded
append_bounded-Utf8 {t} [] m u v = elim (Bool-cases (leb m (length t))) [
  | inl full ↦ rw full u
  | inr room ↦ rw room (Utf8-append u (one refl end))
]
append_bounded-Utf8 {t} (b ∷ bs) m u v = elim (Bool-cases (leb m (length t))) [
  | inl full ↦ rw full u
  | inr room ↦ rw room (append_cut-Utf8 (b ∷ bs) _ u (Utf8-cut _ v))
]

-- The three places that slice a string never split a character: from UTF-8 text, truncating a
-- field, appending a continuation line and capping a probe's detail all make UTF-8, at every cap.
pub cut_keeps_Utf8 :
    {t line : Text} (m : ℕ)
    → Utf8 t
    → Utf8 line
    → Utf8 (truncate_text t m).0 × Utf8 (append_bounded t line m).0 × Utf8 (cap_detail t)
cut_keeps_Utf8 {t} {line} m u v =
    (truncate_text-Utf8 m u, append_bounded-Utf8 line m u v, cap_detail-Utf8 u)
