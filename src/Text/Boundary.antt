-- ===== src/Text/Boundary.antt =====
-- Where a cut text ends, and how long it is.
use mathlib.Core.Path.{subst}
use nyanpasu_service.Prelude.{
  ℕ, zero, suc, ◌-◌, ◌≤◌, ◌<◌, ◌≡◌, refl, inl, inr, true, false, [], ◌∷◌, ◌++◌, arith, Bool-cases,
  length, take, length-take, length-append, take_all, min,
}
use nyanpasu_service.Text.{
  Text, newline, is_char_boundary, char_boundary_at_or_below, truncate_text, append_bounded,
  append_cut, cap_detail, max_last_error_bytes,
}

pub boundary-le : (t : Text) (n : ℕ) → char_boundary_at_or_below t n ≤ n
unfolding char_boundary_at_or_below
boundary-le t zero = omega arith
boundary-le t (suc i) = ground (arith, boundary-le t i)

pub boundary-boundary :
    (t : Text) (n : ℕ) → is_char_boundary t (char_boundary_at_or_below t n) ≡ true
unfolding char_boundary_at_or_below is_char_boundary
boundary-boundary t zero = refl
boundary-boundary t (suc i) = elim (Bool-cases (is_char_boundary t (suc i))) [
  | inl h ↦ rw h h
  | inr h ↦ rw h (boundary-boundary t i)
]

boundary-greatest :
    (t : Text) (n i : ℕ) → is_char_boundary t i ≡ true → i ≤ n → i ≤ char_boundary_at_or_below t n
unfolding char_boundary_at_or_below
boundary-greatest t zero i h le = le
boundary-greatest t (suc n) i h le = ground (arith, boundary-greatest t n i h, same)
  where
    same : i ≡ suc n → is_char_boundary t (suc n) ≡ true
    same e = subst (λ k. is_char_boundary t k ≡ true) e h

-- The loop ends at the greatest character boundary that is at most the budget: what it returns is
-- a boundary, is at most the budget, and is at least every boundary within the budget.
pub boundary_is_greatest :
    (t : Text) (n i : ℕ)
    → is_char_boundary t i ≡ true
    → i ≤ n
    → (is_char_boundary t (char_boundary_at_or_below t n) ≡ true)
      × (char_boundary_at_or_below t n ≤ n)
      × (i ≤ char_boundary_at_or_below t n)
boundary_is_greatest t n i h le =
    (boundary-boundary t n, boundary-le t n, boundary-greatest t n i h le)

pub length-truncate_text-le : (t : Text) (n : ℕ) → length (truncate_text t n).0 ≤ n
unfolding truncate_text
length-truncate_text-le t n =
    ground (arith, boundary-le t n, length-take (char_boundary_at_or_below t n) t)

-- An uncut text is the text itself.
pub truncate_text_uncut :
    (t : Text) (n : ℕ) → (truncate_text t n).1 ≡ false → (truncate_text t n).0 ≡ t
unfolding truncate_text
truncate_text_uncut t n h = ground arith

pub truncate_text_fits : (t : Text) (n : ℕ) → length t ≤ n → truncate_text t n ≡ (t, false)
unfolding truncate_text
truncate_text_fits t n h = ground arith

length-append_cut-le :
    (t line : Text) (e m : ℕ)
    → length t < m
    → e ≤ m - length t - 1
    → length (append_cut t line e).0 ≤ m
unfolding append_cut
length-append_cut-le t line e m fits budget =
    ground (arith, length-append t (newline ∷ take e line), length-take e line)

-- Appending a continuation keeps a text within its cap.
pub length-append_bounded-le :
    (t line : Text) (m : ℕ) → length t ≤ m → length (append_bounded t line m).0 ≤ m
unfolding append_bounded
length-append_bounded-le t [] m h = ground (arith, length-append t (newline ∷ []))
length-append_bounded-le t (b ∷ bs) m h =
    let end = char_boundary_at_or_below (b ∷ bs) (min (m - length t - 1) (length (b ∷ bs))) in
    ground (
      arith,
      length-append_cut-le t (b ∷ bs) end m,
      boundary-le (b ∷ bs) (min (m - length t - 1) (length (b ∷ bs))),
    )

append_cut_uncut :
    (t line : Text) (e : ℕ)
    → (append_cut t line e).1 ≡ false
    → (append_cut t line e).0 ≡ t ++ newline ∷ line
unfolding append_cut
append_cut_uncut t line e h = ground (arith, take_all e line)

-- Where nothing is reported cut, the whole line stands behind a newline.
pub append_bounded_uncut :
    (t line : Text) (m : ℕ)
    → (append_bounded t line m).1 ≡ false
    → (append_bounded t line m).0 ≡ t ++ newline ∷ line
unfolding append_bounded
append_bounded_uncut t [] m h = ground arith
append_bounded_uncut t (b ∷ bs) m h = ground (
  arith,
  append_cut_uncut t (b ∷ bs)
      (char_boundary_at_or_below (b ∷ bs) (min (m - length t - 1) (length (b ∷ bs)))),
)

-- The detail of a failed probe is kept in at most 512 bytes.
pub length-cap_detail-le : (t : Text) → length (cap_detail t) ≤ max_last_error_bytes
unfolding cap_detail
length-cap_detail-le t = ground (
  arith,
  boundary-le t max_last_error_bytes,
  length-take (char_boundary_at_or_below t max_last_error_bytes) t,
)
