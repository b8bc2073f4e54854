-- ===== src/LogSink/Names/Inverse.antt =====
-- A name that the archive gave is read back as its number.
use Prim.Native.Nat.{◌/◌, ◌%◌}
use nyanpasu_service.Prelude.{
  ℕ, zero, suc, ◌+◌, ◌-◌, ◌*◌, ◌≤◌, ◌<◌, ◌≡◌, refl, ap, ◌∙◌, true, false, some, [], ◌∷◌, ◌++◌, ltb,
  length, length-append, replicate, arith, Bool-cases, inl, inr,
}
use nyanpasu_service.Text.{Text, same_text}
use nyanpasu_service.Text.Decimal.{digits_onto, show_ℕ}
use nyanpasu_service.LogSink.Names.{
  file_prefix, file_suffix, padded, file_name, strip_prefix, prepend, strip_suffix, is_digit,
  all_digits, is_empty, u64_max, parse_onto, parse_digits, suffix_stripped, prefix_stripped,
  file_seq,
}

strip_prefix-append : (p t : Text) → strip_prefix p (p ++ t) ≡ some t
unfolding strip_prefix
strip_prefix-append [] t = refl
strip_prefix-append (x ∷ xs) t = ground (arith, strip_prefix-append xs t)

same_text_refl : (t : Text) → same_text t t ≡ true
unfolding same_text
same_text_refl [] = refl
same_text_refl (x ∷ xs) = ground (arith, same_text_refl xs)

same_text-length : (s t : Text) → same_text s t ≡ true → length s ≡ length t
unfolding same_text
same_text-length [] [] h = refl
same_text-length [] (y ∷ ys) h = ground arith
same_text-length (x ∷ xs) [] h = ground arith
same_text-length (x ∷ xs) (y ∷ ys) h = ground (arith, same_text-length xs ys)

strip_suffix_whole : (s : Text) → strip_suffix s s ≡ some []
unfolding strip_suffix
strip_suffix_whole [] = refl
strip_suffix_whole (x ∷ xs) = rw (same_text_refl (x ∷ xs)) refl

strip_suffix-append : (s t : Text) → strip_suffix s (t ++ s) ≡ some t
unfolding strip_suffix prepend
strip_suffix-append s [] = strip_suffix_whole s
strip_suffix-append s (x ∷ xs) = elim (Bool-cases (same_text (x ∷ xs ++ s) s)) [
  | inl h ↦ absurd (omega (arith, same_text-length (x ∷ xs ++ s) s h, length-append xs s))
  | inr h ↦ rw (h, strip_suffix-append s xs) refl
]

parse_onto-zeros : (n : ℕ) (t : Text) → parse_onto 0 (replicate n b'0' ++ t) ≡ parse_onto 0 t
unfolding parse_onto
parse_onto-zeros zero t = refl
parse_onto-zeros (suc n) t = parse_onto-zeros n t

-- A digit that keeps the number in range.
parse_digit :
    (acc d : ℕ) (rest : Text)
    → acc * 10 + d ≤ u64_max
    → parse_onto acc ((b'0' + d) ∷ rest) ≡ parse_onto (acc * 10 + d) rest
unfolding parse_onto
parse_digit acc d rest h =
    let same : acc * 10 + ((b'0' + d) - b'0') ≡ acc * 10 + d = omega arith in
    let fits : ltb u64_max (acc * 10 + d) ≡ false = ground arith in rw (same, fits) refl

parse_onto-digits_onto :
    (fuel n : ℕ) (rest : Text)
    → n < fuel
    → n ≤ u64_max
    → parse_onto 0 (digits_onto fuel n rest) ≡ parse_onto n rest
unfolding digits_onto
parse_onto-digits_onto zero n rest f h = absurd (omega arith)
parse_onto-digits_onto (suc fuel) n rest f h = elim (Bool-cases (ltb n 10)) [
  | inl t ↦ rw t (parse_digit 0 n rest (omega arith) ∙ ap (λ k. parse_onto k rest) (omega arith))
  | inr t ↦
      let big : 10 ≤ n = ground arith in
      rw t (
        parse_onto-digits_onto fuel (n / 10) ((b'0' + n % 10) ∷ rest) (omega arith) (omega arith)
        ∙ parse_digit (n / 10) (n % 10) rest (omega arith)
        ∙ ap (λ k. parse_onto k rest) (omega arith))
]

parse_onto-show_ℕ : (n : ℕ) → n ≤ u64_max → parse_onto 0 (show_ℕ n) ≡ some n
unfolding show_ℕ parse_onto
parse_onto-show_ℕ n h = parse_onto-digits_onto (suc n) n [] (omega arith) h

all_digits-digits_onto :
    (fuel n : ℕ) (rest : Text)
    → all_digits rest ≡ true
    → all_digits (digits_onto fuel n rest) ≡ true
unfolding digits_onto all_digits is_digit
all_digits-digits_onto zero n rest h = h
all_digits-digits_onto (suc fuel) n rest h = elim (Bool-cases (ltb n 10)) [
  | inl t ↦ rw t (ground arith)
  | inr t ↦ rw t (
      all_digits-digits_onto fuel (n / 10) ((b'0' + n % 10) ∷ rest)
        (let low : n % 10 < 10 = omega arith in ground arith))
]

all_digits-zeros :
    (n : ℕ) (t : Text) → all_digits t ≡ true → all_digits (replicate n b'0' ++ t) ≡ true
unfolding all_digits is_digit
all_digits-zeros zero t h = h
all_digits-zeros (suc n) t h = all_digits-zeros n t h

length-digits_onto : (fuel n : ℕ) (rest : Text) → length rest ≤ length (digits_onto fuel n rest)
unfolding digits_onto
length-digits_onto zero n rest = omega arith
length-digits_onto (suc fuel) n rest =
    ground (arith, length-digits_onto fuel (n / 10) ((b'0' + n % 10) ∷ rest))

is_empty-show_ℕ : (n : ℕ) → 1 ≤ length (show_ℕ n)
unfolding show_ℕ digits_onto
is_empty-show_ℕ n = ground (arith, length-digits_onto n (n / 10) ((b'0' + n % 10) ∷ []))

is_empty-length : (t : Text) → 1 ≤ length t → is_empty t ≡ false
unfolding is_empty
is_empty-length [] h = absurd (omega arith)
is_empty-length (b ∷ bs) h = refl

parse_digits-padded : (n : ℕ) → n ≤ u64_max → parse_digits (padded (show_ℕ n)) ≡ some n
unfolding parse_digits padded show_ℕ
parse_digits-padded n h =
    let zeros = replicate (6 - length (show_ℕ n)) b'0' in
    let filled =
      is_empty-length (zeros ++ show_ℕ n)
        (omega (arith, length-append zeros (show_ℕ n), is_empty-show_ℕ n)) in
    let digits =
      all_digits-zeros (6 - length (show_ℕ n)) (show_ℕ n)
        (all_digits-digits_onto (suc n) n [] refl) in
    rw (filled, digits)
      (parse_onto-zeros (6 - length (show_ℕ n)) (show_ℕ n) ∙ parse_onto-show_ℕ n h)

-- The number of a file of the archive is read back from its name, for every 64-bit number.
pub file_seq-file_name : (seq : ℕ) → seq ≤ u64_max → file_seq (file_name seq) ≡ some seq
unfolding file_seq file_name prefix_stripped suffix_stripped
file_seq-file_name seq h =
    let rest = padded (show_ℕ seq) ++ file_suffix in
    ap prefix_stripped (strip_prefix-append file_prefix rest)
    ∙ ap suffix_stripped (strip_suffix-append file_suffix (padded (show_ℕ seq)))
    ∙ parse_digits-padded seq h
