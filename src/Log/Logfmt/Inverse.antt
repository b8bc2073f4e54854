-- ===== src/Log/Logfmt/Inverse.antt =====
-- What a logfmt printer writes is scanned back.
pub mod Bare
use nyanpasu_service.Prelude.{
  ℕ, ◌≡◌, refl, sym, ap, ◌∙◌, Bool, true, ◌&&◌, ◌||◌, not, Option, none, some, List, [], ◌∷◌, ◌++◌,
  ◌==◌, All, if◌then◌else◌, arith, Bool-cases, inl, inr,
}
use nyanpasu_service.Text.{Text}
use nyanpasu_service.Log.Frame.{LogField}
use nyanpasu_service.Log.Logfmt.{
  is_space, quote, backslash, Mode, unescape, field, step, finish_line, with_fields, scan,
  scan_logfmt,
}

-- A printer that quotes every value, as logrus does where it has to: a quote, a backslash, a line
-- feed, a carriage return and a tab are escaped.
abbrev pub escape : ℕ → Text
escape b =
    if (b == quote) || (b == backslash)
    then backslash ∷ b ∷ []
    else if b == 10
    then backslash ∷ b'n' ∷ []
    else if b == 13
    then backslash ∷ b'r' ∷ []
    else if b == 9
    then backslash ∷ b't' ∷ []
    else b ∷ []

abbrev pub escape_all : Text → Text → Text
escape_all [] rest = rest
escape_all (b ∷ bs) rest = escape b ++ escape_all bs rest

abbrev pub append_key : Text → Text → Text
append_key [] rest = rest
append_key (b ∷ bs) rest = b ∷ append_key bs rest

abbrev pub print_logfmt : List LogField → Text
print_logfmt [] = []
print_logfmt (f ∷ fs) =
    append_key f.key (b'=' ∷ quote ∷ escape_all f.value (quote ∷ 32 ∷ print_logfmt fs))

-- A key is not empty, and has no blank and no `=`.
abbrev pub is_key_byte : ℕ → Bool
is_key_byte b = not (is_space b) && not (b == b'=')

abbrev pub IsKeyTail : Text → Type 0
IsKeyTail key = All (λ b. is_key_byte b ≡ true) key

abbrev pub IsKey : Text → Type 0
IsKey [] = ⊥
IsKey (b ∷ bs) = (is_key_byte b ≡ true) × IsKeyTail bs

append_assoc : (xs ys zs : Text) → (xs ++ ys) ++ zs ≡ xs ++ (ys ++ zs)
append_assoc [] ys zs = refl
append_assoc (x ∷ xs) ys zs = ap (λ l. x ∷ l) (append_assoc xs ys zs)

append_nil : (xs : Text) → xs ++ [] ≡ xs
append_nil [] = refl
append_nil (x ∷ xs) = ap (λ l. x ∷ l) (append_nil xs)

with_no_fields : (rest : Option (List LogField)) → with_fields [] rest ≡ rest
unfolding with_fields
with_no_fields none = refl
with_no_fields (some fields) = refl

-- A step that ends no field.
scan-step :
    (mode next : Mode) (b : ℕ) (bs : Text)
    → step mode b ≡ some (next, [])
    → scan mode (b ∷ bs) ≡ scan next bs
unfolding scan
scan-step mode next b bs h = rw (scan, h) (with_no_fields (scan next bs))

scan_key :
    (seen key rest : Text)
    → IsKeyTail key
    → scan (Mode.key_of seen) (append_key key (b'=' ∷ rest))
      ≡ scan (Mode.at_value (seen ++ key)) rest
unfolding step
scan_key seen [] rest h =
    scan-step (Mode.key_of seen) (Mode.at_value seen) b'=' rest refl
    ∙ ap (λ k. scan (Mode.at_value k) rest) (sym (append_nil seen))
scan_key seen (b ∷ bs) rest h =
    scan-step (Mode.key_of seen) (Mode.key_of (seen ++ (b ∷ []))) b (append_key bs (b'=' ∷ rest))
      (ground (arith, h.0))
    ∙ scan_key (seen ++ (b ∷ [])) bs rest h.1
    ∙ ap (λ k. scan (Mode.at_value k) rest) (append_assoc seen (b ∷ []) bs)

-- Two bytes of an escape.
scan_escape :
    (key seen : Text) (c b : ℕ) (rest : Text)
    → unescape c ≡ b ∷ []
    → scan (Mode.quoted key seen) (backslash ∷ c ∷ rest)
      ≡ scan (Mode.quoted key (seen ++ (b ∷ []))) rest
unfolding step
scan_escape key seen c b rest h =
    scan-step (Mode.quoted key seen) (Mode.escaped key seen) backslash (c ∷ rest) refl
    ∙ scan-step (Mode.escaped key seen) (Mode.quoted key (seen ++ unescape c)) c rest refl
    ∙ ap (λ u. scan (Mode.quoted key (seen ++ u)) rest) h

scan_byte :
    (key seen : Text) (b : ℕ) (rest : Text)
    → scan (Mode.quoted key seen) (escape b ++ rest)
      ≡ scan (Mode.quoted key (seen ++ (b ∷ []))) rest
unfolding step unescape
scan_byte key seen b rest = elim (Bool-cases ((b == quote) || (b == backslash))) [
  | inl t ↦ rw t (scan_escape key seen b b rest (rw t refl))
  | inr t ↦ elim (Bool-cases (b == 10)) [
    | inl u ↦ rw (t, u) (scan_escape key seen b'n' b rest (ap (λ c. c ∷ []) (ground (arith, u))))
    | inr u ↦ elim (Bool-cases (b == 13)) [
      | inl v ↦
          rw (t, u, v) (scan_escape key seen b'r' b rest (ap (λ c. c ∷ []) (ground (arith, v))))
      | inr v ↦ elim (Bool-cases (b == 9)) [
        | inl w ↦
            rw (t, u, v, w)
              (scan_escape key seen b't' b rest (ap (λ c. c ∷ []) (ground (arith, w))))
        | inr w ↦
            rw (t, u, v, w)
              (scan-step (Mode.quoted key seen) (Mode.quoted key (seen ++ (b ∷ []))) b rest
                (ground (arith, t)))
      ]
    ]
  ]
]

scan_value :
    (key seen value rest : Text)
    → scan (Mode.quoted key seen) (escape_all value rest)
      ≡ scan (Mode.quoted key (seen ++ value)) rest
scan_value key seen [] rest = ap (λ v. scan (Mode.quoted key v) rest) (sym (append_nil seen))
scan_value key seen (b ∷ bs) rest =
    scan_byte key seen b (escape_all bs rest)
    ∙ scan_value key (seen ++ (b ∷ [])) bs rest
    ∙ ap (λ v. scan (Mode.quoted key v) rest) (append_assoc seen (b ∷ []) bs)

-- The closing quote and the blank behind it.
scan_close :
    (key value rest : Text)
    → scan (Mode.quoted key value) (quote ∷ 32 ∷ rest)
      ≡ with_fields (field key value ∷ []) (scan Mode.between rest)
unfolding scan step
scan_close key value rest =
    scan-step (Mode.quoted key value) (Mode.closed key value) quote (32 ∷ rest) refl

scan-field :
    (key value rest : Text)
    → IsKey key
    → scan Mode.between (append_key key (b'=' ∷ quote ∷ escape_all value (quote ∷ 32 ∷ rest)))
      ≡ with_fields (field key value ∷ []) (scan Mode.between rest)
unfolding step
scan-field [] value rest h = absurd h
scan-field (b ∷ bs) value rest h =
    let tail = quote ∷ escape_all value (quote ∷ 32 ∷ rest) in
    scan-step Mode.between (Mode.key_of (b ∷ [])) b (append_key bs (b'=' ∷ tail))
      (ground (arith, h.0))
    ∙ scan_key (b ∷ []) bs tail h.1
    ∙ scan-step (Mode.at_value (b ∷ bs)) (Mode.quoted (b ∷ bs) []) quote
        (escape_all value (quote ∷ 32 ∷ rest)) refl
    ∙ scan_value (b ∷ bs) [] value (quote ∷ 32 ∷ rest)
    ∙ scan_close (b ∷ bs) value rest

-- A line of quoted fields is scanned back field by field, whatever bytes the values have, where every
-- key is not empty and has no blank and no equals sign.
pub scan_logfmt-print_logfmt :
    (fields : List LogField)
    → All (λ f. IsKey f.key) fields
    → scan_logfmt (print_logfmt fields) ≡ some fields
unfolding scan_logfmt scan finish_line with_fields
scan_logfmt-print_logfmt [] h = refl
scan_logfmt-print_logfmt (f ∷ fs) h =
    scan-field f.key f.value (print_logfmt fs) h.0
    ∙ ap (with_fields (f ∷ [])) (scan_logfmt-print_logfmt fs h.1)
