-- ===== src/Log/Logfmt/Inverse/Bare.antt =====
-- Lines whose values are quoted or bare, as logrus writes them, are scanned back.
use nyanpasu_service.Prelude.{
  ◌≡◌, refl, sym, ap, ◌∙◌, Bool, true, false, Option, some, List, [], ◌∷◌, ◌++◌, ◌==◌, All, arith,
}
use nyanpasu_service.Text.{Text}
use nyanpasu_service.Log.Frame.{LogField}
use nyanpasu_service.Log.Logfmt.{
  is_space, quote, Mode, field, step, finish_line, with_fields, scan, scan_logfmt,
}
use nyanpasu_service.Log.Logfmt.Inverse.{
  IsKey, escape_all, append_key, append_assoc, append_nil, scan-step, scan_key, scan_value,
}

-- A field, and whether its value is quoted.
abbrev pub Shown : Type 0
Shown = Bool × LogField

abbrev pub show_value : Bool → Text → Text → Text
show_value true value rest = quote ∷ escape_all value (quote ∷ rest)
show_value false value rest = append_key value rest

abbrev pub show_field : Shown → Text → Text
show_field shown rest = append_key (shown.1).key (b'=' ∷ show_value (shown.0) (shown.1).value rest)

-- The fields with a blank between them.
abbrev pub show_line : List Shown → Text
show_line [] = []
show_line (f ∷ []) = show_field f []
show_line (f ∷ g ∷ fs) = show_field f (32 ∷ show_line (g ∷ fs))

abbrev NoSpace : Text → Type 0
NoSpace value = All (λ b. is_space b ≡ false) value

-- A value that can stand without quotes: it has no blank and does not begin with a quote.
abbrev pub IsBare : Text → Type 0
IsBare [] = Unit
IsBare (b ∷ bs) = ((b == quote) ≡ false) × (is_space b ≡ false) × NoSpace bs

abbrev pub IsShowable : Shown → Type 0
IsShowable (true, f) = IsKey f.key
IsShowable (false, f) = IsKey f.key × IsBare f.value

-- Where a scan stands behind a value.
abbrev after_value : Bool → Text → Text → Mode
after_value true key value = Mode.closed key value
after_value false key [] = Mode.at_value key
after_value false key (b ∷ bs) = Mode.bare key (b ∷ bs)

scan_bare :
    (key seen value rest : Text)
    → NoSpace value
    → scan (Mode.bare key seen) (append_key value rest) ≡ scan (Mode.bare key (seen ++ value)) rest
unfolding step
scan_bare key seen [] rest h = ap (λ v. scan (Mode.bare key v) rest) (sym (append_nil seen))
scan_bare key seen (b ∷ bs) rest h =
    scan-step (Mode.bare key seen) (Mode.bare key (seen ++ (b ∷ []))) b (append_key bs rest)
      (rw (h.0) refl)
    ∙ scan_bare key (seen ++ (b ∷ [])) bs rest h.1
    ∙ ap (λ v. scan (Mode.bare key v) rest) (append_assoc seen (b ∷ []) bs)

scan-show_value :
    (quoted : Bool) (key value rest : Text)
    → IsShowable (quoted, field key value)
    → scan (Mode.at_value key) (show_value quoted value rest)
      ≡ scan (after_value quoted key value) rest
unfolding step
scan-show_value true key value rest h =
    scan-step (Mode.at_value key) (Mode.quoted key []) quote (escape_all value (quote ∷ rest)) refl
    ∙ scan_value key [] value (quote ∷ rest)
    ∙ scan-step (Mode.quoted key value) (Mode.closed key value) quote rest refl
scan-show_value false key [] rest h = refl
scan-show_value false key (b ∷ bs) rest h =
    scan-step (Mode.at_value key) (Mode.bare key (b ∷ [])) b (append_key bs rest)
      (rw (h.1.0, h.1.1) refl)
    ∙ scan_bare key (b ∷ []) bs rest h.1.2

showable_key : (shown : Shown) → IsShowable shown → IsKey (shown.1).key
showable_key (true, f) h = h
showable_key (false, f) h = h.0

scan_equals :
    (key rest : Text)
    → IsKey key
    → scan Mode.between (append_key key (b'=' ∷ rest)) ≡ scan (Mode.at_value key) rest
unfolding step
scan_equals [] rest h = absurd h
scan_equals (b ∷ bs) rest h =
    scan-step Mode.between (Mode.key_of (b ∷ [])) b (append_key bs (b'=' ∷ rest))
      (ground (arith, h.0))
    ∙ scan_key (b ∷ []) bs rest h.1

scan-show_field :
    (shown : Shown) (rest : Text)
    → IsShowable shown
    → scan Mode.between (show_field shown rest)
      ≡ scan (after_value (shown.0) (shown.1).key (shown.1).value) rest
scan-show_field (quoted, f) rest h =
    scan_equals f.key (show_value quoted f.value rest) (showable_key (quoted, f) h)
    ∙ scan-show_value quoted f.key f.value rest h

after_last :
    (quoted : Bool) (key value : Text)
    → scan (after_value quoted key value) [] ≡ some (field key value ∷ [])
unfolding scan finish_line
after_last true key value = refl
after_last false key [] = refl
after_last false key (b ∷ bs) = refl

after_blank :
    (quoted : Bool) (key value rest : Text)
    → scan (after_value quoted key value) (32 ∷ rest)
      ≡ with_fields (field key value ∷ []) (scan Mode.between rest)
unfolding scan step
after_blank true key value rest = refl
after_blank false key [] rest = refl
after_blank false key (b ∷ bs) rest = refl

abbrev pub fields_of : List Shown → List LogField
fields_of [] = []
fields_of (shown ∷ rest) = shown.1 ∷ fields_of rest

after_nothing : scan Mode.between [] ≡ some []
unfolding scan finish_line
after_nothing = refl

with_more :
    (f : LogField) (more : List Shown) (rest : Option (List LogField))
    → rest ≡ some (fields_of more)
    → with_fields (f ∷ []) rest ≡ some (f ∷ fields_of more)
unfolding with_fields
with_more f more rest h = rw h refl

-- What is shown, its values quoted or bare, is scanned back field by field.
pub scan_logfmt-show_line :
    (shown : List Shown)
    → All IsShowable shown
    → scan_logfmt (show_line shown) ≡ some (fields_of shown)
unfolding scan_logfmt
scan_logfmt-show_line [] h = after_nothing
scan_logfmt-show_line (f ∷ []) h = scan-show_field f [] h.0 ∙ after_last (f.0) (f.1).key (f.1).value
scan_logfmt-show_line (f ∷ g ∷ fs) h =
    scan-show_field f (32 ∷ show_line (g ∷ fs)) h.0
    ∙ after_blank (f.0) (f.1).key (f.1).value (show_line (g ∷ fs))
    ∙ with_more (f.1) (g ∷ fs) (scan Mode.between (show_line (g ∷ fs)))
        (scan_logfmt-show_line (g ∷ fs) h.1)
