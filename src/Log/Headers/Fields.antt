-- ===== src/Log/Headers/Fields.antt =====
-- A logfmt line of mihomo is read as its logger meant it.
use native.Mathlib.Decide.{ℕ_discrete}
use nyanpasu_service.Prelude.{
  ℕ, ◌≡◌, refl, sym, ap, ◌∙◌, Bool, false, Option, none, some, List, [], ◌∷◌, ◌++◌, All,
}
use nyanpasu_service.Text.{Text, bytes}
use nyanpasu_service.Log.Frame.{LogLevel, LogField}
use nyanpasu_service.Log.Logfmt.{field}
use nyanpasu_service.Log.Logfmt.Inverse.Bare.{
  Shown, show_line, fields_of, IsShowable, scan_logfmt-show_line,
}
use nyanpasu_service.Log.Headers.{
  text_discrete, is_text, parse_level, Found, take_field, take_fields, parsed_line, scanned,
  parse_mihomo,
}

-- A field beside the three that the parser names.
abbrev pub IsExtra : LogField → Type 0
IsExtra f =
    (is_text f.key (bytes "time") ≡ false)
    × (is_text f.key (bytes "level") ≡ false)
    × (is_text f.key (bytes "msg") ≡ false)

append_assoc : (xs ys zs : List LogField) → (xs ++ ys) ++ zs ≡ xs ++ (ys ++ zs)
append_assoc [] ys zs = refl
append_assoc (x ∷ xs) ys zs = ap (λ l. x ∷ l) (append_assoc xs ys zs)

append_nil : (xs : List LogField) → xs ++ [] ≡ xs
append_nil [] = refl
append_nil (x ∷ xs) = ap (λ l. x ∷ l) (append_nil xs)

take_fields_extra :
    (found : Found) (fs : List LogField)
    → All IsExtra fs
    → take_fields found fs ≡ record found { fields = found.fields ++ fs }
unfolding take_fields take_field
take_fields_extra found [] h = ap (λ l. record found { fields = l }) (sym (append_nil found.fields))
take_fields_extra found (f ∷ fs) h =
    rw (h.0.0, h.0.1, h.0.2)
      (take_fields_extra (record found { fields = found.fields ++ (f ∷ []) }) fs h.1
        ∙ ap (λ l. record found { fields = l }) (append_assoc found.fields (f ∷ []) fs))

-- The fields beside the three, each with whether its value is quoted.
abbrev pub AreExtras : List Shown → Type 0
AreExtras extras = All IsShowable extras × All IsExtra (fields_of extras)

-- A line with a time, a level whose word is known and a message in this order, then further fields
-- under other keys, and a blank between fields, as mihomo's logger writes it. Each value is quoted, its quotes, backslashes,
-- line feeds, carriage returns and tabs escaped, or it is bare, if it has no blank and does not begin
-- with a quote: `time="t" level=info msg="m"` is one of these lines. The line is parsed to just
-- these: the time and the message unescaped, the level that its word stands for, and the further
-- fields in their order.
pub parse_mihomo-show_line :
    (parse_time : Text → Option ℕ) (time word message : Bool × Text) (level : LogLevel)
    (extras : List Shown)
    → IsShowable (time.0, field (bytes "time") (time.1))
    → IsShowable (word.0, field (bytes "level") (word.1))
    → IsShowable (message.0, field (bytes "msg") (message.1))
    → parse_level (word.1) ≡ some level
    → AreExtras extras
    → parse_mihomo parse_time (
        show_line (
          (time.0, field (bytes "time") (time.1))
          ∷ (word.0, field (bytes "level") (word.1))
          ∷ (message.0, field (bytes "msg") (message.1))
          ∷ extras))
      ≡ some (record {
        timestamp = some (record { raw = time.1; unix_ms = parse_time (time.1); inferred = false });
        level = level;
        target = none;
        message = message.1;
        fields = fields_of extras;
      })
unfolding parse_mihomo scanned take_fields take_field parsed_line is_text text_discrete ℕ_discrete
parse_mihomo-show_line parse_time time word message level extras t w m l h =
    let shown =
      (time.0, field (bytes "time") (time.1))
      ∷ (word.0, field (bytes "level") (word.1))
      ∷ (message.0, field (bytes "msg") (message.1))
      ∷ extras in
    let read : Found = record {
      raw_time = some (time.1);
      level = parse_level (word.1);
      message = some (message.1);
      fields = [];
    } in
    ap (scanned parse_time) (scan_logfmt-show_line shown (t, (w, (m, h.0))))
    ∙ ap (λ found. parsed_line parse_time found.fields found.raw_time found.level found.message)
        (take_fields_extra read (fields_of extras) h.1)
    ∙ ap
        (λ known.
          parsed_line parse_time (fields_of extras) (some (time.1)) known (some (message.1)))
        l
