-- ===== src/Log/Headers/Tests.antt =====
-- Lines as mihomo writes them.
use native.Mathlib.Decide.{ℕ_discrete}
use nyanpasu_service.Prelude.{ℕ, ◌≡◌, refl, false, true, Option, none, some, List, [], ◌∷◌}
use nyanpasu_service.Text.{Text, bytes}
use nyanpasu_service.Log.Frame.{LogLevel, LogField}
use nyanpasu_service.Log.Logfmt.{field, scan_logfmt}
use nyanpasu_service.Log.Logfmt.Inverse.{print_logfmt, scan_logfmt-print_logfmt}
use nyanpasu_service.Log.Logfmt.Inverse.Bare.{Shown, show_line}
use nyanpasu_service.Log.Headers.{text_discrete, is_text, parse_level, parse_mihomo}
use nyanpasu_service.Log.Headers.Fields.{parse_mihomo-show_line}

bare_values :
    scan_logfmt (bytes "level=info  msg=\"a \\\"b\\\"\"")
    ≡ some (field (bytes "level") (bytes "info") ∷ field (bytes "msg") (bytes "a \"b\"") ∷ [])
unfolding scan_logfmt
bare_values = refl

unclosed_quote : scan_logfmt (bytes "msg=\"a") ≡ none
unfolding scan_logfmt
unclosed_quote = refl

abbrev printed : List LogField
printed = field (bytes "msg") (bytes "say \"hi\"\n") ∷ field (bytes "n") [] ∷ []

scan_logfmt-print_logfmt_example : scan_logfmt (print_logfmt printed) ≡ some printed
scan_logfmt-print_logfmt_example =
    scan_logfmt-print_logfmt printed ((refl, (refl, (refl, tt))), ((refl, tt), tt))

abbrev no_time : Text → Option ℕ
no_time raw = none

abbrev lag : List Shown
lag = (false, field (bytes "lag") (bytes "9")) ∷ []

-- The level is bare, as in the logger's own lines.
written_line :
    show_line (
      (true, field (bytes "time") (bytes "t0"))
      ∷ (false, field (bytes "level") (bytes "warning"))
      ∷ (true, field (bytes "msg") (bytes "so slow"))
      ∷ lag)
    ≡ bytes "time=\"t0\" level=warning msg=\"so slow\" lag=9"
written_line = refl

parse_mihomo-show_line_example :
    parse_mihomo no_time (
      show_line (
        (true, field (bytes "time") (bytes "t0"))
        ∷ (false, field (bytes "level") (bytes "warning"))
        ∷ (true, field (bytes "msg") (bytes "so slow"))
        ∷ lag))
    ≡ some (record {
      timestamp = some (record { raw = bytes "t0"; unix_ms = none; inferred = false });
      level = LogLevel.warning;
      target = none;
      message = bytes "so slow";
      fields = field (bytes "lag") (bytes "9") ∷ [];
    })
unfolding is_text text_discrete parse_level ℕ_discrete
parse_mihomo-show_line_example =
    parse_mihomo-show_line no_time (true, bytes "t0") (false, bytes "warning")
      (true, bytes "so slow") LogLevel.warning lag (refl, (refl, (refl, (refl, tt))))
      (
        (refl, (refl, (refl, (refl, (refl, tt))))),
        (refl, refl, (refl, (refl, (refl, (refl, (refl, (refl, tt))))))),
      )
      (refl, (refl, (refl, tt))) refl
      (((((refl, (refl, (refl, tt)))), (refl, refl, tt)), tt), ((refl, refl, refl), tt))
