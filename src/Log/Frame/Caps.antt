-- ===== src/Log/Frame/Caps.antt =====
-- The caps that every frame leaving the parser respects, and what an unset `truncated` flag means.
use nyanpasu_service.Prelude.{
  ℕ, suc, ◌+◌, ◌≤◌, ◌≡◌, ◌≢◌, refl, inl, inr, true, false, Option, none, some, List, [], ◌∷◌, ◌++◌,
  arith, ltb, if◌then◌else◌, Bool-cases, length, take, length-take, All, ap, ◌∙◌,
}
use nyanpasu_service.Text.{Text, newline}
use nyanpasu_service.Text.Boundary.{
  length-truncate_text-le, truncate_text_uncut, length-append_bounded-le, append_bounded_uncut,
}
use nyanpasu_service.Log.Frame.{
  LogFrame, LogField, LogTimestamp, Pending, append, bound_frame, bound_target, bound_timestamp,
  bound_fields, max_continuation_lines, max_log_text_bytes, max_log_target_bytes,
  max_log_timestamp_raw_bytes, max_log_fields, max_log_field_text_bytes,
}

abbrev pub TargetFits : Option Text → Type 0
TargetFits none = Unit
TargetFits (some target) = length target ≤ max_log_target_bytes

abbrev pub TimestampFits : Option LogTimestamp → Type 0
TimestampFits none = Unit
TimestampFits (some stamp) = length stamp.raw ≤ max_log_timestamp_raw_bytes

abbrev pub FieldFits : LogField → Type 0
FieldFits f =
    (length f.key ≤ max_log_field_text_bytes) × (length f.value ≤ max_log_field_text_bytes)

pub record Fits (f : LogFrame) : Type 0 where
  pub message_fits : length f.message ≤ max_log_text_bytes
  pub raw_fits : length f.raw ≤ max_log_text_bytes
  pub target_fits : TargetFits f.target
  pub timestamp_fits : TimestampFits f.timestamp
  pub fields_fit : length f.fields ≤ max_log_fields
  pub each_field_fits : All FieldFits f.fields

bound_target-fits : (t : Option Text) → TargetFits (bound_target t).0
unfolding bound_target
bound_target-fits none = tt
bound_target-fits (some t) = length-truncate_text-le t max_log_target_bytes

bound_timestamp-fits : (t : Option LogTimestamp) → TimestampFits (bound_timestamp t).0
unfolding bound_timestamp
bound_timestamp-fits none = tt
bound_timestamp-fits (some t) = length-truncate_text-le t.raw max_log_timestamp_raw_bytes

bound_fields-fits : (fs : List LogField) → All FieldFits (bound_fields fs).0
unfolding bound_fields
bound_fields-fits [] = tt
bound_fields-fits (f ∷ fs) = (
  (
    length-truncate_text-le f.key max_log_field_text_bytes,
    length-truncate_text-le f.value max_log_field_text_bytes,
  ),
  bound_fields-fits fs,
)

length-bound_fields : (fs : List LogField) → length (bound_fields fs).0 ≡ length fs
unfolding bound_fields
length-bound_fields [] = refl
length-bound_fields (f ∷ fs) = ap suc (length-bound_fields fs)

length-first_fields :
    (m : ℕ) (fs : List LogField) → length (if ltb m (length fs) then take m fs else fs) ≤ m
length-first_fields m fs = ground (arith, length-take m fs)

-- Whatever the parser read, a bounded frame is within every cap.
pub bound_frame-Fits : (f : LogFrame) → Fits (bound_frame f)
unfolding bound_frame
bound_frame-Fits f = record {
  message_fits = length-truncate_text-le f.message max_log_text_bytes;
  raw_fits = length-truncate_text-le f.raw max_log_text_bytes;
  target_fits = bound_target-fits f.target;
  timestamp_fits = bound_timestamp-fits f.timestamp;
  fields_fit = rw length-bound_fields (length-first_fields max_log_fields f.fields);
  each_field_fits = bound_fields-fits _;
}

-- A continuation line keeps the held frame within every cap.
pub append-Fits : (p : Pending) (line : Text) → Fits p.frame → Fits (append p line).frame
unfolding append
append-Fits p line h = ground (
  arith,
  length-append_bounded-le p.frame.raw line max_log_text_bytes,
  length-append_bounded-le p.frame.message line max_log_text_bytes,
)

bound_target_uncut : (t : Option Text) → (bound_target t).1 ≡ false → (bound_target t).0 ≡ t
unfolding bound_target
bound_target_uncut none h = refl
bound_target_uncut (some t) h = ap some (truncate_text_uncut t max_log_target_bytes h)

bound_timestamp_uncut :
    (t : Option LogTimestamp) → (bound_timestamp t).1 ≡ false → (bound_timestamp t).0 ≡ t
unfolding bound_timestamp
bound_timestamp_uncut none h = refl
bound_timestamp_uncut (some t) h =
    ap (λ r. some (record t { raw = r })) (truncate_text_uncut t.raw max_log_timestamp_raw_bytes h)

bound_fields_uncut : (fs : List LogField) → (bound_fields fs).1 ≡ false → (bound_fields fs).0 ≡ fs
unfolding bound_fields
bound_fields_uncut [] h = refl
bound_fields_uncut (f ∷ fs) h = ground (
  arith,
  bound_fields_uncut fs,
  truncate_text_uncut f.key max_log_field_text_bytes,
  truncate_text_uncut f.value max_log_field_text_bytes,
)

-- A frame whose `truncated` flag is unset after bounding is exactly what the parser read.
pub bound_frame_uncut : (f : LogFrame) → (bound_frame f).truncated ≡ false → bound_frame f ≡ f
unfolding bound_frame
bound_frame_uncut f h = ground (
  arith,
  truncate_text_uncut f.message max_log_text_bytes,
  truncate_text_uncut f.raw max_log_text_bytes,
  bound_target_uncut f.target,
  bound_timestamp_uncut f.timestamp,
  bound_fields_uncut f.fields,
)

-- The continuation lines of a held record, in order.
unfoldable pub append_all : Pending → List Text → Pending
append_all p [] = p
append_all p (line ∷ lines) = append_all (append p line) lines

abbrev pub continued : Text → List Text → Text
continued text [] = text
continued text (line ∷ lines) = continued (text ++ newline ∷ line) lines

append_flag :
    (p : Pending) (line : Text) → p.frame.truncated ≡ true → (append p line).frame.truncated ≡ true
unfolding append
append_flag p line h = ground arith

append_all_flag :
    (p : Pending) (lines : List Text)
    → p.frame.truncated ≡ true
    → (append_all p lines).frame.truncated ≡ true
unfolding append_all
append_all_flag p [] h = h
append_all_flag p (line ∷ lines) h = append_all_flag (append p line) lines (append_flag p line h)

append_uncut :
    (p : Pending) (line : Text)
    → (append p line).frame.truncated ≡ false
    → ((append p line).frame.raw ≡ p.frame.raw ++ newline ∷ line)
      × ((append p line).frame.message ≡ p.frame.message ++ newline ∷ line)
      × ((append p line).continuations ≡ p.continuations + 1)
      × (p.continuations ≢ max_continuation_lines)
unfolding append
append_uncut p line h = ground (
  arith,
  append_bounded_uncut p.frame.raw line max_log_text_bytes,
  append_bounded_uncut p.frame.message line max_log_text_bytes,
)

-- A held record whose `truncated` flag is unset after any number of continuation lines holds all
-- of them: `raw` and `message` are the root's followed by every line behind its newline, and there
-- were at most sixteen lines, counted from where the record stood.
pub append_all_uncut :
    (p : Pending) (lines : List Text)
    → p.continuations ≤ max_continuation_lines
    → (append_all p lines).frame.truncated ≡ false
    → ((append_all p lines).frame.raw ≡ continued p.frame.raw lines)
      × ((append_all p lines).frame.message ≡ continued p.frame.message lines)
      × (p.continuations + length lines ≤ max_continuation_lines)
unfolding append_all
append_all_uncut p [] c h = (refl, refl, omega arith)
append_all_uncut p (line ∷ lines) c h = elim (Bool-cases (append p line).frame.truncated) [
  | inl cut ↦ cc (append_all_flag (append p line) lines cut)
  | inr whole ↦
      let step = append_uncut p line whole in
      let ih = append_all_uncut (append p line) lines (omega (arith, step.2, step.3)) h in
      (
        ih.0 ∙ ap (λ t. continued t lines) step.0,
        ih.1 ∙ ap (λ t. continued t lines) step.1,
        omega (arith, ih.2, step.2),
      )
]

-- What bounding and appending leave alone.
pub bound_frame_keeps :
    (f : LogFrame)
    → ((bound_frame f).epoch ≡ f.epoch)
      × ((bound_frame f).kind ≡ f.kind)
      × ((bound_frame f).stream ≡ f.stream)
      × ((bound_frame f).level ≡ f.level)
      × ((bound_frame f).at ≡ f.at)
unfolding bound_frame
bound_frame_keeps f = (refl, refl, refl, refl, refl)

pub append_at : (p : Pending) (line : Text) → (append p line).frame.at ≡ p.frame.at
unfolding append
append_at p line = ground arith

pub append_keeps :
    (p : Pending) (line : Text)
    → ((append p line).frame.epoch ≡ p.frame.epoch)
      × ((append p line).frame.kind ≡ p.frame.kind)
      × ((append p line).frame.stream ≡ p.frame.stream)
      × (p.continuations ≤ max_continuation_lines
          → (append p line).continuations ≤ max_continuation_lines)
unfolding append
append_keeps p line = ground arith
