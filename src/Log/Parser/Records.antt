-- ===== src/Log/Parser/Records.antt =====
-- The frames of a run are counted by the lines that open a record.
pub mod Stamps
pub mod Order
use nyanpasu_service.Prelude.{
  ℕ, ◌+◌, ◌≡◌, refl, inl, inr, Bool, true, false, ◌||◌, Option, none, some, List, [], ◌∷◌, arith,
  Bool-cases, length, length-append,
}
use nyanpasu_service.Text.{Text, bytes, starts_with}
use nyanpasu_service.Kind.{ClashCoreKind}
use nyanpasu_service.Log.Frame.{LogStream, LogFrame, Pending, append}
use nyanpasu_service.Log.Ansi.{strip_ansi}
use nyanpasu_service.Log.Parser.{
  ParsedLine, LogParser, flatten_frames, pending, set_pending, emit, finish, oldest_first,
  push_header, push_root, push_plain, push_parsed, push_stripped, push_at, push_all, collect,
}

abbrev is_some {ℓ} : {A : Type ℓ} → Option A → Bool
is_some none = false
is_some (some a) = true

abbrev is_none {ℓ} : {A : Type ℓ} → Option A → Bool
is_none none = true
is_none (some a) = false

abbrev one_if : Bool → ℕ
one_if true = 1
one_if false = 0

abbrev is_marked : Text → Bool
is_marked line = starts_with line (bytes "Error:") || starts_with line (bytes "warning:")

module _ {C : Type 0} where
  abbrev pub held : LogParser C → ℕ
  held p = one_if (is_some p.pending_stdout) + one_if (is_some p.pending_stderr)

  emit-conserves :
      (p : LogParser C) (stream : LogStream) (f : LogFrame) (hold : Bool)
      → length (flatten_frames (emit p stream f hold).1) + held (emit p stream f hold).0
        ≡ held p + 1
  unfolding emit
  emit-conserves p LogStream.stdout f true = ground arith
  emit-conserves p LogStream.stdout f false = ground arith
  emit-conserves p LogStream.stderr f true = ground arith
  emit-conserves p LogStream.stderr f false = ground arith

  finish-conserves : (p : LogParser C) → length (flatten_frames (finish p).1) ≡ held p
  unfolding finish oldest_first
  finish-conserves p = ground arith

  continue-conserves :
      (p : LogParser C) (stream : LogStream) (q : Pending) (line : Text)
      → pending p stream ≡ some q
      → held (set_pending p stream (some (append q line))) ≡ held p
  continue-conserves p LogStream.stdout q line h = ground arith
  continue-conserves p LogStream.stderr q line h = ground arith

pending-clock :
    {C : Type 0} (p : LogParser C) (clock : C) (stream : LogStream)
    → pending (record p { clock = clock }) stream ≡ pending p stream
pending-clock p clock LogStream.stdout = refl
pending-clock p clock LogStream.stderr = refl

module _ {C O : Type 0} (header : ClashCoreKind → Text → O → C → Option ParsedLine × C)
    (millis : O → ℕ) where
  -- Whether a line opens a record: it has a header, or is marked as an error or a warning, or its
  -- stream holds no record that it could continue.
  pub opens_record : LogParser C → LogStream → Text → O → Bool
  opens_record p stream line at =
      is_some (header p.kind (strip_ansi line) at p.clock).0
      || (is_marked (strip_ansi line) || is_none (pending p stream))

  pub opened : LogParser C → List (LogStream × Text × O) → ℕ
  opened p [] = 0
  opened p ((stream, line, at) ∷ rest) =
      one_if (opens_record p stream line at)
      + opened (push_at header millis p stream line at).0 rest

  push_plain-conserves :
      (p : LogParser C) (stream : LogStream) (line : Text) (at : O) (o : Option Pending)
      → pending p stream ≡ o
      → length (flatten_frames (push_plain header millis p stream line at o).1)
          + held (push_plain header millis p stream line at o).0
        ≡ held p + one_if (is_marked line || is_none o)
  unfolding push_plain push_root
  push_plain-conserves p stream line at none h = elim (Bool-cases (is_marked line)) [
    | inl root ↦ rw root (emit-conserves p stream _ _)
    | inr bare ↦ rw bare (emit-conserves p stream _ _)
  ]
  push_plain-conserves p stream line at (some q) h = elim (Bool-cases (is_marked line)) [
    | inl root ↦ rw root (emit-conserves p stream _ _)
    | inr more ↦ rw more (ground (arith, continue-conserves p stream q line h))
  ]

  push_parsed-conserves :
      (p : LogParser C) (stream : LogStream) (line : Text) (at : O) (parsed : Option ParsedLine)
      → length (flatten_frames (push_parsed header millis p stream line at parsed).1)
          + held (push_parsed header millis p stream line at parsed).0
        ≡ held p + one_if (is_some parsed || (is_marked line || is_none (pending p stream)))
  unfolding push_parsed push_header
  push_parsed-conserves p stream line at (some parsed) = emit-conserves p stream _ _
  push_parsed-conserves p stream line at none =
      push_plain-conserves p stream line at (pending p stream) refl

  push_at-conserves :
      (p : LogParser C) (stream : LogStream) (line : Text) (at : O)
      → length (flatten_frames (push_at header millis p stream line at).1)
          + held (push_at header millis p stream line at).0
        ≡ held p + one_if (opens_record p stream line at)
  unfolding push_at push_stripped opens_record
  push_at-conserves p stream line at =
      let (parsed, clock) = header p.kind (strip_ansi line) at p.clock in
      rw (← pending-clock p clock stream)
        (push_parsed-conserves (record p { clock = clock }) stream (strip_ansi line) at parsed)

  push_all-conserves :
      (p : LogParser C) (lines : List (LogStream × Text × O))
      → length (push_all header millis p lines).1 + held (push_all header millis p lines).0
        ≡ held p + opened p lines
  unfolding push_all opened
  push_all-conserves p [] = omega arith
  push_all-conserves p ((stream, line, at) ∷ rest) = omega (
    arith,
    push_at-conserves p stream line at,
    push_all-conserves (push_at header millis p stream line at).0 rest,
    length-append (flatten_frames (push_at header millis p stream line at).1)
        (push_all header millis (push_at header millis p stream line at).0 rest).1,
  )

  -- A run yields as many frames as lines open a record and as records are held at its start.
  length-collect :
      (p : LogParser C) (lines : List (LogStream × Text × O))
      → length (collect header millis p lines) ≡ held p + opened p lines
  unfolding collect
  length-collect p lines =
      let last = (push_all header millis p lines).0 in
      omega (
        arith,
        push_all-conserves p lines,
        finish-conserves last,
        length-append (push_all header millis p lines).1 (flatten_frames (finish last).1),
      )
