-- ===== src/Log/Parser/Bounds.antt =====
-- What holds of every frame that leaves the parser, and of the records that it holds.
pub mod Collected
use mathlib.Core.Path.{subst₂}
use nyanpasu_service.Prelude.{
  ℕ, ◌≤◌, ◌≡◌, refl, inl, inr, Bool, true, false, ◌||◌, Option, none, some, List, [], ◌∷◌, arith,
  All, All-append, ◌∙◌, Bool-cases,
}
use nyanpasu_service.Text.{Text, bytes, starts_with}
use nyanpasu_service.Kind.{ClashCoreKind}
use nyanpasu_service.Log.Frame.{
  LogStream, LogFrame, Pending, append, bound_frame, max_continuation_lines,
}
use nyanpasu_service.Log.Frame.Caps.{
  Fits, bound_frame-Fits, append-Fits, bound_frame_keeps, append_keeps,
}
use nyanpasu_service.Log.Ansi.{strip_ansi}
use nyanpasu_service.Log.Parser.{
  ParsedLine, ParsedFrames, LogParser, new_parser, flatten_frames, frame_of, pending, set_pending,
  emit, finish, oldest_first, push_header, push_root, push_plain, push_parsed, push_stripped,
  push_at, push_all, collect,
}

-- A frame of this epoch and kind, read from this stream, within every cap.
pub record Belongs (epoch : ℕ) (kind : ClashCoreKind) (stream : LogStream) (f : LogFrame)
    : Type 0 where
  pub fits : Fits f
  pub same_epoch : f.epoch ≡ epoch
  pub same_kind : f.kind ≡ kind
  pub same_stream : f.stream ≡ stream

abbrev pub HeldBelongs : ℕ → ClashCoreKind → LogStream → Option Pending → Type 0
HeldBelongs epoch kind stream none = Unit
HeldBelongs epoch kind stream (some p) =
    Belongs epoch kind stream p.frame × (p.continuations ≤ max_continuation_lines)

abbrev pub FrameBelongs : ℕ → ClashCoreKind → LogStream → Option LogFrame → Type 0
FrameBelongs epoch kind stream none = Unit
FrameBelongs epoch kind stream (some f) = Belongs epoch kind stream f

module _ {C : Type 0} where
  pub record IsWellFormed (p : LogParser C) : Type 0 where
    pub stdout_held : HeldBelongs p.epoch p.kind LogStream.stdout p.pending_stdout
    pub stderr_held : HeldBelongs p.epoch p.kind LogStream.stderr p.pending_stderr

  pub new_parser-IsWellFormed :
      (kind : ClashCoreKind) (epoch : ℕ) (clock : C) → IsWellFormed (new_parser kind epoch clock)
  unfolding new_parser
  new_parser-IsWellFormed kind epoch clock = record { stdout_held = tt; stderr_held = tt }

abbrev other : LogStream → LogStream
other LogStream.stdout = LogStream.stderr
other LogStream.stderr = LogStream.stdout

-- What one step does for a line of `stream`: the parser stays well formed and of its epoch and
-- kind, the record held for the other stream is untouched, and what is emitted belongs to the
-- line's stream.
pub record Stepped {C : Type 0} (p : LogParser C) (stream : LogStream)
    (r : LogParser C × ParsedFrames) : Type 0 where
  pub well_formed : IsWellFormed r.0
  pub same_epoch : r.0.epoch ≡ p.epoch
  pub same_kind : r.0.kind ≡ p.kind
  pub other_untouched : pending r.0 (other stream) ≡ pending p (other stream)
  pub first_belongs : FrameBelongs p.epoch p.kind stream r.1.0
  pub second_belongs : FrameBelongs p.epoch p.kind stream r.1.1

frame_of-belongs :
    (epoch : ℕ) (kind : ClashCoreKind) (stream : LogStream) (o : Option Pending)
    → HeldBelongs epoch kind stream o
    → FrameBelongs epoch kind stream (frame_of o)
frame_of-belongs epoch kind stream none h = tt
frame_of-belongs epoch kind stream (some p) h = h.0

append-belongs :
    (epoch : ℕ) (kind : ClashCoreKind) (stream : LogStream) (p : Pending) (line : Text)
    → HeldBelongs epoch kind stream (some p)
    → HeldBelongs epoch kind stream (some (append p line))
append-belongs epoch kind stream p line h =
    let (e, k, s, c) = append_keeps p line in
    (
      record {
        fits = append-Fits p line h.0.fits;
        same_epoch = e ∙ h.0.same_epoch;
        same_kind = k ∙ h.0.same_kind;
        same_stream = s ∙ h.0.same_stream;
      },
      c h.1,
    )

module _ {C : Type 0} where
  emit-Stepped :
      (p : LogParser C) (stream : LogStream) (f : LogFrame) (hold : Bool)
      → IsWellFormed p
      → Belongs p.epoch p.kind stream f
      → Stepped p stream (emit p stream f hold)
  unfolding emit
  emit-Stepped p LogStream.stdout f true w b = record {
    well_formed = record { stdout_held = (b, omega arith); stderr_held = w.stderr_held };
    same_epoch = refl;
    same_kind = refl;
    other_untouched = refl;
    first_belongs = frame_of-belongs p.epoch p.kind LogStream.stdout p.pending_stdout w.stdout_held;
    second_belongs = tt;
  }
  emit-Stepped p LogStream.stderr f true w b = record {
    well_formed = record { stdout_held = w.stdout_held; stderr_held = (b, omega arith) };
    same_epoch = refl;
    same_kind = refl;
    other_untouched = refl;
    first_belongs = frame_of-belongs p.epoch p.kind LogStream.stderr p.pending_stderr w.stderr_held;
    second_belongs = tt;
  }
  emit-Stepped p LogStream.stdout f false w b = record {
    well_formed = record { stdout_held = tt; stderr_held = w.stderr_held };
    same_epoch = refl;
    same_kind = refl;
    other_untouched = refl;
    first_belongs = frame_of-belongs p.epoch p.kind LogStream.stdout p.pending_stdout w.stdout_held;
    second_belongs = b;
  }
  emit-Stepped p LogStream.stderr f false w b = record {
    well_formed = record { stdout_held = w.stdout_held; stderr_held = tt };
    same_epoch = refl;
    same_kind = refl;
    other_untouched = refl;
    first_belongs = frame_of-belongs p.epoch p.kind LogStream.stderr p.pending_stderr w.stderr_held;
    second_belongs = b;
  }

  continue-Stepped :
      (p : LogParser C) (stream : LogStream) (held : Pending) (line : Text)
      → IsWellFormed p
      → HeldBelongs p.epoch p.kind stream (some held)
      → Stepped p stream (set_pending p stream (some (append held line)), (none, none))
  continue-Stepped p LogStream.stdout held line w b = record {
    well_formed = record {
      stdout_held = append-belongs p.epoch p.kind LogStream.stdout held line b;
      stderr_held = w.stderr_held;
    };
    same_epoch = refl;
    same_kind = refl;
    other_untouched = refl;
    first_belongs = tt;
    second_belongs = tt;
  }
  continue-Stepped p LogStream.stderr held line w b = record {
    well_formed = record {
      stdout_held = w.stdout_held;
      stderr_held = append-belongs p.epoch p.kind LogStream.stderr held line b;
    };
    same_epoch = refl;
    same_kind = refl;
    other_untouched = refl;
    first_belongs = tt;
    second_belongs = tt;
  }

  held_at :
      (p : LogParser C) (stream : LogStream)
      → IsWellFormed p
      → HeldBelongs p.epoch p.kind stream (pending p stream)
  held_at p LogStream.stdout w = w.stdout_held
  held_at p LogStream.stderr w = w.stderr_held

bounded-Belongs :
    (f : LogFrame) {epoch : ℕ} {kind : ClashCoreKind} {stream : LogStream}
    → f.epoch ≡ epoch
    → f.kind ≡ kind
    → f.stream ≡ stream
    → Belongs epoch kind stream (bound_frame f)
bounded-Belongs f e k s =
    let kept = bound_frame_keeps f in
    record {
      fits = bound_frame-Fits f;
      same_epoch = kept.0 ∙ e;
      same_kind = kept.1 ∙ k;
      same_stream = kept.2 ∙ s;
    }

module _ {C : Type 0} where
  -- A step looks at the clock through the header parser alone.
  forget_clock :
      (p : LogParser C) (clock : C) (stream : LogStream) (r : LogParser C × ParsedFrames)
      → Stepped (record p { clock = clock }) stream r
      → Stepped p stream r
  forget_clock p clock LogStream.stdout r s = record {
    well_formed = s.well_formed;
    same_epoch = s.same_epoch;
    same_kind = s.same_kind;
    other_untouched = s.other_untouched;
    first_belongs = s.first_belongs;
    second_belongs = s.second_belongs;
  }
  forget_clock p clock LogStream.stderr r s = record {
    well_formed = s.well_formed;
    same_epoch = s.same_epoch;
    same_kind = s.same_kind;
    other_untouched = s.other_untouched;
    first_belongs = s.first_belongs;
    second_belongs = s.second_belongs;
  }

module _ {C O : Type 0} (header : ClashCoreKind → Text → O → C → Option ParsedLine × C)
    (millis : O → ℕ) where
  push_root-Stepped :
      (p : LogParser C) (stream : LogStream) (line : Text) (at : O)
      → IsWellFormed p
      → Stepped p stream (push_root header millis p stream line at)
  unfolding push_root
  push_root-Stepped p stream line at w =
      emit-Stepped p stream _ _ w (bounded-Belongs _ refl refl refl)

  push_plain-Stepped :
      (p : LogParser C) (stream : LogStream) (line : Text) (at : O) (held : Option Pending)
      → IsWellFormed p
      → HeldBelongs p.epoch p.kind stream held
      → Stepped p stream (push_plain header millis p stream line at held)
  unfolding push_plain
  push_plain-Stepped p stream line at none w b = push_root-Stepped p stream line at w
  push_plain-Stepped p stream line at (some held) w b =
      elim (Bool-cases (starts_with line (bytes "Error:") || starts_with line (bytes "warning:"))) [
        | inl root ↦ rw root (push_root-Stepped p stream line at w)
        | inr more ↦ rw more (continue-Stepped p stream held line w b)
      ]

  push_header-Stepped :
      (p : LogParser C) (stream : LogStream) (line : Text) (at : O) (parsed : ParsedLine)
      → IsWellFormed p
      → Stepped p stream (push_header header millis p stream line at parsed)
  unfolding push_header
  push_header-Stepped p stream line at parsed w =
      emit-Stepped p stream _ _ w (bounded-Belongs _ refl refl refl)

  push_parsed-Stepped :
      (p : LogParser C) (stream : LogStream) (line : Text) (at : O) (parsed : Option ParsedLine)
      → IsWellFormed p
      → Stepped p stream (push_parsed header millis p stream line at parsed)
  unfolding push_parsed
  push_parsed-Stepped p stream line at (some parsed) w =
      push_header-Stepped p stream line at parsed w
  push_parsed-Stepped p stream line at none w =
      push_plain-Stepped p stream line at (pending p stream) w (held_at p stream w)

  -- One line, whatever its header: the parser stays well formed and of its epoch and kind, the
  -- record held for the other stream is untouched, and what is emitted fits every cap and carries
  -- the parser's epoch, its kind and the line's stream.
  pub push_at-Stepped :
      (p : LogParser C) (stream : LogStream) (line : Text) (at : O)
      → IsWellFormed p
      → Stepped p stream (push_at header millis p stream line at)
  unfolding push_at push_stripped
  push_at-Stepped p stream line at w =
      let (parsed, clock) = header p.kind (strip_ansi line) at p.clock in
      forget_clock p clock stream _ (
        push_parsed-Stepped (record p { clock = clock }) stream (strip_ansi line) at parsed
          (record { stdout_held = w.stdout_held; stderr_held = w.stderr_held }))
