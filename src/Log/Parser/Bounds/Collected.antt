-- ===== src/Log/Parser/Bounds/Collected.antt =====
-- What holds of all the frames of a run.
use mathlib.Core.Path.{subst₂}
use nyanpasu_service.Prelude.{ℕ, ◌≡◌, refl, Option, none, some, List, [], ◌∷◌, All, All-append, ◌∙◌}
use nyanpasu_service.Text.{Text}
use nyanpasu_service.Kind.{ClashCoreKind}
use nyanpasu_service.Log.Frame.{LogStream, LogFrame}
use nyanpasu_service.Log.Frame.Caps.{Fits}
use nyanpasu_service.Log.Parser.{
  ParsedLine, ParsedFrames, LogParser, new_parser, flatten_frames, frame_of, finish, oldest_first,
  push_at, push_all, collect,
}
use nyanpasu_service.Log.Parser.Bounds.{
  FrameBelongs, IsWellFormed, new_parser-IsWellFormed, frame_of-belongs, push_at-Stepped,
}

abbrev pub Emitted : ℕ → ClashCoreKind → LogFrame → Type 0
Emitted epoch kind f = Fits f × (f.epoch ≡ epoch) × (f.kind ≡ kind)

flatten_frames-Emitted :
    (epoch : ℕ) (kind : ClashCoreKind) (s t : LogStream) (frames : ParsedFrames)
    → FrameBelongs epoch kind s frames.0
    → FrameBelongs epoch kind t frames.1
    → All (Emitted epoch kind) (flatten_frames frames)
flatten_frames-Emitted epoch kind s t (none, none) a b = tt
flatten_frames-Emitted epoch kind s t (some f, none) a b = ((a.fits, a.same_epoch, a.same_kind), tt)
flatten_frames-Emitted epoch kind s t (none, some g) a b = ((b.fits, b.same_epoch, b.same_kind), tt)
flatten_frames-Emitted epoch kind s t (some f, some g) a b =
    ((a.fits, a.same_epoch, a.same_kind), ((b.fits, b.same_epoch, b.same_kind), tt))

oldest_first-Emitted :
    (epoch : ℕ) (kind : ClashCoreKind) (newest : Option LogStream) (out err : Option LogFrame)
    → FrameBelongs epoch kind LogStream.stdout out
    → FrameBelongs epoch kind LogStream.stderr err
    → All (Emitted epoch kind) (flatten_frames (oldest_first newest out err))
unfolding oldest_first
oldest_first-Emitted epoch kind (some LogStream.stdout) out err a b =
    flatten_frames-Emitted epoch kind LogStream.stderr LogStream.stdout (err, out) b a
oldest_first-Emitted epoch kind (some LogStream.stderr) out err a b =
    flatten_frames-Emitted epoch kind LogStream.stdout LogStream.stderr (out, err) a b
oldest_first-Emitted epoch kind none out err a b =
    flatten_frames-Emitted epoch kind LogStream.stdout LogStream.stderr (out, err) a b

module _ {C : Type 0} where
  finish-Emitted :
      (p : LogParser C)
      → IsWellFormed p
      → All (Emitted p.epoch p.kind) (flatten_frames (finish p).1)
  unfolding finish
  finish-Emitted p w =
      oldest_first-Emitted p.epoch p.kind p.newest_pending (frame_of p.pending_stdout)
        (frame_of p.pending_stderr)
        (frame_of-belongs p.epoch p.kind LogStream.stdout p.pending_stdout w.stdout_held)
        (frame_of-belongs p.epoch p.kind LogStream.stderr p.pending_stderr w.stderr_held)

module _ {C O : Type 0} (header : ClashCoreKind → Text → O → C → Option ParsedLine × C)
    (millis : O → ℕ) where
  push_all-Emitted :
      (p : LogParser C) (lines : List (LogStream × Text × O))
      → IsWellFormed p
      → IsWellFormed (push_all header millis p lines).0
        × ((push_all header millis p lines).0.epoch ≡ p.epoch)
        × ((push_all header millis p lines).0.kind ≡ p.kind)
        × All (Emitted p.epoch p.kind) (push_all header millis p lines).1
  unfolding push_all
  push_all-Emitted p [] w = (w, refl, refl, tt)
  push_all-Emitted p ((stream, line, at) ∷ lines) w =
      let step = push_at-Stepped header millis p stream line at w in
      let ih = push_all-Emitted (push_at header millis p stream line at).0 lines step.well_formed in
      (
        ih.0,
        ih.1 ∙ step.same_epoch,
        ih.2 ∙ step.same_kind,
        All-append (Emitted p.epoch p.kind) _ _
            (flatten_frames-Emitted p.epoch p.kind stream stream _ step.first_belongs
              step.second_belongs)
            (subst₂
              (λ e k.
                All (Emitted e k)
                  (push_all header millis (push_at header millis p stream line at).0 lines).1)
              step.same_epoch step.same_kind ih.3),
      )

  -- Every frame of a run, held records included, fits every cap and carries the epoch and the kind
  -- of its parser, whatever lines arrive on the two streams and whatever their headers are.
  pub collect-Emitted :
      (kind : ClashCoreKind) (epoch : ℕ) (clock : C) (lines : List (LogStream × Text × O))
      → All (Emitted epoch kind) (collect header millis (new_parser kind epoch clock) lines)
  unfolding collect new_parser
  collect-Emitted kind epoch clock lines =
      let start = new_parser kind epoch clock in
      let run = push_all-Emitted start lines (new_parser-IsWellFormed kind epoch clock) in
      let last = (push_all header millis start lines).0 in
      All-append (Emitted epoch kind) (push_all header millis start lines).1
        (flatten_frames (finish last).1) run.3
        (subst₂ (λ e k. All (Emitted e k) (flatten_frames (finish last).1)) run.1 run.2
          (finish-Emitted last run.0))
