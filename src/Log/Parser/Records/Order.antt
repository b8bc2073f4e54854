-- ===== src/Log/Parser/Records/Order.antt =====
-- No record is lost or made twice, and none overtakes another of its stream: the frames of a run are
-- told apart by the instants of the lines that opened them.
use nyanpasu_service.Prelude.{
  ℕ, ◌+◌, ◌≡◌, refl, sym, ap, ◌∙◌, inl, inr, ◌&&◌, ◌||◌, Option, none, some, List, [], ◌∷◌, ◌++◌,
  Bool-cases, length,
}
use nyanpasu_service.Text.{Text}
use nyanpasu_service.Kind.{ClashCoreKind}
use nyanpasu_service.Log.Frame.{LogStream, Pending}
use nyanpasu_service.Log.Ansi.{strip_ansi}
use nyanpasu_service.Log.Parser.{
  ParsedLine, LogParser, flatten_frames, pending, finish, push_header, push_root, push_plain,
  push_parsed, push_stripped, push_at, push_all, collect,
}
use nyanpasu_service.Log.Parser.Records.{
  is_some, is_none, is_marked, held, pending-clock, opens_record, opened, length-collect,
}
use nyanpasu_service.Log.Parser.Records.Stamps.{
  is_of, stamps, if_opened, append_assoc, append_nil, stamps-append, held_stamps, HoldsOwn, Kept,
  finish-stamps, emit-Kept, continue-Kept, forget_clock,
}

module _ {C O : Type 0} (header : ClashCoreKind → Text → O → C → Option ParsedLine × C)
    (millis : O → ℕ) where
  -- The instants of the lines of a stream that open a record, in order.
  pub opened_stamps : LogParser C → LogStream → List (LogStream × Text × O) → List ℕ
  opened_stamps p s [] = []
  opened_stamps p s ((stream, line, at) ∷ rest) =
      if_opened (is_of s stream && opens_record header millis p stream line at) (millis at)
      ++ opened_stamps (push_at header millis p stream line at).0 s rest

  push_plain-Kept :
      (s : LogStream) (p : LogParser C) (stream : LogStream) (line : Text) (at : O)
      (o : Option Pending)
      → pending p stream ≡ o
      → HoldsOwn p
      → Kept s p stream
          (is_marked line || is_none o)
          (millis at)
          (push_plain header millis p stream line at o)
  unfolding push_plain push_root
  push_plain-Kept s p stream line at none h own = elim (Bool-cases (is_marked line)) [
    | inl root ↦ rw root (emit-Kept s p stream _ _ refl own)
    | inr bare ↦ rw bare (emit-Kept s p stream _ _ refl own)
  ]
  push_plain-Kept s p stream line at (some q) h own = elim (Bool-cases (is_marked line)) [
    | inl root ↦ rw root (emit-Kept s p stream _ _ refl own)
    | inr more ↦ rw more (continue-Kept s p stream q line (millis at) h own)
  ]

  push_parsed-Kept :
      (s : LogStream) (p : LogParser C) (stream : LogStream) (line : Text) (at : O)
      (parsed : Option ParsedLine)
      → HoldsOwn p
      → Kept s p stream
          (is_some parsed || (is_marked line || is_none (pending p stream)))
          (millis at)
          (push_parsed header millis p stream line at parsed)
  unfolding push_parsed push_header
  push_parsed-Kept s p stream line at (some parsed) own = emit-Kept s p stream _ _ refl own
  push_parsed-Kept s p stream line at none own =
      push_plain-Kept s p stream line at (pending p stream) refl own

  push_at-Kept :
      (s : LogStream) (p : LogParser C) (stream : LogStream) (line : Text) (at : O)
      → HoldsOwn p
      → Kept s p stream
          (opens_record header millis p stream line at)
          (millis at)
          (push_at header millis p stream line at)
  unfolding push_at push_stripped opens_record
  push_at-Kept s p stream line at own =
      let (parsed, clock) = header p.kind (strip_ansi line) at p.clock in
      let kept =
        push_parsed-Kept s (record p { clock = clock }) stream (strip_ansi line) at parsed own in
      forget_clock s p clock stream _ (millis at) (push_at header millis p stream line at)
        (rw (pending-clock p clock stream) at kept)

  push_all-Kept :
      (s : LogStream) (p : LogParser C) (lines : List (LogStream × Text × O))
      → HoldsOwn p
      → (stamps s (push_all header millis p lines).1
            ++ held_stamps (push_all header millis p lines).0 s
          ≡ held_stamps p s ++ opened_stamps p s lines)
        × HoldsOwn (push_all header millis p lines).0
  unfolding push_all opened_stamps
  push_all-Kept s p [] own = (sym (append_nil (held_stamps p s)), own)
  push_all-Kept s p ((stream, line, at) ∷ rest) own =
      let (q, frames) = push_at header millis p stream line at in
      let (r, later) = push_all header millis q rest in
      let step = push_at-Kept s p stream line at own in
      let ih = push_all-Kept s q rest step.1 in
      let now =
        if_opened (is_of s stream && opens_record header millis p stream line at) (millis at) in
      (
        ap (λ l. l ++ held_stamps r s) (stamps-append s (flatten_frames frames) later)
            ∙ append_assoc (stamps s (flatten_frames frames)) (stamps s later) (held_stamps r s)
            ∙ ap (λ l. stamps s (flatten_frames frames) ++ l) ih.0
            ∙ sym (
                append_assoc (stamps s (flatten_frames frames)) (held_stamps q s)
                  (opened_stamps q s rest))
            ∙ ap (λ l. l ++ opened_stamps q s rest) step.0
            ∙ append_assoc (held_stamps p s) now (opened_stamps q s rest),
        ih.1,
      )

  -- A run loses no record and makes none twice: for each stream, its frames have just the instants
  -- of the record held for it at the start and of its lines that open a record, in the order of
  -- these lines, once `finish` has run; and there are as many frames as records held at the start
  -- and lines that open one. The held records are of the streams that they are held for, as they
  -- are from a new parser on. Where no two lines have the same instant, this tells which frame is
  -- which.
  pub collect-stamps :
      (p : LogParser C) (s : LogStream) (lines : List (LogStream × Text × O))
      → HoldsOwn p
      → (stamps s (collect header millis p lines) ≡ held_stamps p s ++ opened_stamps p s lines)
        × (length (collect header millis p lines) ≡ held p + opened header millis p lines)
  unfolding collect
  collect-stamps p s lines own =
      let (last, frames) = push_all header millis p lines in
      let all = push_all-Kept s p lines own in
      (
        stamps-append s frames (flatten_frames (finish last).1)
            ∙ ap (λ l. stamps s frames ++ l) (finish-stamps last s all.1)
            ∙ all.0,
        length-collect header millis p lines,
      )
