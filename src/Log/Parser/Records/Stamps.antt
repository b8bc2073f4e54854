-- ===== src/Log/Parser/Records/Stamps.antt =====
-- The instants of the lines that opened a stream's records, and what a step does with them.
use nyanpasu_service.Prelude.{
  ℕ, ◌≡◌, refl, sym, ap, ◌∙◌, inl, inr, Bool, true, false, ◌&&◌, Option, none, some, List, [], ◌∷◌,
  ◌++◌, if◌then◌else◌, arith, Bool-cases,
}
use nyanpasu_service.Text.{Text}
use nyanpasu_service.Log.Frame.{LogStream, LogFrame, Pending, append, bound_frame}
use nyanpasu_service.Log.Frame.Caps.{bound_frame_keeps, append_keeps, append_at}
use nyanpasu_service.Log.Parser.{
  ParsedFrames, LogParser, flatten_frames, pending, set_pending, emit, finish, oldest_first,
}

abbrev pub is_of : LogStream → LogStream → Bool
is_of LogStream.stdout LogStream.stdout = true
is_of LogStream.stdout LogStream.stderr = false
is_of LogStream.stderr LogStream.stdout = false
is_of LogStream.stderr LogStream.stderr = true

-- The instants of a stream's frames, in order.
abbrev pub stamps : LogStream → List LogFrame → List ℕ
stamps s [] = []
stamps s (f ∷ fs) = let rest = stamps s fs in if is_of s f.stream then f.at ∷ rest else rest

abbrev pub stamps_of : Option Pending → List ℕ
stamps_of none = []
stamps_of (some q) = q.frame.at ∷ []

abbrev pub if_opened : Bool → ℕ → List ℕ
if_opened true at = at ∷ []
if_opened false at = []

abbrev pub IsOwn : LogStream → Option Pending → Type 0
IsOwn s none = Unit
IsOwn s (some q) = q.frame.stream ≡ s

pub append_assoc : (xs ys zs : List ℕ) → (xs ++ ys) ++ zs ≡ xs ++ (ys ++ zs)
append_assoc [] ys zs = refl
append_assoc (x ∷ xs) ys zs = ap (λ l. x ∷ l) (append_assoc xs ys zs)

pub append_nil : (xs : List ℕ) → xs ++ [] ≡ xs
append_nil [] = refl
append_nil (x ∷ xs) = ap (λ l. x ∷ l) (append_nil xs)

pub stamps-append :
    (s : LogStream) (fs gs : List LogFrame) → stamps s (fs ++ gs) ≡ stamps s fs ++ stamps s gs
stamps-append s [] gs = refl
stamps-append s (f ∷ fs) gs = elim (Bool-cases (is_of s f.stream)) [
  | inl t ↦ rw t (ap (λ l. f.at ∷ l) (stamps-append s fs gs))
  | inr t ↦ rw t (stamps-append s fs gs)
]

module _ {C : Type 0} where
  abbrev pub held_stamps : LogParser C → LogStream → List ℕ
  held_stamps p s = stamps_of (pending p s)

  -- A held record is of the stream that it is held for.
  abbrev pub HoldsOwn : LogParser C → Type 0
  HoldsOwn p = IsOwn LogStream.stdout p.pending_stdout × IsOwn LogStream.stderr p.pending_stderr

  -- What a step for a line owes to a stream: what leaves and what is held then are what was held
  -- before, and behind it the line's instant, if it opened a record of the stream.
  abbrev pub Kept :
      LogStream → LogParser C → LogStream → Bool → ℕ → LogParser C × ParsedFrames → Type 0
  Kept s p stream opens at r =
      (stamps s (flatten_frames (r.1)) ++ held_stamps (r.0) s
        ≡ held_stamps p s ++ if_opened (is_of s stream && opens) at)
      × HoldsOwn (r.0)

  emit-stamps :
      (p : LogParser C) (s stream : LogStream) (f : LogFrame) (hold : Bool)
      → f.stream ≡ stream
      → HoldsOwn p
      → stamps s (flatten_frames (emit p stream f hold).1) ++ held_stamps (emit p stream f hold).0 s
        ≡ held_stamps p s ++ if_opened (is_of s stream && true) f.at
  unfolding emit
  emit-stamps p LogStream.stdout LogStream.stdout f true h own = ground arith
  emit-stamps p LogStream.stdout LogStream.stdout f false h own = ground arith
  emit-stamps p LogStream.stdout LogStream.stderr f true h own = ground arith
  emit-stamps p LogStream.stdout LogStream.stderr f false h own = ground arith
  emit-stamps p LogStream.stderr LogStream.stdout f true h own = ground arith
  emit-stamps p LogStream.stderr LogStream.stdout f false h own = ground arith
  emit-stamps p LogStream.stderr LogStream.stderr f true h own = ground arith
  emit-stamps p LogStream.stderr LogStream.stderr f false h own = ground arith

  emit-HoldsOwn :
      (p : LogParser C) (stream : LogStream) (f : LogFrame) (hold : Bool)
      → f.stream ≡ stream
      → HoldsOwn p
      → HoldsOwn (emit p stream f hold).0
  unfolding emit
  emit-HoldsOwn p LogStream.stdout f true h own = (h, own.1)
  emit-HoldsOwn p LogStream.stdout f false h own = (tt, own.1)
  emit-HoldsOwn p LogStream.stderr f true h own = (own.0, h)
  emit-HoldsOwn p LogStream.stderr f false h own = (own.0, tt)

  pub finish-stamps :
      (p : LogParser C) (s : LogStream)
      → HoldsOwn p
      → stamps s (flatten_frames (finish p).1) ≡ held_stamps p s
  unfolding finish oldest_first
  finish-stamps p LogStream.stdout own = ground arith
  finish-stamps p LogStream.stderr own = ground arith

  continue-stamps :
      (p : LogParser C) (s stream : LogStream) (q : Pending) (line : Text)
      → pending p stream ≡ some q
      → held_stamps (set_pending p stream (some (append q line))) s ≡ held_stamps p s
  continue-stamps p LogStream.stdout LogStream.stdout q line h = ground (arith, append_at q line)
  continue-stamps p LogStream.stdout LogStream.stderr q line h = refl
  continue-stamps p LogStream.stderr LogStream.stdout q line h = refl
  continue-stamps p LogStream.stderr LogStream.stderr q line h = ground (arith, append_at q line)

  continue-HoldsOwn :
      (p : LogParser C) (stream : LogStream) (q : Pending) (line : Text)
      → pending p stream ≡ some q
      → HoldsOwn p
      → HoldsOwn (set_pending p stream (some (append q line)))
  continue-HoldsOwn p LogStream.stdout q line h own = ground (arith, append_keeps q line)
  continue-HoldsOwn p LogStream.stderr q line h own = ground (arith, append_keeps q line)

  pub emit-Kept :
      (s : LogStream) (p : LogParser C) (stream : LogStream) (f : LogFrame) (hold : Bool)
      → f.stream ≡ stream
      → HoldsOwn p
      → Kept s p stream true f.at (emit p stream (bound_frame f) hold)
  emit-Kept s p stream f hold h own =
      let same = bound_frame_keeps f in
      (
        emit-stamps p s stream (bound_frame f) hold (same.2 ∙ h) own
            ∙ ap (λ at. held_stamps p s ++ if_opened (is_of s stream && true) at) same.4,
        emit-HoldsOwn p stream (bound_frame f) hold (same.2 ∙ h) own,
      )

  -- A continuation opens nothing.
  pub continue-Kept :
      (s : LogStream) (p : LogParser C) (stream : LogStream) (q : Pending) (line : Text) (at : ℕ)
      → pending p stream ≡ some q
      → HoldsOwn p
      → Kept s p stream false at (set_pending p stream (some (append q line)), (none, none))
  continue-Kept s p stream q line at h own =
      let unopened : (is_of s stream && false) ≡ false = ground arith in
      (
        continue-stamps p s stream q line h
            ∙ sym (append_nil (held_stamps p s))
            ∙ ap (λ opens. held_stamps p s ++ if_opened opens at) (sym unopened),
        continue-HoldsOwn p stream q line h own,
      )

  -- The clock is for the header parser alone.
  pub forget_clock :
      (s : LogStream) (p : LogParser C) (clock : C) (stream : LogStream) (opens : Bool) (at : ℕ)
      (r : LogParser C × ParsedFrames)
      → Kept s (record p { clock = clock }) stream opens at r
      → Kept s p stream opens at r
  forget_clock LogStream.stdout p clock stream opens at r h = h
  forget_clock LogStream.stderr p clock stream opens at r h = h
