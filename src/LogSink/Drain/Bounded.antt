-- ===== src/LogSink/Drain/Bounded.antt =====
-- How large the archive's files become while the loop runs.
use nyanpasu_service.Prelude.{
  ℕ, ◌+◌, ◌≤◌, ◌≡◌, false, ◌<◌, Option, none, some, List, [], ◌∷◌, ◌++◌, length, length-append, All,
  All-map, arith, Bool-cases, ◌⊎◌, inl, inr,
}
use nyanpasu_service.Text.{Text}
use nyanpasu_service.LogSink.Writer.{
  Disk, LogFile, Writer, Entry, u64_mod, newest, open_writer, write,
}
use nyanpasu_service.LogSink.Writer.Bounded.{Faultless, Loading, Opened, open_writer-Within}
use nyanpasu_service.LogSink.Writer.Bounded.Batches.{IsCapped, write-Within}
use nyanpasu_service.LogSink.Drain.{
  Polled, Turn, drain, with_first, receive, turn_batch, run, run_opened, spawn,
}

module _ {ℓ} {F : Type ℓ} where
  drain-length :
      (answers : List (Polled F)) (batch : List (Entry F))
      → length (drain answers batch).0 + length (drain answers batch).2
        ≤ length answers + length batch
  unfolding drain
  drain-length [] batch = omega arith
  drain-length (Polled.frame f ∷ answers) batch = ground (
    arith,
    drain-length answers (batch ++ (Entry.log f ∷ [])),
    length-append batch (Entry.log f ∷ []),
  )
  drain-length (Polled.lagged dropped ∷ answers) batch = ground (
    arith,
    drain-length answers (batch ++ (Entry.gap dropped ∷ [])),
    length-append batch (Entry.gap dropped ∷ []),
  )
  drain-length (Polled.closed ∷ answers) batch = ground arith

  receive-length :
      (answers : List (Polled F))
      → length (receive answers).0 + length (receive answers).2 ≤ length answers
  unfolding receive with_first
  receive-length [] = omega arith
  receive-length (Polled.frame f ∷ answers) = omega (arith, drain-length answers (Entry.log f ∷ []))
  receive-length (Polled.lagged dropped ∷ answers) =
      omega (arith, drain-length answers (Entry.gap dropped ∷ []))
  receive-length (Polled.closed ∷ answers) = omega arith

  -- How many answers come into the channel.
  abbrev pub arrivals : Turn F → ℕ
  arrivals (Turn.received arrived) = length arrived
  arrivals (Turn.cancelled arrived) = length arrived

  abbrev pub answers_in : List (ℕ × Turn F) → ℕ
  answers_in [] = 0
  answers_in ((at, turn) ∷ turns) = arrivals turn + answers_in turns

  turn_batch-length :
      (unread : List (Polled F)) (turn : Turn F)
      → length (turn_batch unread turn).0 + length (turn_batch unread turn).2
        ≤ length unread + arrivals turn
  unfolding turn_batch
  turn_batch-length unread (Turn.received arrived) =
      omega (arith, receive-length (unread ++ arrived), length-append unread arrived)
  turn_batch-length unread (Turn.cancelled arrived) =
      omega (arith, drain-length (unread ++ arrived) [], length-append unread arrived)

  module _ (disk : Disk) (encode : F → Option Text) (encode_gap : ℕ → ℕ → Option Text) where
    run-Within :
        (cap max_bytes : ℕ) (w : Writer) (unread : List (Polled F)) (turns : List (ℕ × Turn F))
        → Faultless disk
        → IsCapped disk encode encode_gap cap
        → w.seq + length unread + answers_in turns < u64_mod
        → Loading (max_bytes + cap) max_bytes w []
        → Loading (max_bytes + cap) max_bytes (run disk encode encode_gap w unread turns) []
    unfolding run
    run-Within cap max_bytes w unread [] faultless capped room h = h
    run-Within cap max_bytes w unread ((at, turn) ∷ turns) faultless capped room h =
        let taken = turn_batch unread turn in
        let after = write disk encode encode_gap w at (taken.0) in
        let size = turn_batch-length unread turn in
        let (written, numbered) =
          write-Within disk encode encode_gap cap max_bytes w at (taken.0) faultless capped
            (omega (arith, room, size)) h in
        elim (Bool-cases (taken.1)) [
          | inl t ↦ rw t written
          | inr t ↦ rw t (
              run-Within cap max_bytes after (taken.2) turns faultless capped
                (omega (arith, room, size, numbered)) written)
        ]

    -- What is owed for an archive: it could not list its directory, or no file is too long.
    abbrev pub Archived : ℕ → Option Writer → Type 0
    Archived limit none = disk.read_dir 0 ≡ false
    Archived limit (some w) = All (λ f. length f.content ≤ limit) w.files

    run_opened-Archived :
        (cap max_bytes number : ℕ) (w : Option Writer) (turns : List (ℕ × Turn F))
        → Faultless disk
        → IsCapped disk encode encode_gap cap
        → number + answers_in turns < u64_mod
        → (w ≡ none) × (disk.read_dir 0 ≡ false) ⊎ Opened (max_bytes + cap) max_bytes number w
        → Archived (max_bytes + cap) (run_opened disk encode encode_gap w turns)
    unfolding run_opened
    run_opened-Archived cap max_bytes number none turns faultless capped room (inl h) = h.1
    run_opened-Archived cap max_bytes number none turns faultless capped room (inr h) = absurd h
    run_opened-Archived cap max_bytes number (some w) turns faultless capped room (inl h) = cc
    run_opened-Archived cap max_bytes number (some w) turns faultless capped room (inr h) =
        All-map (λ f k. k.2) (run disk encode encode_gap w [] turns).files
          (run-Within cap max_bytes w [] turns faultless capped (omega (arith, room, h.1)) h.0).0

    -- Where no write fails and every file that is asked for is created, no file of the archive ever
    -- has more bytes than the limit and one record, `cap` being a bound on a record, if none has to
    -- begin with; listings and removals may fail, and the archive opens unless its first listing
    -- does. The file numbers must not run out of 64 bits: the largest in the directory, one
    -- more, and one for each answer of the channel add up to less than 2 ^ 64.
    pub spawn-Archived :
        (cap max_bytes max_files : ℕ) (files : List LogFile) (turns : List (ℕ × Turn F))
        → Faultless disk
        → IsCapped disk encode encode_gap cap
        → newest files + 1 + answers_in turns < u64_mod
        → All (λ f. length f.content ≤ max_bytes + cap) files
        → Archived (max_bytes + cap) (spawn disk encode encode_gap files max_bytes max_files turns)
    unfolding spawn
    spawn-Archived cap max_bytes max_files files turns faultless capped room h =
        run_opened-Archived cap max_bytes (newest files + 1)
          (open_writer disk files max_bytes max_files) turns faultless capped room
          (open_writer-Within disk (max_bytes + cap) max_bytes max_files files faultless
            (omega (arith, room)) h)
