-- ===== src/LogSink/Writer/Bounded/Batches.antt =====
-- No batch lets a file of the archive grow more than a record past its limit.
use nyanpasu_service.Prelude.{
  ℕ, ◌+◌, ◌≤◌, ◌<◌, ◌≡◌, refl, ◌∙◌, Option, List, [], ◌∷◌, ◌++◌, leb, length, length-append, arith,
  Bool-cases, inl, inr,
}
use nyanpasu_service.Text.{Text}
use nyanpasu_service.LogSink.Writer.{
  Disk, Writer, Entry, appended, flush_pending, u64_mod, make_room, encoded, line_of, write_entries,
  write,
}
use nyanpasu_service.LogSink.Writer.Bounded.{
  Faultless, IsWithin, Loading, append_to-Within, rotate-Within,
}

module _ (disk : Disk) where
  flush_pending-Loading :
      (limit max_bytes : ℕ) (w : Writer) (buffer : Text)
      → Faultless disk
      → Loading limit max_bytes w buffer
      → Loading limit max_bytes (flush_pending disk w buffer) []
  unfolding flush_pending appended
  flush_pending-Loading limit max_bytes w [] faultless h = h
  flush_pending-Loading limit max_bytes w (b ∷ bs) faultless h =
      simp (faultless.0 w.calls)
        (append_to-Within limit w.seq w.written (b ∷ bs) w.files h.2 h.0, h.1, omega (arith, h.2))

  flush_pending-seq : (w : Writer) (buffer : Text) → (flush_pending disk w buffer).seq ≡ w.seq
  unfolding flush_pending appended
  flush_pending-seq w [] = refl
  flush_pending-seq w (b ∷ bs) = ground arith

  -- Behind the rotation there is room for a record.
  make_room-Loading :
      (limit max_bytes : ℕ) (w : Writer) (buffer : Text)
      → Faultless disk
      → w.seq + 1 < u64_mod
      → Loading limit max_bytes w buffer
      → let (after, rest) = make_room disk w buffer in
        IsWithin limit after
        × (after.max_bytes ≡ max_bytes)
        × (after.written + length rest ≤ max_bytes)
        × (after.seq ≤ w.seq + 1)
  unfolding make_room
  make_room-Loading limit max_bytes w buffer faultless number h =
      elim (Bool-cases (leb w.max_bytes (w.written + length buffer))) [
        | inl t ↦
            let flushed = flush_pending-Loading limit max_bytes w buffer faultless h in
            let same = flush_pending-seq w buffer in
            let rolled =
              rotate-Within disk limit (flush_pending disk w buffer) faultless
                (omega (arith, number, same)) flushed.0 in
            rw t (
              rolled.0,
              rolled.2 ∙ flushed.1,
              omega (arith, rolled.1),
              omega (arith, rolled.3, same),
            )
        | inr t ↦ rw t (h.0, h.1, ground (arith, t, h.1), omega arith)
      ]

  module _ {ℓ} {F : Type ℓ} (encode : F → Option Text) (encode_gap : ℕ → ℕ → Option Text) where
    -- Every record, with its line break, has at most so many bytes.
    abbrev pub IsCapped : ℕ → Type ℓ
    IsCapped cap =
        (at : ℕ) (e : Entry F)
        → length (line_of disk encode encode_gap (encoded disk encode encode_gap at e)) ≤ cap

    -- A record begins at most one new file.
    write_entries-Within :
        (cap max_bytes : ℕ) (w : Writer) (buffer : Text) (at : ℕ) (batch : List (Entry F))
        → Faultless disk
        → IsCapped cap
        → w.seq + length batch < u64_mod
        → Loading (max_bytes + cap) max_bytes w buffer
        → Loading
            (max_bytes + cap)
            max_bytes
            (write_entries disk encode encode_gap w buffer at batch)
            []
          × ((write_entries disk encode encode_gap w buffer at batch).seq ≤ w.seq + length batch)
    unfolding write_entries
    write_entries-Within cap max_bytes w buffer at [] faultless capped number h = (
      flush_pending-Loading (max_bytes + cap) max_bytes w buffer faultless h,
      omega (arith, flush_pending-seq w buffer),
    )
    write_entries-Within cap max_bytes w buffer at (e ∷ es) faultless capped number h =
        let (roomy, rest) = make_room disk w buffer in
        let line = line_of disk encode encode_gap (encoded disk encode encode_gap at e) in
        let room =
          make_room-Loading (max_bytes + cap) max_bytes w buffer faultless (omega (arith, number))
            h in
        let written =
          write_entries-Within cap max_bytes roomy (rest ++ line) at es faultless capped
            (omega (arith, number, room.3))
            (room.0, room.1, omega (arith, length-append rest line, capped at e, room.2)) in
        (written.0, omega (arith, written.1, room.3))

    -- Any batch, from the state between batches.
    pub write-Within :
        (cap max_bytes : ℕ) (w : Writer) (at : ℕ) (batch : List (Entry F))
        → Faultless disk
        → IsCapped cap
        → w.seq + length batch < u64_mod
        → Loading (max_bytes + cap) max_bytes w []
        → Loading (max_bytes + cap) max_bytes (write disk encode encode_gap w at batch) []
          × ((write disk encode encode_gap w at batch).seq ≤ w.seq + length batch)
    unfolding write
    write-Within cap max_bytes w at batch = write_entries-Within cap max_bytes w [] at batch
