-- ===== src/LogSink/Writer/Active.antt =====
-- The active file is never pruned.
use nyanpasu_service.Prelude.{
  ℕ, ◌+◌, ◌-◌, ◌≡◌, refl, ◌∙◌, Bool, true, false, Option, none, some, List, [], ◌∷◌, ◌++◌, leb,
  ◌==◌, length, take, map, arith, Bool-cases, inl, inr,
}
use nyanpasu_service.Text.{Text}
use nyanpasu_service.LogSink.Retention.{prune_targets}
use nyanpasu_service.LogSink.Writer.{
  Disk, LogFile, Writer, Entry, append_to, remove_from, has_file, created_in, is_protected, removed,
  remove_targets, prune_dir, rolled_over, rotate, appended, flush_pending, number_after, make_room,
  encoded, line_of, write_entries, write,
}

-- The active file is there.
abbrev pub HasActive : Writer → Type 0
HasActive w = has_file w.seq w.files ≡ true

append_to-has_file :
    (seq : ℕ) (text : Text) (s : ℕ) (fs : List LogFile)
    → has_file s (append_to seq text fs) ≡ has_file s fs
unfolding has_file append_to
append_to-has_file seq text s [] = refl
append_to-has_file seq text s (f ∷ fs) = elim (Bool-cases (f.seq == seq)) [
  | inl t ↦ simp (t, append_to-has_file seq text s fs) refl
  | inr t ↦ simp (t, append_to-has_file seq text s fs) refl
]

remove_from-has_file :
    (seq s : ℕ) (fs : List LogFile)
    → (s == seq) ≡ false
    → has_file s (remove_from seq fs) ≡ has_file s fs
unfolding has_file remove_from
remove_from-has_file seq s [] h = refl
remove_from-has_file seq s (f ∷ fs) h = elim (Bool-cases (f.seq == seq)) [
  | inl t ↦
      let other : (f.seq == s) ≡ false = ground (arith, t, h) in
      simp (t, other, remove_from-has_file seq s fs h) refl
  | inr t ↦ simp (t, remove_from-has_file seq s fs h) refl
]

created_in-has_file : (seq : ℕ) (fs : List LogFile) → has_file seq (created_in seq fs) ≡ true
unfolding created_in has_file
created_in-has_file seq fs = elim (Bool-cases (has_file seq fs)) [
  | inl t ↦ rw t t
  | inr t ↦ rw t (ground arith)
]

module _ (disk : Disk) where
  removed-HasActive :
      (w : Writer) (seq : ℕ) (done : Bool)
      → (w.seq == seq) ≡ false
      → HasActive w
      → HasActive (removed disk w seq done)
  unfolding removed
  removed-HasActive w seq true other h = remove_from-has_file seq w.seq w.files other ∙ h
  removed-HasActive w seq false other h = h

  removed-seq : (w : Writer) (seq : ℕ) (done : Bool) → (removed disk w seq done).seq ≡ w.seq
  unfolding removed
  removed-seq w seq true = refl
  removed-seq w seq false = refl

  remove_targets-HasActive :
      (w : Writer) (protect : ℕ) (seqs : List ℕ)
      → protect ≡ w.seq
      → HasActive w
      → HasActive (remove_targets disk w (some protect) seqs)
  unfolding remove_targets is_protected
  remove_targets-HasActive w protect [] p h = h
  remove_targets-HasActive w protect (seq ∷ seqs) p h = elim (Bool-cases (protect == seq)) [
    | inl t ↦ rw t (remove_targets-HasActive w protect seqs p h)
    | inr t ↦
        let after = removed disk w seq (disk.remove w.calls) in
        rw t (
          remove_targets-HasActive after protect seqs
            (p ∙ cc (removed-seq w seq (disk.remove w.calls)))
            (removed-HasActive w seq (disk.remove w.calls) (ground (arith, t, p)) h))
  ]

  prune_dir-HasActive :
      (w : Writer) (keep protect : ℕ)
      → protect ≡ w.seq
      → HasActive w
      → HasActive (prune_dir disk w keep (some protect))
  unfolding prune_dir
  prune_dir-HasActive w keep protect p h = elim (Bool-cases (disk.read_dir w.calls)) [
    | inl t ↦ rw t (
        remove_targets-HasActive (record w { calls = w.calls + 1 }) protect
          (prune_targets (map (λ f. f.seq) w.files) keep) p h)
    | inr t ↦ rw t h
  ]

  rolled_over-HasActive :
      (w : Writer) (seq : ℕ) (created : Bool)
      → HasActive w
      → HasActive (rolled_over disk w seq created)
  unfolding rolled_over
  rolled_over-HasActive w seq true h =
      prune_dir-HasActive
        (record w { files = created_in seq w.files; seq = seq; written = 0; calls = w.calls + 1 })
        w.max_files seq refl (created_in-has_file seq w.files)
  rolled_over-HasActive w seq false h = h

  appended-HasActive :
      (w : Writer) (buffer : Text) (part : Option ℕ)
      → HasActive w
      → HasActive (appended disk w buffer part)
  unfolding appended
  appended-HasActive w buffer none h = append_to-has_file w.seq buffer w.seq w.files ∙ h
  appended-HasActive w buffer (some part) h =
      append_to-has_file w.seq (take part buffer) w.seq w.files ∙ h

  flush_pending-HasActive :
      (w : Writer) (buffer : Text) → HasActive w → HasActive (flush_pending disk w buffer)
  unfolding flush_pending
  flush_pending-HasActive w [] h = h
  flush_pending-HasActive w (b ∷ bs) h = appended-HasActive w (b ∷ bs) (disk.write w.calls) h

  make_room-HasActive :
      (w : Writer) (buffer : Text) → HasActive w → HasActive ((make_room disk w buffer).0)
  unfolding make_room rotate
  make_room-HasActive w buffer h = elim (Bool-cases (leb w.max_bytes (w.written + length buffer))) [
    | inl t ↦
        let flushed = flush_pending disk w buffer in
        let pruned = prune_dir disk flushed (flushed.max_files - 1) (some flushed.seq) in
        rw t (
          rolled_over-HasActive pruned (number_after flushed.seq) (disk.create pruned.calls) (
            prune_dir-HasActive flushed (flushed.max_files - 1) flushed.seq refl
              (flush_pending-HasActive w buffer h)))
    | inr t ↦ rw t h
  ]

  module _ {ℓ} {F : Type ℓ} (encode : F → Option Text) (encode_gap : ℕ → ℕ → Option Text) where
    write_entries-HasActive :
        (w : Writer) (buffer : Text) (at : ℕ) (batch : List (Entry F))
        → HasActive w
        → HasActive (write_entries disk encode encode_gap w buffer at batch)
    unfolding write_entries
    write_entries-HasActive w buffer at [] h = flush_pending-HasActive w buffer h
    write_entries-HasActive w buffer at (e ∷ es) h =
        let (roomy, rest) = make_room disk w buffer in
        write_entries-HasActive roomy
          (rest ++ line_of disk encode encode_gap (encoded disk encode encode_gap at e)) at es
          (make_room-HasActive w buffer h)

    -- A write never prunes the file it writes to: where the active file is in the directory, the
    -- active file is in the directory behind any batch, whichever calls of the file system fail,
    -- and however few files are to be kept.
    pub write-HasActive :
        (w : Writer) (at : ℕ) (batch : List (Entry F))
        → HasActive w
        → HasActive (write disk encode encode_gap w at batch)
    unfolding write
    write-HasActive w at batch h = write_entries-HasActive w [] at batch h
