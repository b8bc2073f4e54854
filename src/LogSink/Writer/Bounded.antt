-- ===== src/LogSink/Writer/Bounded.antt =====
-- The files of the archive and their sizes: what opening it, pruning and a rotation keep.
pub mod Batches
use nyanpasu_service.Prelude.{
  ℕ, ◌+◌, ◌-◌, ◌≤◌, ◌<◌, ◌≡◌, refl, ap, ◌∙◌, Bool, true, false, Option, none, some, List, [], ◌∷◌,
  ◌++◌, leb, ◌==◌, length, length-append, map, All, All-map, arith, Bool-cases, ◌⊎◌, inl, inr,
}
use nyanpasu_service.Text.{Text}
use nyanpasu_service.LogSink.Retention.{prune_targets}
use nyanpasu_service.LogSink.Writer.{
  Disk, LogFile, Writer, Entry, append_to, remove_from, has_file, created_in, is_protected, removed,
  remove_targets, prune_dir, rolled_over, rotate, appended, flush_pending, newest, next_seq,
  number_after, u64_mod, opened, open_writer, make_room, encoded, line_of, write_entries, write,
}

-- No write fails, and every file that is asked for is created; listings and removals may fail.
abbrev pub Faultless : Disk → Type 0
Faultless disk = ((call : ℕ) → disk.write call ≡ none) × ((call : ℕ) → disk.create call ≡ true)

-- A file is no newer than the active one, which has the length that is counted.
abbrev FileOk : ℕ → ℕ → ℕ → LogFile → Type 0
FileOk limit seq written f =
    (f.seq ≤ seq) × (f.seq ≡ seq → length f.content ≡ written) × (length f.content ≤ limit)

abbrev pub IsWithin : ℕ → Writer → Type 0
IsWithin limit w = All (FileOk limit w.seq w.written) w.files

abbrev Kept : Writer → Writer → Type 0
Kept w after = (after.written ≡ w.written) × (after.max_bytes ≡ w.max_bytes) × (after.seq ≡ w.seq)

-- What holds within a batch, a part of which is still in the buffer.
abbrev pub Loading : ℕ → ℕ → Writer → Text → Type 0
Loading limit max_bytes w buffer =
    IsWithin limit w × (w.max_bytes ≡ max_bytes) × (w.written + length buffer ≤ limit)

append_to-Within :
    (limit seq written : ℕ) (text : Text) (fs : List LogFile)
    → written + length text ≤ limit
    → All (FileOk limit seq written) fs
    → All (FileOk limit seq (written + length text)) (append_to seq text fs)
unfolding append_to
append_to-Within limit seq written text [] r h = tt
append_to-Within limit seq written text (f ∷ fs) r h =
    let rest = append_to-Within limit seq written text fs r h.1 in
    elim (Bool-cases (f.seq == seq)) [
      | inl t ↦
          let whole : length (f.content ++ text) ≡ written + length text =
            length-append f.content text ∙ ap (λ n. n + length text) (h.0.1 (ground arith)) in
          simp t ((h.0.0, (λ e. whole), omega (arith, whole)), rest)
      | inr t ↦ simp t ((h.0.0, (λ e. absurd (ground (arith, e, t))), h.0.2), rest)
    ]

remove_from-All :
    (P : LogFile → Type 0) (seq : ℕ) (fs : List LogFile) → All P fs → All P (remove_from seq fs)
unfolding remove_from
remove_from-All P seq [] h = tt
remove_from-All P seq (f ∷ fs) h = elim (Bool-cases (f.seq == seq)) [
  | inl t ↦ simp t (remove_from-All P seq fs h.1)
  | inr t ↦ simp t (h.0, remove_from-All P seq fs h.1)
]

-- No file is newer than the next one.
created_in-Within :
    (limit seq written : ℕ) (fs : List LogFile)
    → All (FileOk limit seq written) fs
    → All (FileOk limit (seq + 1) 0) (created_in (seq + 1) fs)
unfolding created_in
created_in-Within limit seq written fs h =
    let older =
      All-map {P = FileOk limit seq written} {Q = FileOk limit (seq + 1) 0}
        (λ f k. (omega (arith, k.0), (λ e. absurd (omega (arith, k.0, e))), k.2)) fs h in
    elim (Bool-cases (has_file (seq + 1) fs)) [
      | inl t ↦ rw t older
      | inr t ↦ rw t ((omega arith, (λ e. refl), omega arith), older)
    ]

All-both :
    (P Q : LogFile → Type 0) (fs : List LogFile) → All P fs → All Q fs → All (λ f. P f × Q f) fs
All-both P Q [] h k = tt
All-both P Q (f ∷ fs) h k = ((h.0, k.0), All-both P Q fs h.1 k.1)

newest_bound : (fs : List LogFile) → All (λ f. f.seq ≤ newest fs) fs
unfolding newest
newest_bound [] = tt
newest_bound (f ∷ fs) = (ground arith, All-map (λ g k. ground (arith, k)) fs (newest_bound fs))

newest-Within :
    (limit : ℕ) (fs : List LogFile)
    → All (λ f. length f.content ≤ limit) fs
    → All (FileOk limit (newest fs + 1) 0) fs
newest-Within limit fs h =
    All-map (λ f k. (omega (arith, k.0), (λ e. absurd (omega (arith, k.0, e))), k.1)) fs
      (All-both (λ f. f.seq ≤ newest fs) (λ f. length f.content ≤ limit) fs (newest_bound fs) h)

-- What holds of a writer that is open, and its number.
abbrev pub Opened : ℕ → ℕ → ℕ → Option Writer → Type 0
Opened limit max_bytes number none = ⊥
Opened limit max_bytes number (some w) = Loading limit max_bytes w [] × (w.seq ≡ number)

module _ (disk : Disk) where
  removed-Within :
      (limit : ℕ) (w : Writer) (seq : ℕ) (done : Bool)
      → IsWithin limit w
      → IsWithin limit (removed disk w seq done) × Kept w (removed disk w seq done)
  unfolding removed
  removed-Within limit w seq true h = (remove_from-All _ seq w.files h, (refl, refl, refl))
  removed-Within limit w seq false h = (h, (refl, refl, refl))

  remove_targets-Within :
      (limit : ℕ) (w : Writer) (protect : Option ℕ) (seqs : List ℕ)
      → IsWithin limit w
      → IsWithin limit (remove_targets disk w protect seqs)
        × Kept w (remove_targets disk w protect seqs)
  unfolding remove_targets
  remove_targets-Within limit w protect [] h = (h, (refl, refl, refl))
  remove_targets-Within limit w protect (seq ∷ seqs) h =
      elim (Bool-cases (is_protected protect seq)) [
        | inl t ↦ rw t (remove_targets-Within limit w protect seqs h)
        | inr t ↦
            let (within, kept) = removed-Within limit w seq (disk.remove w.calls) h in
            let rest =
              remove_targets-Within limit (removed disk w seq (disk.remove w.calls)) protect seqs
                within in
            rw t (rest.0, (rest.1.0 ∙ kept.0, rest.1.1 ∙ kept.1, rest.1.2 ∙ kept.2))
      ]

  prune_dir-Within :
      (limit : ℕ) (w : Writer) (keep : ℕ) (protect : Option ℕ)
      → IsWithin limit w
      → IsWithin limit (prune_dir disk w keep protect) × Kept w (prune_dir disk w keep protect)
  unfolding prune_dir
  prune_dir-Within limit w keep protect h = elim (Bool-cases (disk.read_dir w.calls)) [
    | inl t ↦ rw t (
        remove_targets-Within limit (record w { calls = w.calls + 1 }) protect
          (prune_targets (map (λ f. f.seq) w.files) keep) h)
    | inr t ↦ rw t (h, (refl, refl, refl))
  ]

  rolled_over-Within :
      (limit : ℕ) (w : Writer)
      → IsWithin limit w
      → IsWithin limit (rolled_over disk w (w.seq + 1) true)
        × ((rolled_over disk w (w.seq + 1) true).written ≡ 0)
        × ((rolled_over disk w (w.seq + 1) true).max_bytes ≡ w.max_bytes)
        × ((rolled_over disk w (w.seq + 1) true).seq ≡ w.seq + 1)
  unfolding rolled_over
  rolled_over-Within limit w h =
      let pruned =
        prune_dir-Within limit
          (record w {
            files = created_in (w.seq + 1) w.files;
            seq = w.seq + 1;
            written = 0;
            calls = w.calls + 1;
          })
          w.max_files (some (w.seq + 1)) (created_in-Within limit w.seq w.written w.files h) in
      (pruned.0, pruned.1.0, pruned.1.1, pruned.1.2)

  -- Where the number does not wrap.
  rotate-Within :
      (limit : ℕ) (w : Writer)
      → Faultless disk
      → w.seq + 1 < u64_mod
      → IsWithin limit w
      → IsWithin limit (rotate disk w)
        × ((rotate disk w).written ≡ 0)
        × ((rotate disk w).max_bytes ≡ w.max_bytes)
        × ((rotate disk w).seq ≡ w.seq + 1)
  unfolding rotate
  rotate-Within limit w faultless room h =
      let pruned = prune_dir disk w (w.max_files - 1) (some w.seq) in
      let (within, kept) = prune_dir-Within limit w (w.max_files - 1) (some w.seq) h in
      let rolled = rolled_over-Within limit pruned within in
      let number : number_after w.seq ≡ pruned.seq + 1 = omega (arith, room, kept.2) in
      rw (faultless.1 pruned.calls, number)
        (rolled.0, rolled.1, rolled.2 ∙ kept.1, rolled.3 ∙ ap (λ n. n + 1) kept.2)

  opened-Within :
      (limit : ℕ) (w : Writer)
      → w.written ≡ 0
      → IsWithin limit w
      → IsWithin limit (record w { files = created_in w.seq w.files; calls = w.calls + 1 })
  unfolding created_in
  opened-Within limit w none_written h = elim (Bool-cases (has_file w.seq w.files)) [
    | inl t ↦ rw t h
    | inr t ↦ rw t ((omega arith, (λ e. omega (arith, none_written)), omega arith), h)
  ]

  opened-Loading :
      (limit max_bytes number : ℕ) (w : Writer) (created : Bool)
      → created ≡ true
      → w.written ≡ 0
      → w.max_bytes ≡ max_bytes
      → w.seq ≡ number
      → IsWithin limit w
      → Opened limit max_bytes number (opened w created)
  unfolding opened
  opened-Loading limit max_bytes number w true c z same numbered h =
      ((opened-Within limit w z h, same, omega (arith, z)), numbered)
  opened-Loading limit max_bytes number w false c z same numbered h = cc

  -- An archive that opens, on files that are not too long, where the next number does not wrap.
  pub open_writer-Within :
      (limit max_bytes max_files : ℕ) (files : List LogFile)
      → Faultless disk
      → newest files + 1 < u64_mod
      → All (λ f. length f.content ≤ limit) files
      → (open_writer disk files max_bytes max_files ≡ none) × (disk.read_dir 0 ≡ false)
        ⊎ Opened limit max_bytes (newest files + 1) (open_writer disk files max_bytes max_files)
  unfolding open_writer next_seq
  open_writer-Within limit max_bytes max_files files faultless room h =
      let number : number_after (newest files) ≡ newest files + 1 = omega (arith, room) in
      let w : Writer = record {
        max_bytes = max_bytes;
        max_files = max_files;
        files = files;
        seq = newest files + 1;
        written = 0;
        calls = 1;
      } in
      let pruned = prune_dir disk w (max_files - 1) none in
      let (within, kept) =
        prune_dir-Within limit w (max_files - 1) none (newest-Within limit files h) in
      elim (Bool-cases (disk.read_dir 0)) [
        | inl t ↦
            rw (t, number)
              (inr (
                opened-Loading limit max_bytes (newest files + 1) pruned (disk.create pruned.calls)
                  (faultless.1 pruned.calls) kept.0 kept.1 kept.2 within))
        | inr t ↦ rw t (inl (refl, refl))
      ]
