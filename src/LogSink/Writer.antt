-- ===== src/LogSink/Writer.antt =====
-- `Writer` of crates/nyanpasu-core-manager/src/log_sink.rs. The
-- directory is a list of files by number; the oracle `Disk` says which file system calls fail, each
-- call being numbered. Serialization (serde_json) is a parameter. File numbers are `u64` and wrap, as
-- in a release build. Byte counts are of files and buffers that exist, so no sum of them leaves 64
-- bits.
pub mod Bounded
pub mod Active
use Prim.Native.Nat.{◌%◌, ◌^◌}
use nyanpasu_service.Prelude.{
  ℕ, zero, suc, ◌+◌, ◌-◌, Bool, true, false, ◌||◌, Option, none, some, List, [], ◌∷◌, ◌++◌, ltb,
  leb, ◌==◌, if◌then◌else◌, length, take, map,
}
use nyanpasu_service.Text.{Text, newline}
use nyanpasu_service.LogSink.Retention.{prune_targets}

abbrev pub u64_mod : ℕ
u64_mod = 2 ^ 64

-- For each call: how much a `write_all` that fails has written, and whether the others succeed.
pub record Disk : Type 0 where
  pub write : ℕ → Option ℕ
  pub read_dir : ℕ → Bool
  pub remove : ℕ → Bool
  pub create : ℕ → Bool

pub record LogFile : Type 0 where
  pub seq : ℕ
  pub content : Text

-- `SinkOptions` and `Writer`; `calls` counts the calls of the file system.
pub record Writer : Type 0 where
  pub max_bytes : ℕ
  pub max_files : ℕ
  pub files : List LogFile
  pub seq : ℕ
  pub written : ℕ
  pub calls : ℕ

pub data Entry {ℓ} (F : Type ℓ) : Type ℓ where
  log : F → Entry F
  gap : ℕ → Entry F

append_to : ℕ → Text → List LogFile → List LogFile
append_to seq text [] = []
append_to seq text (f ∷ fs) =
    let rest = append_to seq text fs in
    if f.seq == seq then record f { content = f.content ++ text } ∷ rest else f ∷ rest

remove_from : ℕ → List LogFile → List LogFile
remove_from seq [] = []
remove_from seq (f ∷ fs) = let rest = remove_from seq fs in if f.seq == seq then rest else f ∷ rest

unfoldable pub has_file : ℕ → List LogFile → Bool
has_file seq [] = false
has_file seq (f ∷ fs) = (f.seq == seq) || has_file seq fs

-- `create(true).append(true)`: a file that is there is kept.
created_in : ℕ → List LogFile → List LogFile
unfolding has_file
created_in seq files =
    if has_file seq files then files else record { seq = seq; content = [] } ∷ files

is_protected : Option ℕ → ℕ → Bool
is_protected none seq = false
is_protected (some protect) seq = protect == seq

-- The largest number, as `next_seq` reads it off the directory.
unfoldable pub newest : List LogFile → ℕ
newest [] = 0
newest (f ∷ fs) = let rest = newest fs in if leb rest f.seq then f.seq else rest

-- `+ 1` on a `u64`.
abbrev number_after : ℕ → ℕ
number_after seq = (seq + 1) % u64_mod

next_seq : List LogFile → ℕ
unfolding newest
next_seq files = number_after (newest files)

opened : Writer → Bool → Option Writer
unfolding created_in
opened w true = some (record w { files = created_in w.seq w.files; calls = w.calls + 1 })
opened w false = none

module _ (disk : Disk) where
  removed : Writer → ℕ → Bool → Writer
  unfolding remove_from
  removed w seq true = record w { files = remove_from seq w.files; calls = w.calls + 1 }
  removed w seq false = record w { calls = w.calls + 1 }

  remove_targets : Writer → Option ℕ → List ℕ → Writer
  unfolding removed is_protected
  remove_targets w protect [] = w
  remove_targets w protect (seq ∷ seqs) =
      let kept = remove_targets w protect seqs in
      let rest = remove_targets (removed w seq (disk.remove w.calls)) protect seqs in
      if is_protected protect seq then kept else rest

  -- `prune_dir`
  prune_dir : Writer → ℕ → Option ℕ → Writer
  unfolding remove_targets
  prune_dir w keep protect =
      let counted = record w { calls = w.calls + 1 } in
      let pruned = remove_targets counted protect (prune_targets (map (λ f. f.seq) w.files) keep) in
      if disk.read_dir w.calls then pruned else counted

  rolled_over : Writer → ℕ → Bool → Writer
  unfolding prune_dir created_in
  rolled_over w seq true =
      prune_dir
        (record w { files = created_in seq w.files; seq = seq; written = 0; calls = w.calls + 1 })
        w.max_files (some seq)
  rolled_over w seq false = record w { calls = w.calls + 1 }

  rotate : Writer → Writer
  unfolding rolled_over
  rotate w =
      let pruned = prune_dir w (w.max_files - 1) (some w.seq) in
      rolled_over pruned (number_after w.seq) (disk.create pruned.calls)

  -- A write that fails leaves the part it had written, which is not counted.
  appended : Writer → Text → Option ℕ → Writer
  unfolding append_to
  appended w buffer none = record w {
    files = append_to w.seq buffer w.files;
    written = w.written + length buffer;
    calls = w.calls + 1;
  }
  appended w buffer (some part) = record w {
    files = append_to w.seq (take part buffer) w.files;
    calls = w.calls + 1;
  }

  flush_pending : Writer → Text → Writer
  unfolding appended
  flush_pending w [] = w
  flush_pending w (b ∷ bs) = appended w (b ∷ bs) (disk.write w.calls)

  -- `Writer::open`
  unfoldable pub open_writer : List LogFile → ℕ → ℕ → Option Writer
  unfolding next_seq prune_dir opened
  open_writer files max_bytes max_files =
      let w : Writer = record {
        max_bytes = max_bytes;
        max_files = max_files;
        files = files;
        seq = next_seq files;
        written = 0;
        calls = 1;
      } in
      let pruned = prune_dir w (max_files - 1) none in
      if disk.read_dir 0 then opened pruned (disk.create pruned.calls) else none

  -- The rotation in front of the record that would land past the limit.
  make_room : Writer → Text → Writer × Text
  unfolding rotate flush_pending
  make_room w buffer =
      if leb w.max_bytes (w.written + length buffer)
      then (rotate (flush_pending w buffer), [])
      else (w, buffer)

  module _ {ℓ} {F : Type ℓ} (encode : F → Option Text) (encode_gap : ℕ → ℕ → Option Text) where
    -- `serde_json::to_writer` of a record; one that fails leaves nothing in the buffer.
    unfoldable pub encoded : ℕ → Entry F → Option Text
    encoded at (Entry.log frame) = encode frame
    encoded at (Entry.gap dropped) = encode_gap dropped at

    unfoldable pub line_of : Option Text → Text
    line_of none = []
    line_of (some json) = json ++ (newline ∷ [])

    write_entries : Writer → Text → ℕ → List (Entry F) → Writer
    unfolding encoded line_of make_room
    write_entries w buffer at [] = flush_pending w buffer
    write_entries w buffer at (e ∷ es) =
        let (roomy, rest) = make_room w buffer in
        write_entries roomy (rest ++ line_of (encoded at e)) at es

    -- `Writer::write`
    unfoldable pub write : Writer → ℕ → List (Entry F) → Writer
    unfolding write_entries
    write w at batch = write_entries w [] at batch
