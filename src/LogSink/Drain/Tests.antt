-- ===== src/LogSink/Drain/Tests.antt =====
-- A small archive: five bytes to a file and two files kept, with frames of three bytes.
use mathlib.Core.List.{Perm}
use nyanpasu_service.Prelude.{
  ℕ, ◌+◌, ◌<◌, ◌≤◌, ◌≡◌, refl, true, false, Option, none, some, List, [], ◌∷◌, ◌++◌, replicate,
  length, All, arith,
}
use nyanpasu_service.Text.{Text, bytes}
use nyanpasu_service.Text.Decimal.{show_ℕ}
use nyanpasu_service.LogSink.Names.{file_name, file_seq}
use nyanpasu_service.LogSink.Names.Inverse.{file_seq-file_name}
use nyanpasu_service.LogSink.Retention.{prune_targets}
use nyanpasu_service.LogSink.Retention.Newest.{count_at_least, prune_targets_oldest}
use nyanpasu_service.LogSink.Writer.{
  Disk, LogFile, Writer, Entry, u64_mod, newest, encoded, line_of, has_file, write,
}
use nyanpasu_service.LogSink.Writer.Active.{HasActive, write-HasActive}
use nyanpasu_service.LogSink.Drain.{Polled, Turn, drain, turn_batch, spawn}
use nyanpasu_service.LogSink.Drain.Bounded.{Archived, answers_in, spawn-Archived}
use nyanpasu_service.LogSink.Drain.Taken.{Drained, drain-Drained}

abbrev sound : Disk
sound = record {
  write = λ call. none;
  read_dir = λ call. true;
  remove = λ call. true;
  create = λ call. true;
}

-- No file can be removed, and no new one created.
abbrev stuck : Disk
stuck = record {
  write = λ call. none;
  read_dir = λ call. true;
  remove = λ call. false;
  create = λ call. false;
}

abbrev encode : ℕ → Option Text
encode digit = some ((b'<' ∷ digit ∷ b'>' ∷ []))

abbrev encode_gap : ℕ → ℕ → Option Text
encode_gap dropped at = some (bytes "gap")

abbrev old_file : List LogFile
old_file = record { seq = 3; content = bytes "old" } ∷ []

abbrev three_frames : List (Polled ℕ)
three_frames = Polled.frame b'2' ∷ Polled.lagged 9 ∷ Polled.frame b'3' ∷ []

abbrev turns : List (ℕ × Turn ℕ)
turns = (0, Turn.received (Polled.frame b'1' ∷ three_frames)) ∷ (1, Turn.cancelled []) ∷ []

drained_in_order :
    (turn_batch (Polled.frame b'1' ∷ []) (Turn.received three_frames)).0
    ≡ (Entry.log b'1' ∷ Entry.log b'2' ∷ Entry.gap 9 ∷ Entry.log b'3' ∷ [])
unfolding turn_batch drain
drained_in_order = refl

capped_frames :
    (at : ℕ) (e : Entry ℕ)
    → length (line_of sound encode encode_gap (encoded sound encode encode_gap at e)) ≤ 4
unfolding encoded line_of
capped_frames at (Entry.log digit) = omega arith
capped_frames at (Entry.gap dropped) = omega arith

room_for_numbers : newest old_file + 1 + answers_in turns < u64_mod
unfolding newest
room_for_numbers = omega arith

spawn-Archived_example :
    Archived sound encode encode_gap 9 (spawn sound encode encode_gap old_file 5 2 turns)
spawn-Archived_example =
    spawn-Archived sound encode encode_gap 4 5 2 old_file turns ((λ call. refl), (λ call. refl))
      capped_frames room_for_numbers (omega arith, tt)

-- A batch of 255 entries has room for one more: the other two answers stay in the channel.
abbrev nearly_full : List (Entry ℕ)
nearly_full = replicate 255 (Entry.log b'1')

two_left : (drain three_frames nearly_full).2 ≡ (Polled.lagged 9 ∷ Polled.frame b'3' ∷ [])
unfolding drain
two_left = refl

drain-Drained_example : Drained three_frames nearly_full (drain three_frames nearly_full)
drain-Drained_example = drain-Drained three_frames nearly_full (omega arith)

abbrev oversized : Writer
oversized = record {
  max_bytes = 5;
  max_files = 0;
  files = record { seq = 3; content = bytes "too long" } ∷ [];
  seq = 3;
  written = 8;
  calls = 0;
}

write-HasActive_example :
    HasActive (write stuck encode encode_gap oversized 0 (Entry.log b'1' ∷ Entry.log b'2' ∷ []))
unfolding has_file
write-HasActive_example =
    write-HasActive stuck encode encode_gap oversized 0 (Entry.log b'1' ∷ Entry.log b'2' ∷ []) refl

name_of_seven : file_name 7 ≡ bytes "core-000007.jsonl"
unfolding file_name show_ℕ
name_of_seven = refl

foreign_name : file_seq (bytes "core-7a.jsonl") ≡ none
unfolding file_seq
foreign_name = refl

file_seq-file_name_example : file_seq (file_name 1234567) ≡ some 1234567
file_seq-file_name_example = file_seq-file_name 1234567 (omega arith)

abbrev numbers : List ℕ
numbers = 3 ∷ 5 ∷ 4 ∷ []

prune_targets_oldest_example :
    (kept : List ℕ) × Perm (kept ++ prune_targets numbers 1) numbers
    × (length kept ≡ 1)
    × All (λ t. All (λ k. t ≤ k) kept) (prune_targets numbers 1)
    × All (λ t. 2 ≤ count_at_least t numbers) (prune_targets numbers 1)
    × (length (prune_targets numbers 1) ≡ 2)
prune_targets_oldest_example = prune_targets_oldest numbers 1
