-- ===== src/LogSink/Retention.antt =====
-- Which files of the archive are pruned: `prune_targets` of
-- crates/nyanpasu-core-manager/src/log_sink.rs. The sort of the standard library is an insertion
-- sort here, which is equal to it on numbers.
pub mod Newest
use nyanpasu_service.Prelude.{ℕ, List, [], ◌∷◌, leb, if◌then◌else◌, drop}

insert_newest : ℕ → List ℕ → List ℕ
insert_newest seq [] = seq ∷ []
insert_newest seq (s ∷ ss) =
    let rest = insert_newest seq ss in if leb s seq then seq ∷ s ∷ ss else s ∷ rest

-- `sort_unstable_by_key(Reverse)`
sort_newest : List ℕ → List ℕ
unfolding insert_newest
sort_newest [] = []
sort_newest (s ∷ ss) = insert_newest s (sort_newest ss)

pub prune_targets : List ℕ → ℕ → List ℕ
unfolding sort_newest
prune_targets seqs max_files = drop max_files (sort_newest seqs)
