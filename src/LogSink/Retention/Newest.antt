-- ===== src/LogSink/Retention/Newest.antt =====
-- Pruning spares the newest files.
use mathlib.Core.List.{Perm}
use mathlib.Core.List.Perm
use nyanpasu_service.Prelude.{
  ℕ, zero, suc, ◌+◌, ◌-◌, ◌≤◌, ◌≡◌, refl, ap, ◌∙◌, min, take, length-take, List, [], ◌∷◌, ◌++◌, leb,
  if◌then◌else◌, length, drop, All, All-map, arith, Bool-cases, inl, inr,
}
use nyanpasu_service.LogSink.Retention.{insert_newest, sort_newest, prune_targets}

-- How many files are at least as new.
abbrev pub count_at_least : ℕ → List ℕ → ℕ
count_at_least t [] = 0
count_at_least t (s ∷ ss) = if leb t s then count_at_least t ss + 1 else count_at_least t ss

abbrev Descending : List ℕ → Type 0
Descending [] = Unit
Descending (s ∷ ss) = All (λ t. t ≤ s) ss × Descending ss

count-insert_newest :
    (t seq : ℕ) (ss : List ℕ)
    → count_at_least t (insert_newest seq ss) ≡ count_at_least t (seq ∷ ss)
unfolding insert_newest
count-insert_newest t seq [] = refl
count-insert_newest t seq (s ∷ ss) = ground (arith, count-insert_newest t seq ss)

count-sort_newest : (t : ℕ) (ss : List ℕ) → count_at_least t (sort_newest ss) ≡ count_at_least t ss
unfolding sort_newest
count-sort_newest t [] = refl
count-sort_newest t (s ∷ ss) =
    ground (arith, count-insert_newest t s (sort_newest ss), count-sort_newest t ss)

All-insert_newest :
    (P : ℕ → Type 0) (seq : ℕ) (ss : List ℕ) → P seq → All P ss → All P (insert_newest seq ss)
unfolding insert_newest
All-insert_newest P seq [] p h = (p, tt)
All-insert_newest P seq (s ∷ ss) p h = elim (Bool-cases (leb s seq)) [
  | inl t ↦ rw t (p, h)
  | inr t ↦ rw t (h.0, All-insert_newest P seq ss p h.1)
]

insert_newest-Descending :
    (seq : ℕ) (ss : List ℕ) → Descending ss → Descending (insert_newest seq ss)
unfolding insert_newest
insert_newest-Descending seq [] h = (tt, tt)
insert_newest-Descending seq (s ∷ ss) h = elim (Bool-cases (leb s seq)) [
  | inl t ↦
      let below : s ≤ seq = ground arith in rw t ((below, All-map (λ u k. omega arith) ss h.0), h)
  | inr t ↦ rw t (
    All-insert_newest (λ u. u ≤ s) seq ss (ground arith) h.0,
    insert_newest-Descending seq ss h.1,
  )
]

sort_newest-Descending : (ss : List ℕ) → Descending (sort_newest ss)
unfolding sort_newest
sort_newest-Descending [] = tt
sort_newest-Descending (s ∷ ss) =
    insert_newest-Descending s (sort_newest ss) (sort_newest-Descending ss)

count_self : (ss : List ℕ) → Descending ss → All (λ t. 1 ≤ count_at_least t ss) ss
count_self [] h = tt
count_self (s ∷ ss) h = (ground arith, All-map (λ t k. ground arith) ss (count_self ss h.1))

All-drop : (P : ℕ → Type 0) (n : ℕ) (ss : List ℕ) → All P ss → All P (drop n ss)
All-drop P zero ss h = h
All-drop P (suc n) [] h = tt
All-drop P (suc n) (s ∷ ss) h = All-drop P n ss h.1

All-both : (P Q : ℕ → Type 0) (ss : List ℕ) → All P ss → All Q ss → All (λ t. P t × Q t) ss
All-both P Q [] h k = tt
All-both P Q (s ∷ ss) h k = ((h.0, k.0), All-both P Q ss h.1 k.1)

drop-newer :
    (n : ℕ) (ss : List ℕ) → Descending ss → All (λ t. suc n ≤ count_at_least t ss) (drop n ss)
drop-newer zero ss h = count_self ss h
drop-newer (suc n) [] h = tt
drop-newer (suc n) (s ∷ ss) h =
    All-map (λ t k. let (newer, below) = k in ground (arith, newer, below)) (drop n ss)
      (All-both (λ t. suc n ≤ count_at_least t ss) (λ t. t ≤ s) (drop n ss) (drop-newer n ss h.1)
        (All-drop (λ t. t ≤ s) n ss h.0))

length-insert_newest : (seq : ℕ) (ss : List ℕ) → length (insert_newest seq ss) ≡ suc (length ss)
unfolding insert_newest
length-insert_newest seq [] = refl
length-insert_newest seq (s ∷ ss) = ground (arith, length-insert_newest seq ss)

length-sort_newest : (ss : List ℕ) → length (sort_newest ss) ≡ length ss
unfolding sort_newest
length-sort_newest [] = refl
length-sort_newest (s ∷ ss) =
    omega (arith, length-insert_newest s (sort_newest ss), length-sort_newest ss)

length-drop : (n : ℕ) (ss : List ℕ) → length (drop n ss) ≡ length ss - n
length-drop zero ss = omega arith
length-drop (suc n) [] = omega arith
length-drop (suc n) (s ∷ ss) = omega (arith, length-drop n ss)

insert_newest-perm : (seq : ℕ) (ss : List ℕ) → Perm (insert_newest seq ss) (seq ∷ ss)
unfolding insert_newest
insert_newest-perm seq [] = Perm.refl (seq ∷ [])
insert_newest-perm seq (s ∷ ss) = elim (Bool-cases (leb s seq)) [
  | inl t ↦ rw t (Perm.refl (seq ∷ s ∷ ss))
  | inr t ↦ rw t (Perm.trans (Perm.cons s (insert_newest-perm seq ss)) (Perm.swap seq s ss))
]

sort_newest-perm : (ss : List ℕ) → Perm (sort_newest ss) ss
unfolding sort_newest
sort_newest-perm [] = Perm.refl []
sort_newest-perm (s ∷ ss) =
    Perm.trans (insert_newest-perm s (sort_newest ss)) (Perm.cons s (sort_newest-perm ss))

take_append_drop : (n : ℕ) (ss : List ℕ) → take n ss ++ drop n ss ≡ ss
take_append_drop zero ss = refl
take_append_drop (suc n) [] = refl
take_append_drop (suc n) (s ∷ ss) = ap (λ l. s ∷ l) (take_append_drop n ss)

All-trivial : (ss : List ℕ) → All (λ t. Unit {0}) ss
All-trivial [] = tt
All-trivial (s ∷ ss) = (tt, All-trivial ss)

-- What is dropped of a descending list is below what is taken.
drop-below-take :
    (n : ℕ) (ss : List ℕ) → Descending ss → All (λ t. All (λ k. t ≤ k) (take n ss)) (drop n ss)
drop-below-take zero ss h = All-trivial ss
drop-below-take (suc n) [] h = tt
drop-below-take (suc n) (s ∷ ss) h =
    All-both (λ t. t ≤ s) (λ t. All (λ k. t ≤ k) (take n ss)) (drop n ss)
      (All-drop (λ t. t ≤ s) n ss h.0) (drop-below-take n ss h.1)

-- The files are divided into those that are pruned and those that are kept: together they are the
-- files of the directory, each as often as it is there; as many are kept as are to be kept, or all
-- if there are fewer; and none that is pruned is newer than one that is kept. So a file is pruned
-- only where more files than are to be kept are at least as new, itself counted.
pub prune_targets_oldest :
    (seqs : List ℕ) (max_files : ℕ)
    → (kept : List ℕ) × Perm (kept ++ prune_targets seqs max_files) seqs
      × (length kept ≡ min max_files (length seqs))
      × All (λ t. All (λ k. t ≤ k) kept) (prune_targets seqs max_files)
      × All (λ t. suc max_files ≤ count_at_least t seqs) (prune_targets seqs max_files)
      × (length (prune_targets seqs max_files) ≡ length seqs - max_files)
unfolding prune_targets
prune_targets_oldest seqs max_files =
    let sorted = sort_newest seqs in
    (
      take max_files sorted,
      rw (take_append_drop max_files sorted) (sort_newest-perm seqs),
      length-take max_files sorted ∙ ap (min max_files) (length-sort_newest seqs),
      drop-below-take max_files sorted (sort_newest-Descending seqs),
      All-map (λ t h. ground (arith, count-sort_newest t seqs, h)) (drop max_files sorted)
          (drop-newer max_files sorted (sort_newest-Descending seqs)),
      omega (arith, length-drop max_files sorted, length-sort_newest seqs),
    )
