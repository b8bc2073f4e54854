-- ===== src/LogSink/Drain/Taken.antt =====
-- What `drain` takes from the channel, and what it leaves there.
use nyanpasu_service.Prelude.{
  ℕ, zero, suc, ◌≤◌, ◌≡◌, refl, sym, ap, ◌∙◌, Bool, true, false, ◌&&◌, ◌||◌, if◌then◌else◌, List,
  [], ◌∷◌, ◌++◌, ltb, length, length-append, take, take_all, arith, Bool-cases, inl, inr,
}
use nyanpasu_service.LogSink.Writer.{Entry}
use nyanpasu_service.LogSink.Drain.{max_batch_records, Polled, drain}

module _ {ℓ} {F : Type ℓ} where
  -- What the answers carry until the channel is closed, and whether they say so.
  abbrev pub entries_of : List (Polled F) → List (Entry F)
  entries_of [] = []
  entries_of (Polled.frame f ∷ answers) = Entry.log f ∷ entries_of answers
  entries_of (Polled.lagged dropped ∷ answers) = Entry.gap dropped ∷ entries_of answers
  entries_of (Polled.closed ∷ answers) = []

  abbrev pub says_closed : List (Polled F) → Bool
  says_closed [] = false
  says_closed (Polled.frame f ∷ answers) = says_closed answers
  says_closed (Polled.lagged dropped ∷ answers) = says_closed answers
  says_closed (Polled.closed ∷ answers) = true

  append_assoc : (xs ys zs : List (Entry F)) → (xs ++ ys) ++ zs ≡ xs ++ (ys ++ zs)
  append_assoc [] ys zs = refl
  append_assoc (x ∷ xs) ys zs = ap (λ l. x ∷ l) (append_assoc xs ys zs)

  append_nil : (xs : List (Entry F)) → xs ++ [] ≡ xs
  append_nil [] = refl
  append_nil (x ∷ xs) = ap (λ l. x ∷ l) (append_nil xs)

  take-append : (n : ℕ) (xs ys : List (Entry F)) → length xs ≡ n → take n (xs ++ ys) ≡ xs
  take-append zero [] ys h = refl
  take-append (suc n) [] ys h = absurd (omega arith)
  take-append zero (x ∷ xs) ys h = absurd (omega arith)
  take-append (suc n) (x ∷ xs) ys h = ap (λ l. x ∷ l) (take-append n xs ys (omega arith))

  -- What the drain is compared with: the entries in order, cut at the size of a batch; what is
  -- behind the cut, which is still to be asked for; and whether the end of the channel was read.
  abbrev pub Drained :
      List (Polled F) → List (Entry F) → List (Entry F) × Bool × List (Polled F) → Type ℓ
  Drained answers batch drained =
      (drained.0 ≡ take max_batch_records (batch ++ entries_of answers))
      × (drained.0 ++ (if drained.1 then [] else entries_of drained.2)
          ≡ batch ++ entries_of answers)
      × (drained.1
          ≡ (says_closed answers && ltb (length (batch ++ entries_of answers)) max_batch_records))
      × ((drained.1 || says_closed drained.2) ≡ says_closed answers)

  full-Drained :
      (answers : List (Polled F)) (batch : List (Entry F))
      → length batch ≤ max_batch_records
      → ltb (length batch) max_batch_records ≡ false
      → Drained answers batch (batch, false, answers)
  full-Drained answers batch h full =
      let size : length batch ≡ max_batch_records = ground arith in
      (
        sym (take-append max_batch_records batch (entries_of answers) size),
        refl,
        ground (arith, length-append batch (entries_of answers), size),
        refl,
      )

  -- An entry that has been taken, in front of those that are still in the channel.
  abbrev DrainedBehind :
      Entry F → List (Polled F) → List (Entry F) → List (Entry F) × Bool × List (Polled F) → Type ℓ
  DrainedBehind e answers batch drained =
      (drained.0 ≡ take max_batch_records (batch ++ (e ∷ entries_of answers)))
      × (drained.0 ++ (if drained.1 then [] else entries_of drained.2)
          ≡ batch ++ (e ∷ entries_of answers))
      × (drained.1 ≡ (
          says_closed answers
          && ltb (length (batch ++ (e ∷ entries_of answers))) max_batch_records))
      × ((drained.1 || says_closed drained.2) ≡ says_closed answers)

  more-Drained :
      (answers : List (Polled F)) (batch : List (Entry F)) (e : Entry F)
      (drained : List (Entry F) × Bool × List (Polled F))
      → Drained answers (batch ++ (e ∷ [])) drained
      → DrainedBehind e answers batch drained
  more-Drained answers batch e drained h =
      let same = append_assoc batch (e ∷ []) (entries_of answers) in
      (
        h.0 ∙ ap (λ l. take max_batch_records l) same,
        h.1 ∙ same,
        h.2 ∙ ap (λ l. says_closed answers && ltb (length l) max_batch_records) same,
        h.3,
      )

  one_more :
      (batch : List (Entry F)) (e : Entry F)
      → ltb (length batch) max_batch_records ≡ true
      → length (batch ++ (e ∷ [])) ≤ max_batch_records
  one_more batch e room = ground (arith, length-append batch (e ∷ []), room)

  -- A drain loses nothing and reorders nothing: to a batch of at most 256 entries it adds what the
  -- channel answers, in order and up to 256 entries in all, and the answers that it leaves in the
  -- channel carry just the entries behind those; it says that the channel is closed exactly where
  -- it has read so with room left in the batch, and where it has not, the end is still to be read.
  pub drain-Drained :
      (answers : List (Polled F)) (batch : List (Entry F))
      → length batch ≤ max_batch_records
      → Drained answers batch (drain answers batch)
  unfolding drain
  drain-Drained [] batch h = (
    sym (
        take_all max_batch_records (batch ++ []) (omega (arith, length-append batch []))
        ∙ append_nil batch),
    refl,
    refl,
    refl,
  )
  drain-Drained (Polled.frame f ∷ answers) batch h =
      elim (Bool-cases (ltb (length batch) max_batch_records)) [
        | inl t ↦ rw t (
            more-Drained answers batch (Entry.log f) (drain answers (batch ++ (Entry.log f ∷ []))) (
              drain-Drained answers (batch ++ (Entry.log f ∷ [])) (one_more batch (Entry.log f) t)))
        | inr t ↦ rw t (full-Drained (Polled.frame f ∷ answers) batch h t)
      ]
  drain-Drained (Polled.lagged dropped ∷ answers) batch h =
      elim (Bool-cases (ltb (length batch) max_batch_records)) [
        | inl t ↦ rw t (
            more-Drained answers batch (Entry.gap dropped)
              (drain answers (batch ++ (Entry.gap dropped ∷ [])))
              (drain-Drained answers (batch ++ (Entry.gap dropped ∷ []))
                (one_more batch (Entry.gap dropped) t)))
        | inr t ↦ rw t (full-Drained (Polled.lagged dropped ∷ answers) batch h t)
      ]
  drain-Drained (Polled.closed ∷ answers) batch h =
      elim (Bool-cases (ltb (length batch) max_batch_records)) [
        | inl t ↦ rw t (
          sym (
              take_all max_batch_records (batch ++ []) (omega (arith, length-append batch []))
              ∙ append_nil batch),
          refl,
          ground (arith, length-append batch [], t),
          refl,
        )
        | inr t ↦ rw t (full-Drained (Polled.closed ∷ answers) batch h t)
      ]
