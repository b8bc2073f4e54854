-- ===== src/Manager/Quarantine/Published.antt =====
-- What a recovery of the quarantine publishes.
use nyanpasu_service.Prelude.{ℕ, ◌≡◌, ◌≢◌, refl, ◌∙◌, none, List, [], ◌∷◌, Bool-cases, inl, inr}
use nyanpasu_service.Text.{Text}
use nyanpasu_service.Error.{Error, Result, ok, err}
use nyanpasu_service.State.{CoreState}
use nyanpasu_service.Instance.Stop.{ReapOutcome}
use nyanpasu_service.Manager.Publish.{publish}
use nyanpasu_service.Manager.Ctrl.{QuarantinedEpoch, Manager}
use nyanpasu_service.Manager.Quarantine.{
  Recovery, clean_entry, proven, reap_entry, recover_entry, recover_entries, recover_result,
  recover_listed, recover_quarantine,
}

-- The snapshot that says stopped, of no revision.
abbrev pub SaysStopped : Manager → Type 0
SaysStopped m = (m.status.state ≡ CoreState.stopped none) × (m.status.revision ≡ none)

module _ (render : Error → Text) (r : Recovery) where
  clean_entry_current :
      (m : Manager) (q : QuarantinedEpoch) (c : Result (Unit {0}))
      → (clean_entry render r m q c).0.current ≡ m.current
  unfolding clean_entry
  clean_entry_current m q (ok done) = refl
  clean_entry_current m q (err e) = refl

  reap_entry_current :
      (m : Manager) (q : QuarantinedEpoch) (reaped : Result ReapOutcome)
      → (reap_entry render r m q reaped).0.current ≡ m.current
  unfolding reap_entry proven
  reap_entry_current m q (ok ReapOutcome.already_exited) =
      clean_entry_current (proven render m q) q (r.cleanup q.epoch)
  reap_entry_current m q (ok ReapOutcome.killed) =
      clean_entry_current (proven render m q) q (r.cleanup q.epoch)
  reap_entry_current m q (ok ReapOutcome.not_found) = refl
  reap_entry_current m q (err e) = refl

  recover_entry_current :
      (m : Manager) (q : QuarantinedEpoch) → (recover_entry render r m q).0.current ≡ m.current
  unfolding recover_entry
  recover_entry_current m q = elim (Bool-cases q.death_proven) [
    | inl dead ↦ simp dead (clean_entry_current m q (r.cleanup q.epoch))
    | inr unsure ↦ simp unsure (reap_entry_current m q (r.reap q.epoch))
  ]

  recover_entries_current :
      (m : Manager) (qs : List QuarantinedEpoch)
      → (recover_entries render r m qs).0.current ≡ m.current
  unfolding recover_entries
  recover_entries_current m [] = refl
  recover_entries_current m (q ∷ qs) =
      recover_entries_current ((recover_entry render r m q).0) qs ∙ recover_entry_current m q

  result-SaysStopped :
      (m : Manager) (failures : List Text) (now : ℕ)
      → (recover_result render m failures now).1 ≡ ok tt
      → SaysStopped ((recover_result render m failures now).0)
        × ((recover_result render m failures now).0.current ≡ m.current)
  unfolding recover_result publish
  result-SaysStopped m [] now h = ((refl, refl), refl)
  result-SaysStopped m (f ∷ fs) now h = cc

  listed-SaysStopped :
      (m : Manager) (now : ℕ) (qs : List QuarantinedEpoch)
      → qs ≢ []
      → (recover_listed render m r now qs).1 ≡ ok tt
      → SaysStopped ((recover_listed render m r now qs).0)
        × ((recover_listed render m r now qs).0.current ≡ m.current)
  unfolding recover_listed
  listed-SaysStopped m now [] n h = absurd (n refl)
  listed-SaysStopped m now (q ∷ qs) n h =
      let last = (recover_entries render r m (q ∷ qs)).0 in
      let (stopped, kept) =
        result-SaysStopped last ((recover_entries render r m (q ∷ qs)).1) now h in
      (stopped, kept ∙ recover_entries_current m (q ∷ qs))

  -- A recovery of a quarantine that is not empty, where it returns `Ok`, publishes a stopped core
  -- without a revision, and keeps the current instance, whichever it is: where one is running, the
  -- snapshot does not show it.
  pub recover_quarantine-SaysStopped :
      (m : Manager) (now : ℕ)
      → m.quarantine ≢ []
      → (recover_quarantine render m r now).1 ≡ ok tt
      → SaysStopped ((recover_quarantine render m r now).0)
        × ((recover_quarantine render m r now).0.current ≡ m.current)
  unfolding recover_quarantine
  recover_quarantine-SaysStopped m now n h = listed-SaysStopped m now m.quarantine n h
