-- ===== src/Manager/Quarantine/Uncertain.antt =====
-- What a recovery of the quarantine gives up, and what it keeps.
use nyanpasu_service.Prelude.{
  ℕ, ◌≡◌, refl, ap, ◌∙◌, false, ◌&&◌, not, ◌==◌, Option, List, [], ◌∷◌, ◌++◌, All, All-map, arith,
  Bool-cases, inl, inr,
}
use nyanpasu_service.Text.{Text}
use nyanpasu_service.Error.{Error, Result, ok, err}
use nyanpasu_service.Instance.Stop.{ReapOutcome}
use nyanpasu_service.Manager.Ctrl.{QuarantinedEpoch, Active, Manager, without}
use nyanpasu_service.Manager.Ownership.{
  Held, IsOwned, is_quarantined, is_live, is_live-without, Settled, Settled-without,
}
use nyanpasu_service.Manager.Quarantine.{
  prove_death, retain_others, Recovery, clean_entry, proven, reap_entry, recover_entry,
  recover_entries, recover_result, recover_listed, recover_quarantine,
}

is_quarantined-prove :
    (epoch : ℕ) (qs : List QuarantinedEpoch) (e : ℕ)
    → is_quarantined (prove_death epoch qs) e ≡ is_quarantined qs e
unfolding is_quarantined prove_death
is_quarantined-prove epoch [] e = refl
is_quarantined-prove epoch (q ∷ qs) e = ground (arith, is_quarantined-prove epoch qs e)

is_quarantined-retain :
    (epoch : ℕ) (qs : List QuarantinedEpoch) (e : ℕ)
    → is_quarantined (retain_others epoch qs) e ≡ (is_quarantined qs e && not (epoch == e))
unfolding is_quarantined retain_others
is_quarantined-retain epoch [] e = refl
is_quarantined-retain epoch (q ∷ qs) e = ground (arith, is_quarantined-retain epoch qs e)

Held-retain :
    (current : Option Active) (qs : List QuarantinedEpoch) (epoch : ℕ) (es : List ℕ)
    → is_live es epoch ≡ false
    → Held current qs es
    → Held current (retain_others epoch qs) es
unfolding is_live
Held-retain current qs epoch [] n h = tt
Held-retain current qs epoch (x ∷ xs) n h = (
  ground (arith, is_quarantined-retain epoch qs x, h.0),
  Held-retain current qs epoch xs (ground (arith, n)) h.1,
)

Held-proven :
    (current : Option Active) (qs : List QuarantinedEpoch) (epoch : ℕ) (es : List ℕ)
    → Held current qs es
    → Held current (prove_death epoch qs) (without epoch es)
unfolding without
Held-proven current qs epoch [] h = tt
Held-proven current qs epoch (x ∷ xs) h = elim (Bool-cases (x == epoch)) [
  | inl t ↦ rw t (Held-proven current qs epoch xs h.1)
  | inr t ↦
      rw t
        (ground (arith, is_quarantined-prove epoch qs x, h.0), Held-proven current qs epoch xs h.1)
]

All-retain :
    (P : QuarantinedEpoch → Type 0) (epoch : ℕ) (qs : List QuarantinedEpoch)
    → All P qs
    → All P (retain_others epoch qs)
unfolding retain_others
All-retain P epoch [] h = tt
All-retain P epoch (q ∷ qs) h = elim (Bool-cases (q.epoch == epoch)) [
  | inl t ↦ rw t (All-retain P epoch qs h.1)
  | inr t ↦ rw t (h.0, All-retain P epoch qs h.1)
]

Settled-proven :
    (live : List ℕ) (epoch : ℕ) (qs : List QuarantinedEpoch)
    → All (Settled live) qs
    → All (Settled (without epoch live)) (prove_death epoch qs)
unfolding prove_death
Settled-proven live epoch [] h = tt
Settled-proven live epoch (q ∷ qs) h =
    let kept = Settled-without live epoch (q ∷ qs) h in
    elim (Bool-cases (q.epoch == epoch)) [
      | inl t ↦ simp t ((λ d. ground (arith, t, is_live-without epoch live q.epoch)), kept.1)
      | inr t ↦ simp t (kept.0, Settled-proven live epoch qs h.1)
    ]

-- What one entry of the quarantine leaves behind.
record Recovers (m : Manager) (q : QuarantinedEpoch) (next : Manager) (failures : List Text)
    : Type 0 where
  released :
      failures ≡ []
      → (e : ℕ)
      → is_quarantined next.quarantine e ≡ (is_quarantined m.quarantine e && not (q.epoch == e))
  no_new_life : (e : ℕ) → is_live m.live e ≡ false → is_live next.live e ≡ false
  owned : Settled m.live q → IsOwned m → IsOwned next

module _ (render : Error → Text) (r : Recovery) where
  clean_entry-Recovers :
      (m : Manager) (q : QuarantinedEpoch) (c : Result (Unit {0}))
      → is_live m.live q.epoch ≡ false
      → Recovers m q ((clean_entry render r m q c).0) ((clean_entry render r m q c).1)
  unfolding clean_entry
  clean_entry-Recovers m q (ok done) n = record {
    released = λ f e. is_quarantined-retain q.epoch m.quarantine e;
    no_new_life = λ e k. k;
    owned = λ s h. (
      Held-retain m.current m.quarantine q.epoch m.live n h.0,
      All-retain (Settled m.live) q.epoch m.quarantine h.1,
    );
  }
  clean_entry-Recovers m q (err e) n = record {
    released = λ f. cc;
    no_new_life = λ e k. k;
    owned = λ s h. h;
  }

  proven-Recovers :
      (m : Manager) (q : QuarantinedEpoch)
      → Recovers m q
          ((clean_entry render r (proven render m q) q (r.cleanup q.epoch)).0)
          ((clean_entry render r (proven render m q) q (r.cleanup q.epoch)).1)
  unfolding proven
  proven-Recovers m q =
      let gone : is_live (without q.epoch m.live) q.epoch ≡ false =
        ground (arith, is_live-without q.epoch m.live q.epoch) in
      let next = clean_entry-Recovers (proven render m q) q (r.cleanup q.epoch) gone in
      record {
        released = λ f e.
            next.released f e
            ∙ ap (λ b. b && not (q.epoch == e)) (is_quarantined-prove q.epoch m.quarantine e);
        no_new_life =
            λ e k. next.no_new_life e (ground (arith, is_live-without q.epoch m.live e, k));
        owned = λ s h.
            next.owned (λ p. gone)
              (
                Held-proven m.current m.quarantine q.epoch m.live h.0,
                Settled-proven m.live q.epoch m.quarantine h.1,
              );
      }

  failed-Recovers :
      (m : Manager) (q : QuarantinedEpoch) (failure : Text) → Recovers m q m (failure ∷ [])
  failed-Recovers m q failure = record {
    released = λ f. cc;
    no_new_life = λ e k. k;
    owned = λ s h. h;
  }

  reap_entry-Recovers :
      (m : Manager) (q : QuarantinedEpoch) (reaped : Result ReapOutcome)
      → Recovers m q ((reap_entry render r m q reaped).0) ((reap_entry render r m q reaped).1)
  unfolding reap_entry
  reap_entry-Recovers m q (ok ReapOutcome.already_exited) = proven-Recovers m q
  reap_entry-Recovers m q (ok ReapOutcome.killed) = proven-Recovers m q
  reap_entry-Recovers m q (ok ReapOutcome.not_found) = failed-Recovers m q _
  reap_entry-Recovers m q (err e) = failed-Recovers m q _

  recover_entry-Recovers :
      (m : Manager) (q : QuarantinedEpoch)
      → Settled m.live q
      → Recovers m q ((recover_entry render r m q).0) ((recover_entry render r m q).1)
  unfolding recover_entry
  recover_entry-Recovers m q s = elim (Bool-cases q.death_proven) [
    | inl dead ↦ simp dead (clean_entry-Recovers m q (r.cleanup q.epoch) (s dead))
    | inr unsure ↦ simp unsure (reap_entry-Recovers m q (r.reap q.epoch))
  ]

  recover_entries-IsOwned :
      (m : Manager) (qs : List QuarantinedEpoch)
      → All (Settled m.live) qs
      → IsOwned m
      → IsOwned ((recover_entries render r m qs).0)
  unfolding recover_entries
  recover_entries-IsOwned m [] s h = h
  recover_entries-IsOwned m (q ∷ qs) s h =
      let first = recover_entry-Recovers m q s.0 in
      recover_entries-IsOwned ((recover_entry render r m q).0) qs
        (All-map (λ p k d. first.no_new_life p.epoch (k d)) qs s.1) (first.owned s.0 h)

  append_empty : {A : Type 0} (xs ys : List A) → xs ++ ys ≡ [] → (xs ≡ []) × (ys ≡ [])
  append_empty [] ys h = (refl, h)
  append_empty (x ∷ xs) ys h = cc

  -- Where nothing failed, no entry of the list is left.
  recover_entries-released :
      (m : Manager) (qs : List QuarantinedEpoch)
      → All (Settled m.live) qs
      → (recover_entries render r m qs).1 ≡ []
      → (e : ℕ)
      → is_quarantined ((recover_entries render r m qs).0.quarantine) e
        ≡ (is_quarantined m.quarantine e && not (is_quarantined qs e))
  unfolding recover_entries is_quarantined
  recover_entries-released m [] s f e = ground arith
  recover_entries-released m (q ∷ qs) s f e =
      let first = recover_entry-Recovers m q s.0 in
      let next = (recover_entry render r m q).0 in
      let none_failed =
        append_empty ((recover_entry render r m q).1) ((recover_entries render r next qs).1) f in
      let rest =
        recover_entries-released next qs (All-map (λ p k d. first.no_new_life p.epoch (k d)) qs s.1)
          none_failed.1 e in
      ground (arith, rest, first.released none_failed.0 e)

  all_released : (qs : List QuarantinedEpoch) → ((e : ℕ) → is_quarantined qs e ≡ false) → qs ≡ []
  unfolding is_quarantined
  all_released [] h = refl
  all_released (q ∷ qs) h = absurd (ground (arith, h q.epoch))

  result-IsOwned :
      (m : Manager) (failures : List Text) (now : ℕ)
      → IsOwned m
      → IsOwned ((recover_result render m failures now).0)
  unfolding recover_result
  result-IsOwned m [] now h = h
  result-IsOwned m (f ∷ fs) now h = h

  result_ok :
      (m : Manager) (failures : List Text) (now : ℕ)
      → (recover_result render m failures now).1 ≡ ok tt
      → (failures ≡ []) × ((recover_result render m failures now).0.quarantine ≡ m.quarantine)
  unfolding recover_result
  result_ok m [] now h = (refl, refl)
  result_ok m (f ∷ fs) now h = cc

  recovered-IsOwned :
      (m : Manager) (now : ℕ) (qs : List QuarantinedEpoch)
      → m.quarantine ≡ qs
      → All (Settled m.live) qs
      → IsOwned m
      → IsOwned (
          (recover_result render
            ((recover_entries render r m qs).0)
            ((recover_entries render r m qs).1)
            now).0)
  recovered-IsOwned m now qs same s h =
      result-IsOwned _ ((recover_entries render r m qs).1) now (recover_entries-IsOwned m qs s h)

  recovered_empty :
      (m : Manager) (now : ℕ) (qs : List QuarantinedEpoch)
      → m.quarantine ≡ qs
      → All (Settled m.live) qs
      → (recover_result render
          ((recover_entries render r m qs).0)
          ((recover_entries render r m qs).1)
          now).1
        ≡ ok tt
      → (recover_result render
          ((recover_entries render r m qs).0)
          ((recover_entries render r m qs).1)
          now).0.quarantine
        ≡ []
  recovered_empty m now qs same s h =
      let last = (recover_entries render r m qs).0 in
      let (clean, kept) = result_ok last ((recover_entries render r m qs).1) now h in
      kept
      ∙ all_released last.quarantine (λ e.
        let freed = recover_entries-released m qs s clean e in
        let there : is_quarantined m.quarantine e ≡ is_quarantined qs e =
          ap (λ l. is_quarantined l e) same in
        ground (arith, freed, there))

  recover_listed-IsOwned :
      (m : Manager) (now : ℕ) (qs : List QuarantinedEpoch)
      → m.quarantine ≡ qs
      → All (Settled m.live) qs
      → IsOwned m
      → IsOwned ((recover_listed render m r now qs).0)
        × ((recover_listed render m r now qs).1 ≡ ok tt
            → (recover_listed render m r now qs).0.quarantine ≡ [])
  unfolding recover_listed
  recover_listed-IsOwned m now [] same s h = (h, λ k. same)
  recover_listed-IsOwned m now (q ∷ qs) same s h =
      (recovered-IsOwned m now (q ∷ qs) same s h, recovered_empty m now (q ∷ qs) same s)

  -- From a manager that owns every epoch that may be alive, and in whose quarantine no epoch of
  -- proven death is alive, a recovery leads to such a manager; where it returns `Ok`, the quarantine
  -- is empty. The reaper and the clean-up may answer as they like for each epoch.
  pub recover_quarantine-IsOwned :
      (m : Manager) (now : ℕ)
      → IsOwned m
      → IsOwned ((recover_quarantine render m r now).0)
        × ((recover_quarantine render m r now).1 ≡ ok tt
            → (recover_quarantine render m r now).0.quarantine ≡ [])
  unfolding recover_quarantine
  recover_quarantine-IsOwned m now h = recover_listed-IsOwned m now m.quarantine refl h.1 h
