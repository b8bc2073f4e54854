-- ===== src/Manager/Launch/Owned.antt =====
-- Ownership through the shared steps: a stop that may be uncertain, a replacement, an installation.
use nyanpasu_service.Prelude.{
  ℕ, ◌≡◌, refl, ap, subst, true, false, Option, none, some, List, ◌∷◌, arith, Bool-cases, inl, inr,
}
use nyanpasu_service.Text.{Text}
use nyanpasu_service.Error.{Error, Result, ok, err}
use nyanpasu_service.State.{InstanceState, InstanceStatus}
use nyanpasu_service.Instance.Stop.{Answers, stop_and_confirm_dead}
use nyanpasu_service.Instance.Stop.Confirmed.{Verdict}
use nyanpasu_service.Manager.Ctrl.{QuarantinedEpoch, Active, Manager}
use nyanpasu_service.Manager.Quarantine.{record_quarantine}
use nyanpasu_service.Manager.Ownership.{
  Fresh, IsFresh, Holds, latch-Holds, Fresh-record, Fresh-new, Fresh-gone, Fresh-current,
}
use nyanpasu_service.Manager.Launch.{
  PreparedLaunch, is_unconfirmed, install_switched, republish, republish_retained, Halt,
  Replacement, latch_if_unconfirmed, replacement_rejected, replacement_spawned, replace,
  spawn_replacement,
}

pub republish-Holds :
    (P : Option Active → List QuarantinedEpoch → List ℕ → Type 0) (m : Manager) (now : ℕ)
    → Holds P m
    → Holds P (republish_retained m now)
unfolding republish_retained
republish-Holds P m now h = republished m.current
  where
    republished : (c : Option Active) → Holds P (republish m now c)
    republished none = h
    republished (some active) = h

-- The epoch of an instance, and of its revision.
abbrev pub Launched : ℕ → Active → Type 0
Launched epoch a = (a.instance_of.epoch ≡ epoch) × (a.revision.epoch ≡ epoch)

-- An instance that is alive as the newest epoch becomes the current one.
pub install-IsFresh :
    (m : Manager) (epoch : ℕ) (p : PreparedLaunch) (status : InstanceStatus) (now : ℕ)
    → p.revision.epoch ≡ epoch
    → ((a : Active) → Launched epoch a → Fresh (some a) m.quarantine m.live)
    → IsFresh (install_switched m epoch p status now)
unfolding install_switched
install-IsFresh m epoch p status now r h = h _ (refl, r)

pub Fresh-of_epoch :
    (qs : List QuarantinedEpoch) (epoch : ℕ) (es : List ℕ)
    → Fresh none qs es
    → (a : Active) → Launched epoch a
    → Fresh (some a) qs (epoch ∷ es)
Fresh-of_epoch qs epoch es h a l =
    subst (λ e. Fresh (some a) qs (e ∷ es)) l.0 (Fresh-current a qs es (cc (l.0, l.1)) h)

-- What is owed for a replacement in `epoch`, nothing being current: alive, it may become so; an
-- error is uncertain, or leaves nothing alive.
abbrev pub Replaced : ℕ → Manager → Result InstanceStatus → Type 0
Replaced epoch m (ok status) = (a : Active) → Launched epoch a → Fresh (some a) m.quarantine m.live
Replaced epoch m (err e) =
    ((reason : Text) → Fresh none (record_quarantine m.quarantine epoch reason) m.live)
    × (is_unconfirmed e ≡ false → Fresh none m.quarantine m.live)

module _ (render : Error → Text) where
  pub latch_if_unconfirmed-Holds :
      (P : Option Active → List QuarantinedEpoch → List ℕ → Type 0) (m : Manager) (epoch : ℕ)
      (e : Error) (now : ℕ) (otherwise : Manager)
      → P m.current (record_quarantine m.quarantine epoch (render e)) m.live
      → (is_unconfirmed e ≡ false → Holds P otherwise)
      → Holds P (latch_if_unconfirmed render m epoch e now otherwise)
  unfolding latch_if_unconfirmed
  latch_if_unconfirmed-Holds P m epoch e now otherwise h k = elim (Bool-cases (is_unconfirmed e)) [
    | inl t ↦ rw t (latch-Holds render P m epoch e now h)
    | inr t ↦ rw t (k t)
  ]

  -- An error of a stop is `StopUnconfirmed`, so nothing is owed where it is not.
  pub refuted :
      {P : Type 0} (before : InstanceState) (a : Answers) (e : Error)
      → Verdict before a (err e)
      → is_unconfirmed e ≡ false
      → P
  refuted before a e v c =
      let yes : is_unconfirmed e ≡ true = ap is_unconfirmed v.1 in absurd (ground (arith, yes, c))

  rejected-Replaced :
      (m : Manager) (epoch : ℕ) (not_ready : Error) (r : Result (Unit {0}))
      → m.current ≡ none
      → Fresh none m.quarantine m.live
      → let after =
          replacement_rejected render (record m { live = epoch ∷ m.live }) epoch not_ready r in
        (after.0.current ≡ none) × Replaced epoch (after.0) (after.1)
  unfolding replacement_rejected
  rejected-Replaced m epoch not_ready (ok done) c h =
      let gone = Fresh-gone none m.quarantine epoch m.live h in
      (c, (λ reason. Fresh-record none m.quarantine epoch reason _ gone, λ u. gone))
  rejected-Replaced m epoch not_ready (err stop_error) c h =
      (c, (λ reason. Fresh-new none m.quarantine epoch reason m.live h, λ u. cc))

  spawned-Replaced :
      (m : Manager) (epoch : ℕ) (halt : Halt) (ready : Result InstanceStatus)
      → m.current ≡ none
      → Fresh none m.quarantine m.live
      → let after =
          replacement_spawned render (record m { live = epoch ∷ m.live }) epoch halt ready in
        (after.0.current ≡ none) × Replaced epoch (after.0) (after.1)
  unfolding replacement_spawned
  spawned-Replaced m epoch halt (ok status) c h = (c, Fresh-of_epoch m.quarantine epoch m.live h)
  spawned-Replaced m epoch halt (err not_ready) c h =
      rejected-Replaced m epoch not_ready (stop_and_confirm_dead render halt.before halt.answers) c
        h

  replace-Replaced :
      (m : Manager) (epoch : ℕ) (r : Replacement) (spawn : Result (Unit {0}))
      → m.current ≡ none
      → Fresh none m.quarantine m.live
      → let after = replace render m epoch r spawn in
        (after.0.current ≡ none) × Replaced epoch (after.0) (after.1)
  unfolding replace
  replace-Replaced m epoch r (err e) c h =
      (c, (λ reason. Fresh-record none m.quarantine epoch reason m.live h, λ u. h))
  replace-Replaced m epoch r (ok done) c h = spawned-Replaced m epoch r.halt r.ready c h

  pub spawn_replacement-Replaced :
      (m : Manager) (epoch : ℕ) (r : Replacement)
      → m.current ≡ none
      → Fresh none m.quarantine m.live
      → let after = spawn_replacement render m epoch r in
        (after.0.current ≡ none) × Replaced epoch (after.0) (after.1)
  unfolding spawn_replacement
  spawn_replacement-Replaced m epoch r c h = replace-Replaced m epoch r r.spawn c h

  replacement_rejected-current :
      (m : Manager) (epoch : ℕ) (e : Error) (r : Result (Unit {0}))
      → (replacement_rejected render m epoch e r).0.current ≡ m.current
  unfolding replacement_rejected
  replacement_rejected-current m epoch e (ok done) = refl
  replacement_rejected-current m epoch e (err stop_error) = refl

  replacement_spawned-current :
      (m : Manager) (epoch : ℕ) (halt : Halt) (ready : Result InstanceStatus)
      → (replacement_spawned render m epoch halt ready).0.current ≡ m.current
  unfolding replacement_spawned
  replacement_spawned-current m epoch halt (ok status) = refl
  replacement_spawned-current m epoch halt (err e) =
      replacement_rejected-current m epoch e (stop_and_confirm_dead render halt.before halt.answers)

  replace-current :
      (m : Manager) (epoch : ℕ) (r : Replacement) (spawn : Result (Unit {0}))
      → (replace render m epoch r spawn).0.current ≡ m.current
  unfolding replace
  replace-current m epoch r (err e) = refl
  replace-current m epoch r (ok done) =
      replacement_spawned-current (record m { live = epoch ∷ m.live }) epoch r.halt r.ready

  -- A replacement leaves the choice of the current instance to its caller.
  pub spawn_replacement-current :
      (m : Manager) (epoch : ℕ) (r : Replacement)
      → (spawn_replacement render m epoch r).0.current ≡ m.current
  unfolding spawn_replacement
  spawn_replacement-current m epoch r = replace-current m epoch r r.spawn
