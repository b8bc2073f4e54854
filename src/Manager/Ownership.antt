-- ===== src/Manager/Ownership.antt =====
-- Which epochs the manager answers for: an epoch that may be alive is the current one or quarantined,
-- and one whose death is proven is not alive.
use nyanpasu_service.Prelude.{
  ℕ, ◌≡◌, refl, Bool, true, false, ◌&&◌, ◌||◌, not, ◌==◌, Option, none, some, List, [], ◌∷◌, All,
  All-map, arith, subst, Bool-cases, inl, inr,
}
use nyanpasu_service.Text.{Text}
use nyanpasu_service.Error.{Error, ok}
use nyanpasu_service.Manager.Ctrl.{QuarantinedEpoch, Active, Manager, without}
use nyanpasu_service.Manager.Quarantine.{
  record_quarantine, reject_quarantine, latch_quarantine, quarantine_error, publish_terminal_error,
}

-- The instance and its revision are of one epoch.
unfoldable pub is_current : Option Active → ℕ → Bool
is_current none e = false
is_current (some active) e = (active.instance_of.epoch == e) && (active.revision.epoch == e)

unfoldable pub is_quarantined : List QuarantinedEpoch → ℕ → Bool
is_quarantined [] e = false
is_quarantined (q ∷ qs) e = (q.epoch == e) || is_quarantined qs e

unfoldable pub is_live : List ℕ → ℕ → Bool
is_live [] e = false
is_live (x ∷ xs) e = (x == e) || is_live xs e

abbrev pub Held : Option Active → List QuarantinedEpoch → List ℕ → Type 0
Held current quarantine live =
    All (λ e. (is_current current e || is_quarantined quarantine e) ≡ true) live

-- An entry whose death is proven is not alive.
abbrev pub Settled : List ℕ → QuarantinedEpoch → Type 0
Settled live q = q.death_proven ≡ true → is_live live q.epoch ≡ false

abbrev pub Unproven : QuarantinedEpoch → Type 0
Unproven q = q.death_proven ≡ false

-- What holds between any two operations.
abbrev pub Safe : Option Active → List QuarantinedEpoch → List ℕ → Type 0
Safe current quarantine live = Held current quarantine live × All (Settled live) quarantine

-- What holds within an operation that the quarantine's gate let pass.
abbrev pub Fresh : Option Active → List QuarantinedEpoch → List ℕ → Type 0
Fresh current quarantine live = Held current quarantine live × All Unproven quarantine

abbrev pub IsOwned : Manager → Type 0
IsOwned m = Safe m.current m.quarantine m.live

abbrev pub IsFresh : Manager → Type 0
IsFresh m = Fresh m.current m.quarantine m.live

All-without : (P : ℕ → Type 0) (epoch : ℕ) (es : List ℕ) → All P es → All P (without epoch es)
unfolding without
All-without P epoch [] h = tt
All-without P epoch (e ∷ es) h = elim (Bool-cases (e == epoch)) [
  | inl t ↦ rw t (All-without P epoch es h.1)
  | inr t ↦ rw t (h.0, All-without P epoch es h.1)
]

pub is_live-without :
    (epoch : ℕ) (es : List ℕ) (e : ℕ)
    → is_live (without epoch es) e ≡ (is_live es e && not (epoch == e))
unfolding is_live without
is_live-without epoch [] e = refl
is_live-without epoch (x ∷ xs) e = ground (arith, is_live-without epoch xs e)

is_quarantined-record :
    (qs : List QuarantinedEpoch) (epoch : ℕ) (reason : Text) (e : ℕ)
    → ((epoch == e) || is_quarantined qs e) ≡ true
    → is_quarantined (record_quarantine qs epoch reason) e ≡ true
unfolding is_quarantined record_quarantine
is_quarantined-record [] epoch reason e h = ground arith
is_quarantined-record (q ∷ qs) epoch reason e h =
    ground (arith, is_quarantined-record qs epoch reason e)

-- Recording an epoch keeps what each entry satisfies, whatever its reason.
All-record :
    (P : QuarantinedEpoch → Type 0)
    → ((q : QuarantinedEpoch) (reason : Text) → P q → P (record q { reason = reason }))
    → (epoch : ℕ) (reason : Text)
    → P (record { epoch = epoch; reason = reason; death_proven = false })
    → (qs : List QuarantinedEpoch) → All P qs
    → All P (record_quarantine qs epoch reason)
unfolding record_quarantine
All-record P keep epoch reason new [] h = (new, tt)
All-record P keep epoch reason new (q ∷ qs) h = elim (Bool-cases (q.epoch == epoch)) [
  | inl t ↦ simp t (keep q reason h.0, h.1)
  | inr t ↦ simp t (h.0, All-record P keep epoch reason new qs h.1)
]

Unproven-record :
    (qs : List QuarantinedEpoch) (epoch : ℕ) (reason : Text)
    → All Unproven qs
    → All Unproven (record_quarantine qs epoch reason)
Unproven-record qs epoch reason = All-record Unproven (λ q r h. h) epoch reason refl qs

Settled-record :
    (live : List ℕ) (qs : List QuarantinedEpoch) (epoch : ℕ) (reason : Text)
    → All (Settled live) qs
    → All (Settled live) (record_quarantine qs epoch reason)
Settled-record live qs epoch reason =
    All-record (Settled live) (λ q r h. h) epoch reason (λ t. cc) qs

pub Settled-without :
    (live : List ℕ) (epoch : ℕ) (qs : List QuarantinedEpoch)
    → All (Settled live) qs
    → All (Settled (without epoch live)) qs
Settled-without live epoch =
    All-map (λ q h t. ground (arith, is_live-without epoch live q.epoch, h t))

Held-dead :
    (active : Active) (qs : List QuarantinedEpoch) (es : List ℕ)
    → Held (some active) qs es
    → Held none qs (without active.instance_of.epoch es)
unfolding is_current without
Held-dead active qs [] h = tt
Held-dead active qs (e ∷ es) h = elim (Bool-cases (e == active.instance_of.epoch)) [
  | inl t ↦ rw t (Held-dead active qs es h.1)
  | inr t ↦ rw t (ground (arith, h.0), Held-dead active qs es h.1)
]

Held-latch :
    (active : Active) (qs : List QuarantinedEpoch) (reason : Text) (es : List ℕ)
    → Held (some active) qs es
    → Held none (record_quarantine qs active.instance_of.epoch reason) es
unfolding is_current
Held-latch active qs reason =
    All-map (λ e h. is_quarantined-record qs active.instance_of.epoch reason e (ground (arith, h)))

Held-latch_revision :
    (active : Active) (qs : List QuarantinedEpoch) (reason : Text) (es : List ℕ)
    → Held (some active) qs es
    → Held none (record_quarantine qs active.revision.epoch reason) es
unfolding is_current
Held-latch_revision active qs reason =
    All-map (λ e h. is_quarantined-record qs active.revision.epoch reason e (ground (arith, h)))

Held-record :
    (current : Option Active) (qs : List QuarantinedEpoch) (epoch : ℕ) (reason : Text) (es : List ℕ)
    → Held current qs es
    → Held current (record_quarantine qs epoch reason) es
Held-record current qs epoch reason = All-map (λ e k. elim (Bool-cases (is_quarantined qs e)) [
  | inl t ↦ ground (arith, is_quarantined-record qs epoch reason e (ground (arith, t)))
  | inr t ↦ ground (arith, t, k)
])

-- The current epoch is confirmed dead.
pub Safe-dead :
    (active : Active) (qs : List QuarantinedEpoch) (es : List ℕ)
    → Safe (some active) qs es
    → Safe none qs (without active.instance_of.epoch es)
Safe-dead active qs es h =
    (Held-dead active qs es h.0, Settled-without es active.instance_of.epoch qs h.1)

-- The current epoch is uncertain.
pub Safe-latch :
    (active : Active) (qs : List QuarantinedEpoch) (reason : Text) (es : List ℕ)
    → Safe (some active) qs es
    → Safe none (record_quarantine qs active.instance_of.epoch reason) es
Safe-latch active qs reason es h =
    (Held-latch active qs reason es h.0, Settled-record es qs active.instance_of.epoch reason h.1)

pub Fresh-dead :
    (active : Active) (qs : List QuarantinedEpoch) (es : List ℕ)
    → Fresh (some active) qs es
    → Fresh none qs (without active.instance_of.epoch es)
Fresh-dead active qs es h = (Held-dead active qs es h.0, h.1)

pub Fresh-latch :
    (active : Active) (qs : List QuarantinedEpoch) (reason : Text) (es : List ℕ)
    → Fresh (some active) qs es
    → Fresh none (record_quarantine qs active.instance_of.epoch reason) es
Fresh-latch active qs reason es h =
    (Held-latch active qs reason es h.0, Unproven-record qs active.instance_of.epoch reason h.1)

pub Fresh-latch_revision :
    (active : Active) (qs : List QuarantinedEpoch) (reason : Text) (es : List ℕ)
    → Fresh (some active) qs es
    → Fresh none (record_quarantine qs active.revision.epoch reason) es
Fresh-latch_revision active qs reason es h = (
  Held-latch_revision active qs reason es h.0,
  Unproven-record qs active.revision.epoch reason h.1,
)

-- An epoch is quarantined beside the current one.
pub Fresh-record :
    (current : Option Active) (qs : List QuarantinedEpoch) (epoch : ℕ) (reason : Text) (es : List ℕ)
    → Fresh current qs es
    → Fresh current (record_quarantine qs epoch reason) es
Fresh-record current qs epoch reason es h =
    (Held-record current qs epoch reason es h.0, Unproven-record qs epoch reason h.1)

-- A new epoch is uncertain.
pub Fresh-new :
    (current : Option Active) (qs : List QuarantinedEpoch) (epoch : ℕ) (reason : Text) (es : List ℕ)
    → Fresh current qs es
    → Fresh current (record_quarantine qs epoch reason) (epoch ∷ es)
Fresh-new current qs epoch reason es h =
    let new = is_quarantined-record qs epoch reason epoch (ground arith) in
    (
      (ground (arith, new), Held-record current qs epoch reason es h.0),
      Unproven-record qs epoch reason h.1,
    )

-- A new epoch is dead again.
pub Fresh-gone :
    (current : Option Active) (qs : List QuarantinedEpoch) (epoch : ℕ) (es : List ℕ)
    → Fresh current qs es
    → Fresh current qs (without epoch (epoch ∷ es))
unfolding without
Fresh-gone current qs epoch es h =
    let same : (epoch == epoch) ≡ true = ground arith in
    rw same
      (All-without (λ e. (is_current current e || is_quarantined qs e) ≡ true) epoch es h.0, h.1)

-- Nothing is current, and a new epoch becomes so.
pub Fresh-current :
    (active : Active) (qs : List QuarantinedEpoch) (es : List ℕ)
    → active.revision.epoch ≡ active.instance_of.epoch
    → Fresh none qs es
    → Fresh (some active) qs (active.instance_of.epoch ∷ es)
unfolding is_current
Fresh-current active qs es r h = ((ground (arith, r), All-map (λ e k. ground arith) es h.0), h.1)

-- Ownership by an instance is ownership by any of its epoch.
pub Fresh-same :
    (a b : Active) (qs : List QuarantinedEpoch) (es : List ℕ)
    → a.instance_of.epoch ≡ b.instance_of.epoch
    → b.revision.epoch ≡ b.instance_of.epoch
    → Fresh (some a) qs es
    → Fresh (some b) qs es
unfolding is_current
Fresh-same a b qs es same r h = (All-map (λ e k. ground (arith, same, r, k)) es h.0, h.1)

Fresh-weaken :
    (a : Active) (qs : List QuarantinedEpoch) (es : List ℕ)
    → Fresh none qs es
    → Fresh (some a) qs es
unfolding is_current
Fresh-weaken a qs es h = (All-map (λ e k. ground arith) es h.0, h.1)

-- The old epoch is dead, and the new one, started before that, takes over.
pub Fresh-handover :
    (old new : Active) (qs : List QuarantinedEpoch) (es : List ℕ)
    → new.revision.epoch ≡ new.instance_of.epoch
    → Fresh (some old) qs es
    → Fresh (some new) qs (without old.instance_of.epoch (new.instance_of.epoch ∷ es))
unfolding without
Fresh-handover old new qs es r h =
    let rest = Fresh-dead old qs es h in
    elim (Bool-cases (new.instance_of.epoch == old.instance_of.epoch)) [
      | inl t ↦ rw t (Fresh-weaken new qs _ rest)
      | inr t ↦ rw t (Fresh-current new qs _ r rest)
    ]

pub Fresh-Safe :
    (current : Option Active) (qs : List QuarantinedEpoch) (es : List ℕ)
    → Fresh current qs es
    → Safe current qs es
Fresh-Safe current qs es h = (h.0, All-map (λ q u t. cc) qs h.1)

-- What `P` says of the fields that ownership is about.
abbrev pub Holds : (Option Active → List QuarantinedEpoch → List ℕ → Type 0) → Manager → Type 0
Holds P m = P m.current m.quarantine m.live

pub Holds-of :
    (P : Option Active → List QuarantinedEpoch → List ℕ → Type 0) (m : Manager) (c : Option Active)
    → m.current ≡ c
    → Holds P m
    → P c m.quarantine m.live
Holds-of P m c same h = subst (λ c'. P c' m.quarantine m.live) same h

pub Holds-Safe : (m : Manager) → IsFresh m → IsOwned m
Holds-Safe m h = Fresh-Safe m.current m.quarantine m.live h

-- The gate of the quarantine lets a manager pass only if nothing is uncertain.
pub gate-Fresh : (m : Manager) → reject_quarantine m.quarantine ≡ ok tt → IsOwned m → IsFresh m
unfolding reject_quarantine quarantine_error
gate-Fresh m passed h = gate m.quarantine passed h
  where
    gate :
        (qs : List QuarantinedEpoch)
        → reject_quarantine qs ≡ ok tt
        → Safe m.current qs m.live
        → Fresh m.current qs m.live
    gate [] p h = (h.0, tt)
    gate (q ∷ qs) p h = cc

module _ (render : Error → Text) where
  pub latch-Holds :
      (P : Option Active → List QuarantinedEpoch → List ℕ → Type 0) (m : Manager) (epoch : ℕ)
      (e : Error) (now : ℕ)
      → P m.current (record_quarantine m.quarantine epoch (render e)) m.live
      → Holds P (latch_quarantine render m epoch e now)
  unfolding latch_quarantine publish_terminal_error
  latch-Holds P m epoch e now h =
      let quarantine = record_quarantine m.quarantine epoch (render e) in
      elim (quarantine_error quarantine)
        as (λ shown. Holds P (elim shown [
          | some error ↦
              publish_terminal_error render (record m { quarantine = quarantine }) error now
          | none ↦ record m { quarantine = quarantine }
        ])) [ some shown ↦ h | none ↦ h ]
