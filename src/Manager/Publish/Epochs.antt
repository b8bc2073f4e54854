-- ===== src/Manager/Publish/Epochs.antt =====
-- Status changes of an instance reach the snapshot of its own epoch only.
use nyanpasu_service.Prelude.{ℕ, ◌≡◌, ◌≢◌, refl, Bool, true, false, arith, Bool-cases, inl, inr}
use nyanpasu_service.State.{InstanceStatus, CoreStatus}
use nyanpasu_service.Manager.Publish.{
  of_epoch, changed_at, instance_core_state, apply_own_epoch, apply_epoch_status,
}

-- `next` is what `status` becomes, and `modified` whether the watchers are woken.
pub record IsApplied (status : CoreStatus) (epoch : ℕ) (instance_of : InstanceStatus) (now : ℕ)
    (next : CoreStatus) (modified : Bool) : Type 0 where
  pub of_another : of_epoch status.revision epoch ≡ false → next ≡ status
  pub own_state :
      of_epoch status.revision epoch ≡ true
      → next.state ≡ instance_core_state epoch instance_of.state
  pub own_health : of_epoch status.revision epoch ≡ true → next.health ≡ instance_of.health
  pub silent : modified ≡ false → next ≡ status
  pub woken : modified ≡ true → next ≢ status
  pub same_revision : next.revision ≡ status.revision
  pub kept_stamp : next.state ≡ status.state → next.changed_at ≡ status.changed_at
  pub new_stamp : next.state ≢ status.state → next.changed_at ≡ now

own-IsApplied :
    (status : CoreStatus) (epoch : ℕ) (i : InstanceStatus) (now : ℕ)
    → of_epoch status.revision epoch ≡ true
    → IsApplied status epoch i now
        ((apply_own_epoch status (instance_core_state epoch i.state) i now).0)
        ((apply_own_epoch status (instance_core_state epoch i.state) i now).1)
unfolding apply_own_epoch changed_at
own-IsApplied status epoch i now own = ground arith

-- A status that an instance of some epoch reports is applied only to a snapshot of that epoch; the
-- snapshot then carries the instance's state and health. The watchers are woken exactly when the
-- snapshot changes, the revision stays, and the time stamp is renewed exactly on a change of the
-- lifecycle state.
pub apply_epoch_status-IsApplied :
    (status : CoreStatus) (epoch : ℕ) (i : InstanceStatus) (now : ℕ)
    → IsApplied status epoch i now
        ((apply_epoch_status status epoch i now).0)
        ((apply_epoch_status status epoch i now).1)
unfolding apply_epoch_status
apply_epoch_status-IsApplied status epoch i now =
    elim (Bool-cases (of_epoch status.revision epoch)) [
      | inl own ↦ rw own (own-IsApplied status epoch i now own)
      | inr other ↦ rw other (record {
        of_another = λ h. refl;
        own_state = λ h. cc;
        own_health = λ h. cc;
        silent = λ h. refl;
        woken = λ h. cc;
        same_revision = refl;
        kept_stamp = λ h. refl;
        new_stamp = λ h. absurd (h refl);
      })
    ]
