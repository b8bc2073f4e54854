-- ===== src/Manager/Quarantine.antt =====
-- Uncertain epochs: crates/nyanpasu-core-manager/src/manager/quarantine.rs. The reaper and the file
-- system answer through `Recovery`; `render` is the errors' `Display`.
pub mod Uncertain
mod Published
mod Tests
use nyanpasu_service.Prelude.{
  ℕ, true, false, Option, none, some, List, [], ◌∷◌, ◌++◌, ◌==◌, if◌then◌else◌, map,
}
use nyanpasu_service.Text.{Text, bytes}
use nyanpasu_service.Text.Decimal.{show_ℕ}
use nyanpasu_service.Error.{Error, Result, ok, err, manager_quarantined}
use nyanpasu_service.State.{CoreState, StopReason}
use nyanpasu_service.Instance.Stop.{ReapOutcome}
use nyanpasu_service.Manager.Publish.{publish}
use nyanpasu_service.Manager.Ctrl.{QuarantinedEpoch, Manager, without}

-- `[..].join(separator)`
unfoldable pub join : Text → List Text → Text
join separator [] = []
join separator (t ∷ []) = t
join separator (t ∷ u ∷ ts) = t ++ separator ++ join separator (u ∷ ts)

quarantine_reason : QuarantinedEpoch → List QuarantinedEpoch → Text
quarantine_reason first [] = first.reason
quarantine_reason first (next ∷ rest) =
    first.reason
    ++ bytes "; additional uncertain epochs: "
    ++ join (bytes ", ") (map (λ q. show_ℕ q.epoch) (first ∷ next ∷ rest))

unfoldable pub quarantine_error : List QuarantinedEpoch → Option Error
unfolding quarantine_reason
quarantine_error [] = none
quarantine_error (first ∷ rest) =
    some (manager_quarantined first.epoch (quarantine_reason first rest))

unfoldable pub record_quarantine : List QuarantinedEpoch → ℕ → Text → List QuarantinedEpoch
record_quarantine [] epoch reason =
    record { epoch = epoch; reason = reason; death_proven = false } ∷ []
record_quarantine (q ∷ qs) epoch reason =
    let rest = record_quarantine qs epoch reason in
    if q.epoch == epoch then record q { reason = reason } ∷ qs else q ∷ rest

unfoldable pub reject_quarantine : List QuarantinedEpoch → Result (Unit {0})
reject_quarantine quarantine = elim (quarantine_error quarantine) [ some e ↦ err e | none ↦ ok tt ]

-- `find(epoch)`, and `death_proven = true` there.
prove_death : ℕ → List QuarantinedEpoch → List QuarantinedEpoch
prove_death epoch [] = []
prove_death epoch (q ∷ qs) =
    let rest = prove_death epoch qs in
    if q.epoch == epoch then record q { death_proven = true } ∷ qs else q ∷ rest

-- `retain(|quarantine| quarantine.epoch != epoch)`
retain_others : ℕ → List QuarantinedEpoch → List QuarantinedEpoch
retain_others epoch [] = []
retain_others epoch (q ∷ qs) =
    let rest = retain_others epoch qs in if q.epoch == epoch then rest else q ∷ rest

-- The answers of the reaper and of `cleanup_epoch`, by epoch.
pub record Recovery : Type 0 where
  pub reap : ℕ → Result ReapOutcome
  pub cleanup : ℕ → Result (Unit {0})

module _ (render : Error → Text) where
  unfoldable pub publish_terminal_error : Manager → Error → ℕ → Manager
  publish_terminal_error m e now = record m {
    status =
        publish m.status (CoreState.stopped (some (StopReason.error (render e)))) none none none
          now;
  }

  -- The error returned is the one given; the one published is that of the whole quarantine.
  unfoldable pub latch_quarantine : Manager → ℕ → Error → ℕ → Manager
  latch_quarantine m epoch e now =
      let quarantine = record_quarantine m.quarantine epoch (render e) in
      let latched = record m { quarantine = quarantine } in
      elim (quarantine_error quarantine) [
        | some shown ↦ publish_terminal_error latched shown now
        | none ↦ latched
      ]

  failure : QuarantinedEpoch → Text → Text
  failure q what = bytes "epoch " ++ show_ℕ q.epoch ++ bytes ": " ++ q.reason ++ what

  -- The second half of the loop's body: the artifacts of an epoch that is proven dead.
  clean_entry : Recovery → Manager → QuarantinedEpoch → Result (Unit {0}) → Manager × List Text
  unfolding retain_others failure
  clean_entry r m q (ok done) = (
    record m {
      quarantine = retain_others q.epoch m.quarantine;
      artifacts = without q.epoch m.artifacts;
    },
    [],
  )
  clean_entry r m q (err e) = (m, failure q (bytes "; artifact cleanup failed: " ++ render e) ∷ [])

  proven : Manager → QuarantinedEpoch → Manager
  unfolding prove_death
  proven m q = record m {
    quarantine = prove_death q.epoch m.quarantine;
    live = without q.epoch m.live;
  }

  reap_entry : Recovery → Manager → QuarantinedEpoch → Result ReapOutcome → Manager × List Text
  unfolding proven clean_entry failure
  reap_entry r m q (ok ReapOutcome.already_exited) =
      clean_entry r (proven m q) q (r.cleanup q.epoch)
  reap_entry r m q (ok ReapOutcome.killed) = clean_entry r (proven m q) q (r.cleanup q.epoch)
  reap_entry r m q (ok ReapOutcome.not_found) =
      (m, failure q (bytes "; authoritative epoch pid record is unavailable") ∷ [])
  reap_entry r m q (err e) = (m, failure q (bytes "; recovery failed: " ++ render e) ∷ [])

  recover_entry : Recovery → Manager → QuarantinedEpoch → Manager × List Text
  unfolding reap_entry clean_entry
  recover_entry r m q =
      if q.death_proven
      then clean_entry r m q (r.cleanup q.epoch)
      else reap_entry r m q (r.reap q.epoch)

  recover_entries : Recovery → Manager → List QuarantinedEpoch → Manager × List Text
  unfolding recover_entry
  recover_entries r m [] = (m, [])
  recover_entries r m (q ∷ qs) =
      let (next, failures) = recover_entry r m q in
      let (last, more) = recover_entries r next qs in (last, failures ++ more)

  abbrev first_epoch : List QuarantinedEpoch → ℕ
  first_epoch [] = 0
  first_epoch (q ∷ qs) = q.epoch

  recover_result : Manager → List Text → ℕ → Manager × Result (Unit {0})
  recover_result m [] now =
      (record m { status = publish m.status (CoreState.stopped none) none none none now }, ok tt)
  recover_result m (f ∷ fs) now =
      (m, err (manager_quarantined (first_epoch m.quarantine) (join (bytes " | ") (f ∷ fs))))

  -- Over the quarantine as it was on entry.
  recover_listed : Manager → Recovery → ℕ → List QuarantinedEpoch → Manager × Result (Unit {0})
  unfolding recover_entries recover_result
  recover_listed m r now [] = (m, ok tt)
  recover_listed m r now (q ∷ qs) =
      let (last, failures) = recover_entries r m (q ∷ qs) in recover_result last failures now

  pub recover_quarantine : Manager → Recovery → ℕ → Manager × Result (Unit {0})
  unfolding recover_listed
  recover_quarantine m r now = recover_listed m r now m.quarantine
