-- ===== src/Manager/Apply/Report.antt =====
-- What is owed for the answer of an application.
use Prim.Native.Nat.{◌^◌, ◌%◌}
use nyanpasu_service.Prelude.{◌+◌, ◌≡◌, Bool, true, false, Option, none, some, ◌⊎◌}
use nyanpasu_service.Error.{Result, ok, err}
use nyanpasu_service.State.{CoreState, StopReason, ConfigRevision}
use nyanpasu_service.Manager.Ctrl.{Active, Manager}
use nyanpasu_service.Manager.Apply.{ApplyOutcome}

abbrev pub outcome_revision : ApplyOutcome → ConfigRevision
outcome_revision (ApplyOutcome.noop r) = r
outcome_revision (ApplyOutcome.patched r) = r
outcome_revision (ApplyOutcome.reloaded r) = r
outcome_revision (ApplyOutcome.restarted r) = r
outcome_revision (ApplyOutcome.switched r) = r
outcome_revision (ApplyOutcome.rolled_back r failed) = r
outcome_revision (ApplyOutcome.durability_uncertain outcome warning) = outcome_revision outcome

-- The same epoch, one generation on.
abbrev pub Successor : ConfigRevision → ConfigRevision → Type 0
Successor r old = (r.epoch ≡ old.epoch) × (r.generation ≡ (old.generation + 1) % 2 ^ 64)

-- How the revision of an outcome stands to the one before.
abbrev pub Follows : ApplyOutcome → ConfigRevision → Type 0
Follows (ApplyOutcome.noop r) old = r ≡ old
Follows (ApplyOutcome.patched r) old = Successor r old
Follows (ApplyOutcome.reloaded r) old = Successor r old
Follows (ApplyOutcome.restarted r) old = Successor r old
Follows (ApplyOutcome.switched r) old = r.generation ≡ 1
Follows (ApplyOutcome.rolled_back r failed) old = r ≡ old
Follows (ApplyOutcome.durability_uncertain outcome warning) old = Follows outcome old

abbrev pub revision_of : Option Active → Option ConfigRevision
revision_of none = none
revision_of (some active) = some active.revision

abbrev pub is_error_stop : CoreState → Bool
is_error_stop (CoreState.stopped (some (StopReason.error message))) = true
is_error_stop state = false

-- No core is current, and the error that ended it is published.
abbrev pub Gone : Manager → Type 0
Gone m = (m.current ≡ none) × (is_error_stop m.status.state ≡ true)

-- Nothing changed but the counter of epochs and the files of a new one.
abbrev pub Untouched : Manager → Manager → Type 0
Untouched m after =
    (after.current ≡ m.current)
    × (after.status ≡ m.status)
    × (after.last_spec ≡ m.last_spec)
    × (after.quarantine ≡ m.quarantine)
    × (after.live ≡ m.live)

abbrev pub Followed : ApplyOutcome → Option ConfigRevision → Type 0
Followed outcome none = ⊥
Followed outcome (some old) = Follows outcome old

abbrev pub Reported : Manager → Manager × Result ApplyOutcome → Type 0
Reported m (after, ok outcome) =
    (revision_of after.current ≡ some (outcome_revision outcome))
    × Followed outcome (revision_of m.current)
Reported m (after, err e) = Untouched m after ⊎ Gone after

-- The same, once the old instance was taken.
abbrev pub Compensated : ConfigRevision → Manager × Result ApplyOutcome → Type 0
Compensated old (after, ok outcome) =
    (revision_of after.current ≡ some (outcome_revision outcome)) × Follows outcome old
Compensated old (after, err e) = Gone after
