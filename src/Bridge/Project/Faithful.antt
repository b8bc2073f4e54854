-- ===== src/Bridge/Project/Faithful.antt =====
-- What a client learns over the wire is true of the manager.
use nyanpasu_service.Prelude.{
  ◌≡◌, refl, sym, ap, ◌∙◌, Bool, true, false, Option, none, some, ◌↔◌, arith,
}
use nyanpasu_service.Text.{Text}
use nyanpasu_service.Error.{Error, Result, ok, err}
use nyanpasu_service.State.{ConfigRevision, RevisionId, revision_id}
use nyanpasu_service.Manager.Ctrl.{Manager}
use nyanpasu_service.Manager.Apply.{Apply, ApplyOutcome, conflict, apply_config}
use nyanpasu_service.Manager.Apply.Report.{
  outcome_revision, Follows, Followed, revision_of, Reported,
}
use nyanpasu_service.Manager.Apply.Outcome.{apply_config-Reported}
use nyanpasu_service.Bridge.Wire.{revision_info_id, ApplyOutcomeKind}
use nyanpasu_service.Bridge.Project.{
  map_revision, map_revision_id, innermost, warnings_of, joined, data_of, map_apply_outcome, mapped,
}

conflict_decides :
    (expected actual : RevisionId) → (conflict (some expected) actual ≡ ok tt) ↔ (expected ≡ actual)
unfolding conflict
conflict_decides expected actual = ground arith

-- The token that a client takes from a published revision and sends back with an application is
-- accepted exactly where the core still runs a revision of the same identity: the trip over the wire
-- neither lets a stale token pass nor refuses a current one.
pub token_decides :
    (published current : ConfigRevision)
    → (conflict
          (some (map_revision_id (revision_info_id (map_revision published))))
          (revision_id current)
        ≡ ok tt)
      ↔ (revision_id published ≡ revision_id current)
unfolding map_revision map_revision_id
token_decides published current = conflict_decides (revision_id published) (revision_id current)

innermost-revision :
    (outcome : ApplyOutcome) (warning : Option Text)
    → (innermost outcome warning).revision ≡ map_revision (outcome_revision outcome)
unfolding innermost data_of
innermost-revision (ApplyOutcome.noop r) warning = refl
innermost-revision (ApplyOutcome.patched r) warning = refl
innermost-revision (ApplyOutcome.reloaded r) warning = refl
innermost-revision (ApplyOutcome.restarted r) warning = refl
innermost-revision (ApplyOutcome.switched r) warning = refl
innermost-revision (ApplyOutcome.rolled_back r failed) warning = refl
innermost-revision (ApplyOutcome.durability_uncertain outcome w) warning =
    innermost-revision outcome warning

-- The kinds of an answer that say that the core runs what it ran before.
abbrev pub is_kept : ApplyOutcomeKind → Bool
is_kept ApplyOutcomeKind.noop = true
is_kept ApplyOutcomeKind.rolled_back = true
is_kept kind = false

innermost-kept :
    (outcome : ApplyOutcome) (warning : Option Text) (old : ConfigRevision)
    → is_kept (innermost outcome warning).outcome ≡ true
    → Follows outcome old
    → outcome_revision outcome ≡ old
unfolding innermost data_of
innermost-kept (ApplyOutcome.noop r) warning old k f = f
innermost-kept (ApplyOutcome.patched r) warning old k f = cc
innermost-kept (ApplyOutcome.reloaded r) warning old k f = cc
innermost-kept (ApplyOutcome.restarted r) warning old k f = cc
innermost-kept (ApplyOutcome.switched r) warning old k f = cc
innermost-kept (ApplyOutcome.rolled_back r failed) warning old k f = f
innermost-kept (ApplyOutcome.durability_uncertain outcome w) warning old k f =
    innermost-kept outcome warning old k f

kept_before :
    (outcome : ApplyOutcome) (warning : Option Text) (old : Option ConfigRevision)
    → is_kept (innermost outcome warning).outcome ≡ true
    → Followed outcome old
    → mapped map_revision old ≡ some (map_revision (outcome_revision outcome))
kept_before outcome warning none k f = absurd f
kept_before outcome warning (some old) k f =
    ap (λ r. some (map_revision r)) (sym (innermost-kept outcome warning old k f))

abbrev pub Told : Manager → Manager × Result ApplyOutcome → Type 0
Told m (after, ok outcome) =
    let told = map_apply_outcome outcome in
    (mapped map_revision (revision_of after.current) ≡ some told.revision)
    × (is_kept told.outcome ≡ true
        → mapped map_revision (revision_of m.current) ≡ some told.revision)
Told m (after, err e) = Unit

Reported-Told : (m : Manager) (r : Manager × Result ApplyOutcome) → Reported m r → Told m r
unfolding map_apply_outcome
Reported-Told m (after, err e) h = tt
Reported-Told m (after, ok outcome) h =
    let warning = joined (warnings_of outcome) in
    let same = ap some (sym (innermost-revision outcome warning)) in
    (
      ap (mapped map_revision) h.0 ∙ same,
      λ k. kept_before outcome warning (revision_of m.current) k h.1 ∙ same,
    )

-- What the client is told of an application that succeeded is true, through any number of durability
-- warnings: the revision in the answer is that of the core that is now current, and where the kind
-- is Noop or RolledBack it is that of the core that was current before.
pub apply_config-Told :
    (render : Error → Text) (m : Manager) (a : Apply) → Told m (apply_config render m a)
apply_config-Told render m a =
    Reported-Told m (apply_config render m a) (apply_config-Reported render m a)
