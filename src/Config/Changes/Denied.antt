-- ===== src/Config/Changes/Denied.antt =====
-- What no table lists takes a new process.
use nyanpasu_service.Prelude.{
  ◌≡◌, refl, Bool, true, false, List, [], ◌∷◌, ◌++◌, arith, Bool-cases, inl, inr,
}
use nyanpasu_service.Text.{Text}
use nyanpasu_service.Kind.{ClashCoreKind}
use nyanpasu_service.Error.{Result, ok}
use nyanpasu_service.Manager.Apply.InPlace.{Change}
use nyanpasu_service.Manager.Switching.{is_mihomo}
use nyanpasu_service.Config.Fields.{patch_fields, reload_fields}
use nyanpasu_service.Config.Changes.{
  DiffEntry, contains, first_in, patchable, reloadable, touches_controller, every, any,
  has_no_entry, classify_documents, classify,
}

-- The root of the path is in neither table of what a running core takes over.
abbrev pub IsUnlisted : List Text → Type 0
IsUnlisted [] = Unit
IsUnlisted (root ∷ rest) =
    (contains patch_fields root ≡ false) × (contains reload_fields root ≡ false)

first_in_unlisted :
    (path : List Text)
    → IsUnlisted path
    → (first_in patch_fields path ≡ false) × (first_in reload_fields path ≡ false)
unfolding first_in
first_in_unlisted [] h = (refl, refl)
first_in_unlisted (root ∷ rest) h = h

module _ {V : Type 0} where
  every_fails :
      (test : DiffEntry V → Bool) (before : List (DiffEntry V)) (e : DiffEntry V)
      (after : List (DiffEntry V))
      → test e ≡ false
      → every test (before ++ (e ∷ after)) ≡ false
  unfolding every
  every_fails test [] e after h = rw h refl
  every_fails test (b ∷ bs) e after h = ground (arith, every_fails test bs e after h)

  unlisted_not_patchable : (e : DiffEntry V) → IsUnlisted e.path → patchable e ≡ false
  unfolding patchable
  unlisted_not_patchable e h = ground (arith, first_in_unlisted e.path h)

  unlisted_not_reloadable : (e : DiffEntry V) → IsUnlisted e.path → reloadable e ≡ false
  unfolding reloadable
  unlisted_not_reloadable e h = ground (arith, first_in_unlisted e.path h)

  classify_documents_cases :
      (build_patch : List (DiffEntry V) → Result Bool) (dns_listen_changed : Bool) (e : DiffEntry V)
      (es : List (DiffEntry V))
      → every patchable (e ∷ es) ≡ false
      → every reloadable (e ∷ es) ≡ false
      → classify_documents build_patch dns_listen_changed (e ∷ es) ≡ ok Change.switch
  unfolding classify_documents
  classify_documents_cases build_patch true e es p r = refl
  classify_documents_cases build_patch false e es p r = rw (p, r) refl

  classify_documents_unlisted :
      (build_patch : List (DiffEntry V) → Result Bool) (dns_listen_changed : Bool)
      (before : List (DiffEntry V)) (e : DiffEntry V) (after : List (DiffEntry V))
      → IsUnlisted e.path
      → classify_documents build_patch dns_listen_changed (before ++ (e ∷ after)) ≡ ok Change.switch
  classify_documents_unlisted build_patch dns_listen_changed [] e after h =
      classify_documents_cases build_patch dns_listen_changed e after
        (every_fails patchable [] e after (unlisted_not_patchable e h))
        (every_fails reloadable [] e after (unlisted_not_reloadable e h))
  classify_documents_unlisted build_patch dns_listen_changed (b ∷ bs) e after h =
      classify_documents_cases build_patch dns_listen_changed b (bs ++ (e ∷ after))
        (every_fails patchable (b ∷ bs) e after (unlisted_not_patchable e h))
        (every_fails reloadable (b ∷ bs) e after (unlisted_not_reloadable e h))

  has_entry :
      (before : List (DiffEntry V)) (e : DiffEntry V) (after : List (DiffEntry V))
      → has_no_entry (before ++ (e ∷ after)) ≡ false
  unfolding has_no_entry
  has_entry [] e after = refl
  has_entry (b ∷ bs) e after = refl

  -- Denied by default: where the effective documents differ at a path whose root is in neither
  -- table, or at the root of the document, the change takes a switch to a new process, whatever else
  -- differs, for every kind of core and whatever patch could be built.
  pub classify_unlisted :
      (build_patch : List (DiffEntry V) → Result Bool) (process_spec_changed : Bool)
      (kind : ClashCoreKind) (dns_listen_changed : Bool) (source_diff before : List (DiffEntry V))
      (e : DiffEntry V) (after : List (DiffEntry V))
      → IsUnlisted e.path
      → classify build_patch process_spec_changed kind dns_listen_changed source_diff
          (before ++ (e ∷ after))
        ≡ ok Change.switch
  unfolding classify
  classify_unlisted build_patch true kind dns_listen_changed source_diff before e after h = refl
  classify_unlisted build_patch false kind dns_listen_changed source_diff before e after h =
      elim (Bool-cases (is_mihomo kind)) [
        | inl t ↦ elim (Bool-cases (any touches_controller source_diff)) [
          | inl u ↦ rw (t, u) refl
          | inr u ↦
              rw (t, u)
                (classify_documents_unlisted build_patch dns_listen_changed before e after h)
        ]
        | inr t ↦ elim (Bool-cases (has_no_entry source_diff)) [
          | inl u ↦ rw (t, u, has_entry before e after) refl
          | inr u ↦ rw (t, u) refl
        ]
      ]
