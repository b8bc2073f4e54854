-- ===== src/Config/Changes/Tests.antt =====
-- Changes of a document of mihomo.
use nyanpasu_service.Prelude.{ℕ, ◌≡◌, refl, Bool, true, false, some, List, [], ◌∷◌, ◌++◌}
use nyanpasu_service.Text.{Text, bytes, same_text}
use nyanpasu_service.Kind.{ClashCoreKind}
use nyanpasu_service.Error.{Result, ok}
use nyanpasu_service.Manager.Apply.InPlace.{Change}
use nyanpasu_service.Config.Changes.{DiffEntry, contains, classify}
use nyanpasu_service.Config.Changes.Denied.{classify_unlisted}

abbrev builds : List (DiffEntry ℕ) → Result Bool
builds changes = ok true

abbrev entry : Text → DiffEntry ℕ
entry root = record { path = root ∷ []; new = some 1 }

mode_is_patched :
    classify builds false ClashCoreKind.mihomo false [] (entry (bytes "mode") ∷ [])
    ≡ ok Change.patch
unfolding classify same_text contains
mode_is_patched = refl

rules_are_reloaded :
    classify builds false ClashCoreKind.mihomo false [] (entry (bytes "rules") ∷ [])
    ≡ ok Change.reload
unfolding classify same_text contains
rules_are_reloaded = refl

classify_unlisted_example :
    classify builds false ClashCoreKind.mihomo false []
      ((entry (bytes "mode") ∷ []) ++ (entry (bytes "profile") ∷ []))
    ≡ ok Change.switch
unfolding same_text contains
classify_unlisted_example =
    classify_unlisted builds false ClashCoreKind.mihomo false [] (entry (bytes "mode") ∷ [])
      (entry (bytes "profile")) [] (refl, refl)
