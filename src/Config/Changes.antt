-- ===== src/Config/Changes.antt =====
-- What a change of a configuration takes: `classify` and `classify_documents` of
-- crates/nyanpasu-core-manager/src/config/mihomo.rs over the differences that `diff` found. Whether
-- the process specification or `dns.listen` changed is an argument, as is what `build_patch` makes
-- of the differences: a patch, or none.
pub mod Denied
mod Tests
use nyanpasu_service.Prelude.{
  Bool, true, false, ◌&&◌, ◌||◌, not, Option, none, some, List, [], ◌∷◌, if◌then◌else◌,
}
use nyanpasu_service.Text.{Text, bytes, same_text}
use nyanpasu_service.Kind.{ClashCoreKind}
use nyanpasu_service.Error.{Result, ok, err}
use nyanpasu_service.Manager.Apply.InPlace.{Change}
use nyanpasu_service.Manager.Switching.{is_mihomo}
use nyanpasu_service.Config.Fields.{
  patch_fields, tun_patch_fields, tuic_server_patch_fields, reload_fields, controller_fields,
}

pub record DiffEntry (V : Type 0) : Type 0 where
  pub path : List Text
  pub new : Option V

unfoldable pub contains : List Text → Text → Bool
contains [] text = false
contains (field ∷ fields) text = same_text text field || contains fields text

is_nil : List Text → Bool
is_nil [] = true
is_nil (t ∷ ts) = false

first_in : List Text → List Text → Bool
unfolding contains
first_in fields [] = false
first_in fields (field ∷ rest) = contains fields field

patch_nested_path_is_supported : List Text → Bool
unfolding first_in is_nil
patch_nested_path_is_supported [] = false
patch_nested_path_is_supported (root ∷ rest) =
    if same_text root (bytes "tun")
    then first_in tun_patch_fields rest
    else if same_text root (bytes "tuic-server")
    then first_in tuic_server_patch_fields rest
    else is_nil rest

is_dns_listen : List Text → Bool
unfolding first_in
is_dns_listen [] = false
is_dns_listen (root ∷ rest) = same_text root (bytes "dns") && first_in (bytes "listen" ∷ []) rest

whole_dns : List Text → Bool
unfolding is_nil
whole_dns [] = false
whole_dns (root ∷ rest) = same_text root (bytes "dns") && is_nil rest

built : Result Bool → Result Change
built (ok true) = ok Change.patch
built (ok false) = ok Change.switch
built (err e) = err e

module _ {V : Type 0} where
  has_value : Option V → Bool
  has_value none = false
  has_value (some value) = true

  patchable : DiffEntry V → Bool
  unfolding has_value first_in patch_nested_path_is_supported
  patchable entry =
      has_value entry.new
      && (first_in patch_fields entry.path && patch_nested_path_is_supported entry.path)

  reloadable : DiffEntry V → Bool
  unfolding first_in is_dns_listen whole_dns
  reloadable entry =
      first_in reload_fields entry.path
      && (not (is_dns_listen entry.path) && not (whole_dns entry.path))

  touches_controller : DiffEntry V → Bool
  unfolding first_in is_dns_listen
  touches_controller entry = first_in controller_fields entry.path || is_dns_listen entry.path

  every : (DiffEntry V → Bool) → List (DiffEntry V) → Bool
  every test [] = true
  every test (e ∷ es) = test e && every test es

  any : (DiffEntry V → Bool) → List (DiffEntry V) → Bool
  any test [] = false
  any test (e ∷ es) = test e || any test es

  has_no_entry : List (DiffEntry V) → Bool
  has_no_entry [] = true
  has_no_entry (e ∷ es) = false

  unfoldable pub classify_documents :
      (List (DiffEntry V) → Result Bool) → Bool → List (DiffEntry V) → Result Change
  unfolding patchable reloadable every built
  classify_documents build_patch dns_listen_changed [] =
      if dns_listen_changed then ok Change.switch else ok Change.noop
  classify_documents build_patch dns_listen_changed (e ∷ es) =
      if dns_listen_changed
      then ok Change.switch
      else if every patchable (e ∷ es)
      then built (build_patch (e ∷ es))
      else if every reloadable (e ∷ es)
      then ok Change.reload
      else ok Change.switch

  -- The differences of the source documents, then of the effective ones.
  unfoldable pub classify :
      (List (DiffEntry V) → Result Bool)
      → Bool
      → ClashCoreKind
      → Bool
      → List (DiffEntry V)
      → List (DiffEntry V)
      → Result Change
  unfolding classify_documents touches_controller any has_no_entry
  classify build_patch process_spec_changed kind dns_listen_changed source_diff effective_diff =
      if process_spec_changed
      then ok Change.switch
      else if not (is_mihomo kind)
      then (if has_no_entry source_diff && has_no_entry effective_diff
          then ok Change.noop
          else ok Change.switch)
      else if any touches_controller source_diff
      then ok Change.switch
      else classify_documents build_patch dns_listen_changed effective_diff
