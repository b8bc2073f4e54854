-- ===== src/Capability.antt =====
-- Which local transport a core may use: nyanpasu-core-metadata/src/feature.rs and feature/clash.rs,
-- and crates/nyanpasu-core-manager/src/capability.rs. Version requirements and their test belong to
-- the semver crate: a requirement is the release of its `>=`, and `matches` is a parameter, as is
-- the parser of version banners, which stands on that crate.
mod Enabled
mod Tests
use native.Mathlib.Decide.{ℕ_discrete}
use mathlib.Core.Logic.{ite}
use nyanpasu_service.Prelude.{
  ℕ, Bool, true, false, ◌&&◌, ◌==◌, not, Option, none, some, List, [], ◌∷◌, if◌then◌else◌,
}
use nyanpasu_service.Text.{Text, bytes}
use nyanpasu_service.Kind.{ClashCoreKind}
use nyanpasu_service.Error.{
  Error, Result, ok, err, ◌>>=◌, core_version_probe_failed, required_local_ipc_unsupported,
}
use nyanpasu_service.State.{Feature, RuntimeFeature}
use nyanpasu_service.Spec.{CoreSpec, LocalIpcPolicy}

-- `semver::Version::new`
pub record Release : Type 0 where
  pub major : ℕ
  pub minor : ℕ
  pub patch : ℕ

pub data CoreVersion : Type 0 where
  release : Release → CoreVersion
  nightly unknown : CoreVersion

pub data Support : Type 0 where
  yes_support no_support : Support
  since_release : Release → Support

abbrev from : ℕ → ℕ → ℕ → Release
from major minor patch = record { major = major; minor = minor; patch = patch }

abbrev is_yes : Support → Bool
is_yes Support.yes_support = true
is_yes Support.no_support = false
is_yes (Support.since_release floor) = false

abbrev is_no : Support → Bool
is_no Support.yes_support = false
is_no Support.no_support = true
is_no (Support.since_release floor) = false

-- `EnumSet::all()`
abbrev all_features : List Feature
all_features =
    Feature.named_pipe_ipc ∷ Feature.unix_socket_ipc ∷ Feature.disable_tcp_controller ∷ []

-- `iter().filter(..)`
filter_features : (Feature → Bool) → List Feature → List Feature
filter_features keep [] = []
filter_features keep (f ∷ fs) =
    let rest = filter_features keep fs in if keep f then f ∷ rest else rest

-- The release from which a kind has a transport; `none` where it has none.
unfoldable pub floor_of : ClashCoreKind → Feature → Option Release
floor_of ClashCoreKind.mihomo Feature.named_pipe_ipc = some (from 1 18 9)
floor_of ClashCoreKind.mihomo Feature.unix_socket_ipc = some (from 1 18 4)
floor_of ClashCoreKind.mihomo Feature.disable_tcp_controller = none
floor_of ClashCoreKind.clash_rust Feature.named_pipe_ipc = some (from 0 9 7)
floor_of ClashCoreKind.clash_rust Feature.unix_socket_ipc = some (from 0 9 1)
floor_of ClashCoreKind.clash_rust Feature.disable_tcp_controller = none
floor_of ClashCoreKind.clash_premium feature = none
floor_of ClashCoreKind.meow feature = none

abbrev pub same_feature : Feature → Feature → Bool
same_feature Feature.named_pipe_ipc Feature.named_pipe_ipc = true
same_feature Feature.unix_socket_ipc Feature.unix_socket_ipc = true
same_feature Feature.disable_tcp_controller Feature.disable_tcp_controller = true
same_feature f g = false

-- `EnumSet::contains`
pub contains : List Feature → Feature → Bool
contains [] f = false
contains (g ∷ gs) f = if same_feature g f then true else contains gs f

abbrev or_else : Option Text → Option Text → Text
or_else (some version) declared = version
or_else none (some declared) = declared
or_else none none = bytes "unknown"

-- `resolve_runtime`, for the transport of the platform.
pub resolve_runtime :
    Feature → LocalIpcPolicy → CoreSpec → List Feature → Option Text → Result (List RuntimeFeature)
unfolding contains
resolve_runtime transport LocalIpcPolicy.force core capabilities version =
    if contains capabilities transport
    then ok (RuntimeFeature.local_ipc ∷ [])
    else err (required_local_ipc_unsupported core.kind (or_else version core.version))
resolve_runtime transport LocalIpcPolicy.prefer core capabilities version =
    if contains capabilities transport then ok (RuntimeFeature.local_ipc ∷ []) else ok []
resolve_runtime transport LocalIpcPolicy.disable core capabilities version = ok []

pub record ResolvedFeatures : Type 0 where
  pub capabilities : List Feature
  pub runtime : List RuntimeFeature
  pub version : Option Text

abbrev is_empty_list : List Feature → Bool
is_empty_list [] = true
is_empty_list (f ∷ fs) = false

module _ (matches : Release → Release → Bool) where
  -- `since`; `matches floor version` is `VersionReq::matches`.
  since : Release → Option CoreVersion → Support
  since floor (some (CoreVersion.release version)) =
      if matches floor version then Support.yes_support else Support.no_support
  since floor (some CoreVersion.nightly) = Support.yes_support
  since floor (some CoreVersion.unknown) = Support.no_support
  since floor none = Support.since_release floor

  pub supports : ClashCoreKind → Feature → Option CoreVersion → Support
  unfolding since
  supports kind feature version = elim (floor_of kind feature) [
    | none ↦ Support.no_support
    | some floor ↦ since floor version
  ]

  pub features : ClashCoreKind → Option CoreVersion → List Feature
  unfolding filter_features supports
  features kind version = filter_features (λ f. is_yes (supports kind f version)) all_features

  pub potential_features : ClashCoreKind → List Feature
  unfolding filter_features supports
  potential_features kind = filter_features (λ f. not (is_no (supports kind f none))) all_features

  -- `resolve_features`, over the version that the cache resolves.
  module _ (parse : Text → CoreVersion) (transport : Feature) where
    with_version : LocalIpcPolicy → CoreSpec → Text → Result ResolvedFeatures
    with_version policy core version =
        let capabilities = features core.kind (some (parse version)) in
        resolve_runtime transport policy core capabilities (some version) >>= (λ runtime.
          ok (record { capabilities = capabilities; runtime = runtime; version = some version }))

    pub resolve_features : LocalIpcPolicy → CoreSpec → Result Text → Result ResolvedFeatures
    unfolding with_version
    resolve_features policy core resolved =
        if is_empty_list (potential_features core.kind)
        then resolve_runtime transport policy core [] core.version >>= (λ runtime.
          ok (record { capabilities = []; runtime = runtime; version = core.version }))
        else resolved >>= (λ version. with_version policy core version)
