-- ===== src/Capability/Enabled.antt =====
-- When the manager turns local IPC on.
use nyanpasu_service.Prelude.{
  ◌≡◌, refl, sym, ap, ◌∙◌, Bool, true, false, Option, none, some, List, [], ◌∷◌, arith, Bool-cases,
  inl, inr,
}
use nyanpasu_service.Text.{Text}
use nyanpasu_service.Kind.{ClashCoreKind}
use nyanpasu_service.Error.{Result, ok, err, ◌>>=◌}
use nyanpasu_service.State.{Feature, RuntimeFeature}
use nyanpasu_service.Spec.{CoreSpec, LocalIpcPolicy}
use nyanpasu_service.Capability.{
  Release, CoreVersion, Support, floor_of, is_yes, is_empty_list, contains, filter_features,
  resolve_runtime, ResolvedFeatures, since, supports, features, potential_features, with_version,
  resolve_features,
}

module _ (matches : Release → Release → Bool) where
  contains-features :
      (kind : ClashCoreKind) (version : Option CoreVersion) (f : Feature)
      → contains (features matches kind version) f ≡ is_yes (supports matches kind f version)
  unfolding features filter_features contains
  contains-features kind version Feature.named_pipe_ipc = ground arith
  contains-features kind version Feature.unix_socket_ipc = ground arith
  contains-features kind version Feature.disable_tcp_controller = ground arith

  -- Whether a build of a version is known to have what came with a release; `none` never came.
  unfoldable pub speaks : Option Release → CoreVersion → Bool
  speaks none version = false
  speaks (some floor) CoreVersion.nightly = true
  speaks (some floor) CoreVersion.unknown = false
  speaks (some floor) (CoreVersion.release version) = matches floor version

  since-speaks :
      (floor : Release) (v : CoreVersion)
      → is_yes (since matches floor (some v)) ≡ speaks (some floor) v
  unfolding since speaks
  since-speaks floor CoreVersion.nightly = refl
  since-speaks floor CoreVersion.unknown = refl
  since-speaks floor (CoreVersion.release v) = ground arith

  none-speaks : (v : CoreVersion) → false ≡ speaks none v
  unfolding speaks
  none-speaks v = refl

  supports-speaks :
      (kind : ClashCoreKind) (f : Feature) (v : CoreVersion)
      → is_yes (supports matches kind f (some v)) ≡ speaks (floor_of kind f) v
  unfolding supports
  supports-speaks kind f v =
      elim (floor_of kind f)
        as (λ floor.
          is_yes (elim floor [ none ↦ Support.no_support | some at ↦ since matches at (some v) ])
          ≡ speaks floor v) [ none ↦ none-speaks v | some floor ↦ since-speaks floor v ]

  no_potential :
      (kind : ClashCoreKind) (f : Feature)
      → is_empty_list (potential_features matches kind) ≡ true
      → floor_of kind f ≡ none
  unfolding potential_features filter_features supports since floor_of
  no_potential ClashCoreKind.mihomo f h = cc
  no_potential ClashCoreKind.clash_rust f h = cc
  no_potential ClashCoreKind.clash_premium f h = refl
  no_potential ClashCoreKind.meow f h = refl

-- The runtime features of a resolution that succeeds.
abbrev pub enabled : Result ResolvedFeatures → Option (List RuntimeFeature)
enabled (ok resolved) = some resolved.runtime
enabled (err e) = none

abbrev enabled_by : Result (List RuntimeFeature) → Option (List RuntimeFeature)
enabled_by (ok runtime) = some runtime
enabled_by (err e) = none

-- What a policy makes of a transport that is there or not; `none` is a refusal.
abbrev pub decided : LocalIpcPolicy → Bool → Option (List RuntimeFeature)
decided LocalIpcPolicy.force true = some (RuntimeFeature.local_ipc ∷ [])
decided LocalIpcPolicy.force false = none
decided LocalIpcPolicy.prefer true = some (RuntimeFeature.local_ipc ∷ [])
decided LocalIpcPolicy.prefer false = some []
decided LocalIpcPolicy.disable there = some []

resolve_runtime-decided :
    (transport : Feature) (policy : LocalIpcPolicy) (core : CoreSpec) (capabilities : List Feature)
    (version : Option Text)
    → enabled_by (resolve_runtime transport policy core capabilities version)
      ≡ decided policy (contains capabilities transport)
unfolding resolve_runtime
resolve_runtime-decided transport LocalIpcPolicy.force core capabilities version = ground arith
resolve_runtime-decided transport LocalIpcPolicy.prefer core capabilities version = ground arith
resolve_runtime-decided transport LocalIpcPolicy.disable core capabilities version = refl

enabled-bind :
    (capabilities : List Feature) (version : Option Text) (r : Result (List RuntimeFeature))
    → enabled (
        r >>= (λ runtime.
          ok (record { capabilities = capabilities; runtime = runtime; version = version })))
      ≡ enabled_by r
enabled-bind capabilities version (ok runtime) = refl
enabled-bind capabilities version (err e) = refl

module _ (matches : Release → Release → Bool) (parse : Text → CoreVersion)
    (transport : Feature) where
  -- Once the version is known, local IPC is turned on exactly when the policy does not disable it
  -- and the version is of a build that speaks the platform's transport: a nightly one, or a release
  -- that matches the floor of the core kind. Only the policy `Force` refuses a core that does not
  -- speak it.
  pub resolve_features-decided :
      (policy : LocalIpcPolicy) (core : CoreSpec) (version : Text)
      → enabled (resolve_features matches parse transport policy core (ok version))
        ≡ decided policy (speaks matches (floor_of core.kind transport) (parse version))
  unfolding resolve_features with_version contains
  resolve_features-decided policy core version =
      elim (Bool-cases (is_empty_list (potential_features matches core.kind))) [
        | inl never ↦ rw never (
            enabled-bind [] core.version (resolve_runtime transport policy core [] core.version)
            ∙ resolve_runtime-decided transport policy core [] core.version
            ∙ ap (decided policy) (
                none-speaks matches (parse version)
                ∙ ap (λ floor. speaks matches floor (parse version))
                    (sym (no_potential matches core.kind transport never))))
        | inr ever ↦
            let capabilities = features matches core.kind (some (parse version)) in
            rw ever (
              enabled-bind capabilities (some version)
                (resolve_runtime transport policy core capabilities (some version))
              ∙ resolve_runtime-decided transport policy core capabilities (some version)
              ∙ ap (decided policy) (
                  contains-features matches core.kind (some (parse version)) transport
                  ∙ supports-speaks matches core.kind transport (parse version)))
      ]
