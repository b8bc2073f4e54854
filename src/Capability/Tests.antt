-- ===== src/Capability/Tests.antt =====
-- Two builds of Mihomo against the floor of its Unix socket.
use nyanpasu_service.Prelude.{◌≡◌, Bool, ◌&&◌, ◌||◌, ◌==◌, leb, ltb, none, []}
use nyanpasu_service.Text.{Text, bytes}
use nyanpasu_service.Kind.{ClashCoreKind}
use nyanpasu_service.Error.{ok}
use nyanpasu_service.State.{Feature}
use nyanpasu_service.Spec.{CoreSpec, LocalIpcPolicy}
use nyanpasu_service.Capability.{Release, CoreVersion, floor_of, resolve_features}
use nyanpasu_service.Capability.Enabled.{speaks, enabled, decided, resolve_features-decided}

-- The order of releases.
abbrev at_least : Release → Release → Bool
at_least floor v =
    ltb floor.major v.major
    || (floor.major == v.major
        && (ltb floor.minor v.minor || (floor.minor == v.minor && leb floor.patch v.patch)))

abbrev mihomo : CoreSpec
mihomo = record {
  kind = ClashCoreKind.mihomo;
  binary_path = bytes "/mihomo";
  version = none;
  features = [];
}

abbrev as_1_18_3 : Text → CoreVersion
as_1_18_3 banner = CoreVersion.release (record { major = 1; minor = 18; patch = 3 })

abbrev as_1_18_4 : Text → CoreVersion
as_1_18_4 banner = CoreVersion.release (record { major = 1; minor = 18; patch = 4 })

too_old_is_refused :
    enabled (
      resolve_features at_least as_1_18_3 Feature.unix_socket_ipc LocalIpcPolicy.force mihomo
        (ok (bytes "v1.18.3")))
    ≡ none
unfolding floor_of speaks
too_old_is_refused =
    resolve_features-decided at_least as_1_18_3 Feature.unix_socket_ipc LocalIpcPolicy.force mihomo
      (bytes "v1.18.3")

resolve_features-decided_example :
    enabled (
      resolve_features at_least as_1_18_4 Feature.unix_socket_ipc LocalIpcPolicy.prefer mihomo
        (ok (bytes "v1.18.4")))
    ≡ decided LocalIpcPolicy.prefer (
        speaks at_least
          (floor_of mihomo.kind Feature.unix_socket_ipc)
          (as_1_18_4 (bytes "v1.18.4")))
resolve_features-decided_example =
    resolve_features-decided at_least as_1_18_4 Feature.unix_socket_ipc LocalIpcPolicy.prefer mihomo
      (bytes "v1.18.4")
