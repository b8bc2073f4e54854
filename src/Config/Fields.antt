-- ===== src/Config/Fields.antt =====
-- The field tables of crates/nyanpasu-core-manager/src/config/mihomo.rs, and CONTROLLER_FIELDS of
-- config/clash.rs beside it.
use nyanpasu_service.Prelude.{List, [], ◌∷◌}
use nyanpasu_service.Text.{Text, bytes}

-- `PATCH_FIELDS`
abbrev pub patch_fields : List Text
patch_fields =
    bytes "port"
    ∷ bytes "socks-port"
    ∷ bytes "redir-port"
    ∷ bytes "tproxy-port"
    ∷ bytes "mixed-port"
    ∷ bytes "tun"
    ∷ bytes "tuic-server"
    ∷ bytes "ss-config"
    ∷ bytes "vmess-config"
    ∷ bytes "tcptun-config"
    ∷ bytes "udptun-config"
    ∷ bytes "allow-lan"
    ∷ bytes "skip-auth-prefixes"
    ∷ bytes "lan-allowed-ips"
    ∷ bytes "lan-disallowed-ips"
    ∷ bytes "bind-address"
    ∷ bytes "mode"
    ∷ bytes "log-level"
    ∷ bytes "ipv6"
    ∷ bytes "sniffing"
    ∷ bytes "tcp-concurrent"
    ∷ bytes "find-process-mode"
    ∷ bytes "interface-name"
    ∷ []

-- `TUN_PATCH_FIELDS`
abbrev pub tun_patch_fields : List Text
tun_patch_fields =
    bytes "enable"
    ∷ bytes "device"
    ∷ bytes "stack"
    ∷ bytes "dns-hijack"
    ∷ bytes "auto-route"
    ∷ bytes "auto-detect-interface"
    ∷ bytes "mtu"
    ∷ bytes "gso"
    ∷ bytes "gso-max-size"
    ∷ bytes "inet6-address"
    ∷ bytes "iproute2-table-index"
    ∷ bytes "iproute2-rule-index"
    ∷ bytes "auto-redirect"
    ∷ bytes "auto-redirect-input-mark"
    ∷ bytes "auto-redirect-output-mark"
    ∷ bytes "auto-redirect-iproute2-fallback-rule-index"
    ∷ bytes "loopback-address"
    ∷ bytes "strict-route"
    ∷ bytes "route-address"
    ∷ bytes "route-address-set"
    ∷ bytes "route-exclude-address"
    ∷ bytes "route-exclude-address-set"
    ∷ bytes "include-interface"
    ∷ bytes "exclude-interface"
    ∷ bytes "include-uid"
    ∷ bytes "include-uid-range"
    ∷ bytes "exclude-uid"
    ∷ bytes "exclude-uid-range"
    ∷ bytes "include-android-user"
    ∷ bytes "include-package"
    ∷ bytes "exclude-package"
    ∷ bytes "include-mac-address"
    ∷ bytes "exclude-mac-address"
    ∷ bytes "endpoint-independent-nat"
    ∷ bytes "udp-timeout"
    ∷ bytes "icmp-timeout"
    ∷ bytes "file-descriptor"
    ∷ bytes "inet4-route-address"
    ∷ bytes "inet6-route-address"
    ∷ bytes "inet4-route-exclude-address"
    ∷ bytes "inet6-route-exclude-address"
    ∷ bytes "recvmsgx"
    ∷ bytes "sendmsgx"
    ∷ []

-- `TUIC_SERVER_PATCH_FIELDS`
abbrev pub tuic_server_patch_fields : List Text
tuic_server_patch_fields =
    bytes "enable"
    ∷ bytes "listen"
    ∷ bytes "token"
    ∷ bytes "users"
    ∷ bytes "certificate"
    ∷ bytes "private-key"
    ∷ bytes "congestion-controller"
    ∷ bytes "max-idle-time"
    ∷ bytes "authentication-timeout"
    ∷ bytes "alpn"
    ∷ bytes "max-udp-relay-packet-size"
    ∷ bytes "cwnd"
    ∷ bytes "bbr-profile"
    ∷ []

-- `RELOAD_FIELDS`
abbrev pub reload_fields : List Text
reload_fields =
    bytes "proxies"
    ∷ bytes "proxy-groups"
    ∷ bytes "proxy-providers"
    ∷ bytes "rule-providers"
    ∷ bytes "providers"
    ∷ bytes "rules"
    ∷ bytes "hosts"
    ∷ bytes "dns"
    ∷ []

-- `CONTROLLER_FIELDS`
abbrev pub controller_fields : List Text
controller_fields =
    bytes "external-controller"
    ∷ bytes "external-controller-pipe"
    ∷ bytes "external-controller-unix"
    ∷ bytes "secret"
    ∷ []
