-- ===== src/Kind.antt =====
-- crates/nyanpasu-core-metadata/src/kind.rs: the Clash core kinds and their names.
use nyanpasu_service.Text.{Text, bytes}

pub data ClashCoreKind : Type 0 where
  mihomo clash_rust clash_premium meow : ClashCoreKind

-- `AsRef<str>` and `Display`.
unfoldable pub kind_name : ClashCoreKind → Text
kind_name ClashCoreKind.mihomo = bytes "mihomo"
kind_name ClashCoreKind.clash_rust = bytes "clash-rs"
kind_name ClashCoreKind.clash_premium = bytes "clash"
kind_name ClashCoreKind.meow = bytes "meow"
