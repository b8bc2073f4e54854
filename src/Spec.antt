-- ===== src/Spec.antt =====
-- crates/nyanpasu-core-manager/src/spec.rs: launch specifications. The restart policy and the
-- backoff belong to the supervisor of another crate, and are left out.
use nyanpasu_service.Prelude.{ℕ, Option, List}
use nyanpasu_service.Text.{Text}
use nyanpasu_service.Kind.{ClashCoreKind}
use nyanpasu_service.Health.{HealthPolicy}

pub record CoreSpec : Type 0 where
  pub kind : ClashCoreKind
  pub binary_path : Text
  pub version : Option Text
  pub features : List Text

pub record InstanceOptions : Type 0 where
  pub startup_timeout : ℕ
  pub health : HealthPolicy

pub record InstanceSpec : Type 0 where
  pub core : CoreSpec
  pub config_path : Text
  pub working_dir : Text
  pub pid_file : Option Text
  pub options : InstanceOptions

pub data LocalIpcPolicy : Type 0 where
  force prefer disable : LocalIpcPolicy
