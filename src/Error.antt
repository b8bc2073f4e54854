-- ===== src/Error.antt =====
-- crates/nyanpasu-core-manager/src/error.rs: the error enum, and the result type over it.
-- An error of another crate (`Process`, `Api`, `Yaml`, `Io`) is carried as its message.
use nyanpasu_service.Prelude.{ℕ, Option}
use nyanpasu_service.Text.{Text}
use nyanpasu_service.State.{RevisionId}
use nyanpasu_service.Kind.{ClashCoreKind}

pub data Error : Type 0 where
  already_running not_started controller_missing : Error
  config_not_found binary_not_found unsafe_runtime_artifact runtime_directory_owned : Text → Error
  core_version_probe_failed : Text → Text → Error
  required_local_ipc_unsupported : ClashCoreKind → Text → Error
  config_check_failed invalid_config invalid_manager_options invalid_health_policy : Text → Error
  stop_unconfirmed : Text → Error
  manager_quarantined : ℕ → Text → Error
  revision_conflict : RevisionId → Option RevisionId → Error
  apply_failed : Text → Error
  apply_rollback_failed : Text → Text → Error
  durability_uncertain : Error → Text → Error
  startup_timeout startup_failed : Text → Error
  process api yaml io : Text → Error

pub data Result {ℓ} (A : Type ℓ) : Type ℓ where
  ok : A → Result A
  err : Error → Result A

infixl 5 ◌>>=◌
abbrev pub ◌>>=◌ {ℓ κ} : {A : Type ℓ} {B : Type κ} → Result A → (A → Result B) → Result B
ok a >>= f = f a
err e >>= f = err e
