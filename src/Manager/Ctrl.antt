-- ===== src/Manager/Ctrl.antt =====
-- The manager's control state: `Inner`, `Ctrl`, `Active` and `QuarantinedEpoch` of
-- crates/nyanpasu-core-manager/src/manager/mod.rs, with the artifacts of its store by epoch. Two
-- fields are not the program's: `live` is the epochs whose process may be alive, and `artifacts`
-- the epochs with files in the runtime directory.
use nyanpasu_service.Prelude.{ℕ, Bool, Option, List, [], ◌∷◌, ◌==◌, if◌then◌else◌}
use nyanpasu_service.Text.{Text}
use nyanpasu_service.State.{
  Feature, RuntimeFeature, InstanceStatus, ConfigRevision, Host, CoreStatus,
}
use nyanpasu_service.Spec.{InstanceSpec}

pub record QuarantinedEpoch : Type 0 where
  pub epoch : ℕ
  pub reason : Text
  pub death_proven : Bool

-- An instance as the manager sees it.
pub record Instance : Type 0 where
  pub epoch : ℕ
  pub status : InstanceStatus
  pub host : Host

pub record Active : Type 0 where
  pub instance_of : Instance
  pub source_spec : InstanceSpec
  pub revision : ConfigRevision
  pub capabilities : List Feature
  pub runtime_features : List RuntimeFeature

pub record Manager : Type 0 where
  pub current : Option Active
  pub last_spec : Option InstanceSpec
  pub quarantine : List QuarantinedEpoch
  pub status : CoreStatus
  pub epoch : ℕ  -- AtomicU64
  pub log_sink : Bool
  pub artifacts : List ℕ
  pub live : List ℕ

-- `retain(|e| e != epoch)`
unfoldable pub without : ℕ → List ℕ → List ℕ
without epoch [] = []
without epoch (e ∷ es) = let rest = without epoch es in if e == epoch then rest else e ∷ rest
