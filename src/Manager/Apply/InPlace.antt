-- ===== src/Manager/Apply/InPlace.antt =====
-- `reconcile_in_place` and `patch_and_verify` of crates/nyanpasu-core-manager/src/manager/apply.rs:
-- the running core takes a configuration over through its controller, or does not. The controller's
-- answers are a record; `in_time` says that no timeout of `reconcile_timeout` cut the call short.
use nyanpasu_service.Prelude.{Bool, true, false, if◌then◌else◌}
use nyanpasu_service.Error.{Result, ok, err}

-- `ConfigChange` of config/mihomo.rs, less the patch and its projection.
pub data Change : Type 0 where
  noop patch reload switch : Change

pub record Reconcile : Type 0 where
  pub in_time : Bool
  pub client : Result (Unit {0})
  pub update : Result (Unit {0})
  pub configs : Result (Unit {0})
  pub verified : Result Bool
  pub healthy : Bool

-- The verification of a projection, and the probe behind it.
verify_patch : Reconcile → Result Bool → Bool
verify_patch a (ok matches) = if matches then a.healthy else false
verify_patch a (err e) = false

runtime_answered : Reconcile → Result (Unit {0}) → Bool
unfolding verify_patch
runtime_answered a (ok done) = verify_patch a a.verified
runtime_answered a (err e) = false

-- The answer to the PATCH itself is not trusted, and does not count.
patch_with_client : Reconcile → Result (Unit {0}) → Bool
unfolding runtime_answered
patch_with_client a (ok done) = runtime_answered a a.configs
patch_with_client a (err e) = false

unfoldable pub patch_and_verify : Reconcile → Bool
unfolding patch_with_client
patch_and_verify a = patch_with_client a a.client

reload_with : Reconcile → Result (Unit {0}) → Result (Unit {0}) → Bool
reload_with a (ok done) (ok updated) = a.healthy
reload_with a (ok done) (err e) = false
reload_with a (err e) update = false

reconcile : Reconcile → Change → Bool
unfolding patch_and_verify reload_with
reconcile a Change.patch = patch_and_verify a
reconcile a Change.switch = false
reconcile a Change.noop = true
reconcile a Change.reload = reload_with a a.client a.update

-- `timeout(…, reconcile_in_place(…)).unwrap_or(false)`
unfoldable pub reconcile_in_place : Reconcile → Change → Bool
unfolding reconcile
reconcile_in_place a change = if a.in_time then reconcile a change else false
