-- ===== src/Deployer/Kubernetes/Api.antt =====
-- The calls that the deployers of fiaas_deploy_daemon/deployer/kubernetes make on one kind of object
-- in the cluster, and `retry_on_upsert_conflict` of fiaas_deploy_daemon/retry.py.
use fiaas_deploy_daemon.Base.{
  String, eqb, if◌then◌else◌, not_found, client_error, upsert_conflict, Eff,
}
use fiaas_deploy_daemon.Base.Effect.{◌>>=◌, try_catch, throw, return}
use fiaas_deploy_daemon.Base.Dict.{Dict}
use fiaas_deploy_daemon.Deployer.Spec.{AppSpec}

-- The fields of an `ObjectMeta` that the deployers give.
pub record Metadata : Type 0 where
  pub name : String
  pub namespace : String
  pub labels : Dict String
  pub annotations : Dict String

-- One kind of object, with its specification and the object itself: the class methods of its model,
-- `OwnerReferences.apply` and `ExtensionHookCaller.apply`, and `save`.
pub record ResourceApi (S Spec Object : Type 0) : Type 0 where
  pub get_spec : String → String → Eff S Spec
  pub get_or_create : Metadata → Spec → Eff S Object
  pub apply_owner_references : Object → AppSpec → Eff S Object
  pub apply_extension_hook : Object → AppSpec → Eff S Object
  pub save : Object → Eff S (Unit {0})
  pub delete : String → String → Eff S (Unit {0})

module _ {S : Type 0} where
  -- `_wrap` of `retry_on_upsert_conflict`
  unfoldable pub conflict_as_error : Eff S (Unit {0}) → Eff S (Unit {0})
  conflict_as_error func = try_catch func (λ e. elim e [
    | client_error status ↦
        if eqb status 409 then throw upsert_conflict else throw (client_error status)
    | e ↦ throw e
  ])

  -- `retry_on_upsert_conflict`, where `on_exception` is what `backoff.on_exception` makes of a function.
  unfoldable pub retry_on_upsert_conflict :
      (Eff S (Unit {0}) → Eff S (Unit {0})) → Eff S (Unit {0}) → Eff S (Unit {0})
  unfolding conflict_as_error
  retry_on_upsert_conflict on_exception func = on_exception (conflict_as_error func)

  -- `except NotFound: pass`
  unfoldable pub pass_not_found : Eff S (Unit {0}) → Eff S (Unit {0})
  pass_not_found m = try_catch m (λ e. elim e [ not_found ↦ return tt | e ↦ throw e ])

module _ {S Spec Object : Type 0} (api : ResourceApi S Spec Object) where
  -- The calls with which every deployer ends: the object is got or made, gets its owner and what the
  -- extensions add, and is saved.
  unfoldable pub create_and_save : Metadata → Spec → AppSpec → Eff S (Unit {0})
  create_and_save metadata spec app_spec = do
    object ← api.get_or_create metadata spec
    owned ← api.apply_owner_references object app_spec
    extended ← api.apply_extension_hook owned app_spec
    api.save extended
