-- ===== src/Specs/SpecFactory.antt =====
-- fiaas_deploy_daemon/specs/factory.py: SpecFactory, which brings a document up to the version of
-- its factory by a chain of transformers. The counter and the log are left out. Whatever exception
-- but InvalidConfiguration the transformers or the factory raise becomes InvalidConfiguration.
pub mod Chain
pub mod Exact
use fiaas_deploy_daemon.Base.{
  ℕ, suc, zero, ◌+◌, ◌-◌, ◌≤◌, ◌<◌, String, ◌<>◌, ◌≡◌, refl, sym, ap, ◌∙◌, ◌≢◌, ◌↔◌, ◌⊎◌, inl, inr,
  Bool, true, false, not, ◌&&◌, ◌||◌, Option, none, some, List, [], ◌∷◌, ◌++◌, map, arith, eq_iff,
  eq_refl, ◌==◌, ltb, leb, eqb, if◌then◌else◌, Bool-cases, Option-cases, leb→le, leb-false→lt,
  length, any, all, filter, contains, All, All-append, All-map, Error, invalid_configuration,
  value_error, key_error, index_error, type_error, attribute_error, runtime_error, yaml_error,
  retry_error, not_found, client_error, upsert_conflict, Result, ok, raise, ◌>>=◌, ◌>>◌, guard,
  >>=-eq-ok, ok-injective, guard-eq-ok, raise-ne-ok, Eff,
}
use fiaas_deploy_daemon.Specs.Value.{Value, null, num, Fields, field, end, eq_value, lt_value}

-- `app_config.get("version", 1)`
abbrev pub version_of : Fields → Value
version_of end = num 1
version_of (field k v fs) = if k == "version" then v else version_of fs

-- A transformer of the dict `_transformers`, called with `strip_defaults`.
abbrev pub Transformer : Type 0
Transformer = Fields → Bool → Result Fields

abbrev pub Transformers : Type 0
Transformers = List (ℕ × Transformer)

-- `self._supported_versions`
abbrev pub supported_versions : ℕ → Transformers → List Value
supported_versions version ts = num version ∷ map (λ t. num t.0) ts

-- `self._transformers[current_version]`
find_transformer : Transformers → Value → Result Transformer
unfolding eq_value
find_transformer [] v = raise key_error
find_transformer ((n, t) ∷ ts) v = if eq_value (num n) v then ok t else find_transformer ts v

module _ (version : ℕ) (transformers : Transformers) where
  -- The `while` loop of `transform`, with fuel; `none` means that the fuel ran out.
  transform_loop : ℕ → Bool → Fields → Option (Result Fields)
  unfolding find_transformer
  transform_loop zero strip_defaults app_config = none
  transform_loop (suc fuel) strip_defaults app_config =
      let step : Result Fields = (do
        t ← find_transformer transformers (version_of app_config)
        t app_config strip_defaults) in
      let rest : Option (Result Fields) = (elim step [
        | ok next ↦ transform_loop fuel strip_defaults next
        | raise e ↦ some (raise e)
      ]) in
      elim (lt_value (version_of app_config) (num version)) [
        | raise e ↦ some (raise e)
        | ok below ↦ if below then rest else some (ok app_config)
      ]

  -- `SpecFactory.transform`
  unfoldable pub transform : ℕ → Fields → Bool → Option (Result Fields)
  unfolding transform_loop eq_value
  transform fuel app_config strip_defaults =
      if any (λ s. eq_value s (version_of app_config)) (supported_versions version transformers)
      then transform_loop fuel strip_defaults app_config
      else some (raise invalid_configuration)

-- The `except` clauses of `SpecFactory.__call__`: every exception becomes InvalidConfiguration.
abbrev pub as_invalid {ℓ} : {A : Type ℓ} → Result A → Result A
as_invalid (ok a) = ok a
as_invalid (raise e) = raise invalid_configuration

-- `SpecFactory.__call__`, for a factory that takes the document. `datadog_enabled` reads the
-- specification, and `datadog_image` says whether a datadog container image is configured.
module _ {Spec : Type 0} (version : ℕ) (transformers : Transformers)
    (factory : Fields → Result Spec) (datadog_enabled : Spec → Bool)
    (datadog_image : Option String) where
  -- `SpecFactory._validate`
  validate : Spec → Result (Unit {0})
  validate app_spec =
      guard
        (not (datadog_enabled app_spec && (elim datadog_image [ none ↦ true | some _ ↦ false ])))
        invalid_configuration

  unfoldable pub create : ℕ → Fields → Option (Result Spec)
  unfolding transform validate
  create fuel app_config = elim (transform version transformers fuel app_config false) [
    | none ↦ none
    | some r ↦ some (do app_spec ← as_invalid (r >>= factory); validate app_spec; ok app_spec)
  ]
