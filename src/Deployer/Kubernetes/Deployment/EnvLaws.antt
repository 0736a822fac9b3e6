-- ===== src/Deployer/Kubernetes/Deployment/EnvLaws.antt =====
-- Which environment variables the main container of
-- fiaas_deploy_daemon/deployer/kubernetes/deployment/deployer.py gets.
use fiaas_deploy_daemon.Deployer.Kubernetes.Deployment.Env.{given}
use fiaas_deploy_daemon.Deployer.Kubernetes.Deployment.Env.{env_of_environment}
use fiaas_deploy_daemon.Deployer.Kubernetes.Deployment.Env.{fixed_env}
use mathlib.Core.Path.{subst}
use mathlib.Core.List.{append-nil}
use fiaas_deploy_daemon.Base.{
  String, ◌≡◌, refl, sym, ap, ◌∙◌, inl, inr, Option, none, some, List, [], ◌∷◌, ◌++◌, map, arith,
  eq_iff, ◌==◌, if◌then◌else◌, Bool-cases, ok, ok-injective,
}
use fiaas_deploy_daemon.Base.Dict.{
  Dict, get, insert, update, merge_dicts, NodupKeys, update-NodupKeys, merge_dicts-NodupKeys,
  get-update,
}
use fiaas_deploy_daemon.Order.{
  text_le_refl, sort_by, IsSorted, sort_by-IsSorted, collect, collect-append, Commutes,
  collect-sort_by,
}
use fiaas_deploy_daemon.Deployer.Spec.{AppSpec, version}
use fiaas_deploy_daemon.Deployer.Kubernetes.Deployment.Types.{
  EnvVar, EnvValue, text, field_ref, resource_ref, secret_key_ref, Settings,
}
use fiaas_deploy_daemon.Deployer.Kubernetes.Deployment.Env.{
  build_fiaas_env, build_global_env, managed_env, static_env, downward_env, text_var, prefixed,
  name_of, make_env,
}

abbrev text_of : EnvValue → List String
text_of (text t) = t ∷ []
text_of (field_ref _) = []
text_of (resource_ref _ _) = []
text_of (secret_key_ref _ _) = []

-- The text of a variable with the name, if it has one.
abbrev text_named : String → EnvVar → List String
text_named k x = if x.name == k then text_of x.value else []

-- The texts of the variables with the name.
abbrev pub texts_named : String → List EnvVar → List String
texts_named k = collect name_of (text_named k)

-- What FIAAS sets itself, else what the settings set for all applications, else what they set in the
-- old way.
abbrev pub expected : Settings → AppSpec → String → String → Option String
expected config app_spec app_version k = elim (get (managed_env config app_spec app_version) k) [
  | some v ↦ some v
  | none ↦ elim (get (build_global_env config.global_env) k) [
    | some v ↦ some v
    | none ↦ get (build_fiaas_env config) k
  ]
]

abbrev pub as_list : Option String → List String
as_list none = []
as_list (some v) = v ∷ []

text_named-Commutes : (k : String) → Commutes name_of (text_named k)
text_named-Commutes k x y gt = elim (Bool-cases (x.name == k)) [
  | inr e ↦ rw e (append-nil (text_named k y))
  | inl e ↦ elim (Bool-cases (y.name == k)) [
    | inr e' ↦ rw (e, e') (sym (append-nil (text_of x.value)))
    | inl e' ↦
        let same = (eq_iff x.name k).0 e in
        let same' = (eq_iff y.name k).0 e' in
        let le = text_le_refl k in absurd (let gt' = (rw (same, same') at gt) in cc)
  ]
]

texts_named-absent :
    (d : Dict String) (k : String) → get d k ≡ none → texts_named k (map text_var d) ≡ []
unfolding get
texts_named-absent [] k h = refl
texts_named-absent ((j, v) ∷ d) k h = elim (Bool-cases (j == k)) [
  | inl e ↦ absurd (let h' = (rw e at h) in cc)
  | inr e ↦ rw e (texts_named-absent d k (rw e at h))
]

texts_named-map :
    (d : Dict String) (k : String)
    → NodupKeys d
    → texts_named k (map text_var d) ≡ as_list (get d k)
unfolding get
texts_named-map [] k u = refl
texts_named-map ((j, v) ∷ d) k (fresh, u) = elim (Bool-cases (j == k)) [
  | inl e ↦ rw e (
      ap (λ l. v ∷ l)
        (texts_named-absent d k (subst (λ x. get d x ≡ none) ((eq_iff j k).0 e) fresh)))
  | inr e ↦ rw e (texts_named-map d k u)
]

downward-none : (app_spec : AppSpec) (k : String) → texts_named k (downward_env app_spec) ≡ []
unfolding downward_env
downward-none app_spec k = ground arith

build_fiaas_env-NodupKeys : (config : Settings) → NodupKeys (build_fiaas_env config)
unfolding build_fiaas_env get
build_fiaas_env-NodupKeys config =
    let fixed : NodupKeys (fixed_env config) = (refl, (refl, (refl, (refl, tt)))) in
    update-NodupKeys (fixed_env config) (env_of_environment (given config.environment)) fixed

build_global_env-NodupKeys : (d : Dict String) → NodupKeys d → NodupKeys (build_global_env d)
unfolding build_global_env
build_global_env-NodupKeys d u = update-NodupKeys d (map prefixed d) u

managed_env-NodupKeys :
    (config : Settings) (app_spec : AppSpec) (v : String)
    → NodupKeys (managed_env config app_spec v)
unfolding managed_env get update insert
managed_env-NodupKeys config app_spec v =
    elim (Bool-cases config.disable_deprecated_managed_env_vars) [
      | inl e ↦ rw e (refl, (refl, (refl, tt)))
      | inr e ↦ rw e (refl, (refl, (refl, (refl, (refl, (refl, tt))))))
    ]

get-merge_three :
    (a b c : Dict String) (k : String)
    → NodupKeys a
    → NodupKeys b
    → NodupKeys c
    → get (merge_dicts (a ∷ b ∷ c ∷ [])) k ≡ elim (get c k) [
      | some v ↦ some v
      | none ↦ elim (get b k) [ some v ↦ some v | none ↦ get a k ]
    ]
unfolding merge_dicts get
get-merge_three a b c k ua ub uc =
    get-update (update (update [] a) b) c k uc
    ∙ ground (arith, get-update (update [] a) b k ub, get-update [] a k ua)

static_env-NodupKeys :
    (config : Settings) (app_spec : AppSpec) (v : String) → NodupKeys (static_env config app_spec v)
unfolding static_env
static_env-NodupKeys config app_spec v = merge_dicts-NodupKeys (
    build_fiaas_env config
    ∷ build_global_env config.global_env
    ∷ managed_env config app_spec v
    ∷ [])

-- The dicts that `static_env` merges, the last of which wins.
static_env-get :
    (config : Settings) (app_spec : AppSpec) (v k : String)
    → NodupKeys config.global_env
    → get (static_env config app_spec v) k ≡ expected config app_spec v k
unfolding static_env
static_env-get config app_spec v k u =
    get-merge_three (build_fiaas_env config) (build_global_env config.global_env)
      (managed_env config app_spec v) k (build_fiaas_env-NodupKeys config)
      (build_global_env-NodupKeys config.global_env u) (managed_env-NodupKeys config app_spec v)

-- `_make_env` gives the variables in the order of their names, and under each name one text, or none:
-- what FIAAS itself sets under that name, else what the settings set for all applications, with the
-- name or, behind FIAAS_, with the rest of it, else what they set in the old way. The settings for all
-- applications have no name twice.
pub make_env-IsExpected :
    (config : Settings) (app_spec : AppSpec) (app_version : String) (env : List EnvVar)
    → NodupKeys config.global_env
    → version app_spec ≡ ok app_version
    → make_env config app_spec ≡ ok env
    → IsSorted name_of env
      × ((k : String) → texts_named k env ≡ as_list (expected config app_spec app_version k))
unfolding make_env
make_env-IsExpected config app_spec app_version env u found h =
    let vars = map text_var (static_env config app_spec app_version) in
    let made : sort_by name_of (vars ++ downward_env app_spec) ≡ env =
      ok-injective (rw found at h) in
    subst
      (λ (l : List EnvVar).
        IsSorted name_of l
        × ((k : String) → texts_named k l ≡ as_list (expected config app_spec app_version k)))
      made
      (
        sort_by-IsSorted name_of (vars ++ downward_env app_spec),
        λ k.
            collect-sort_by name_of (text_named k) (text_named-Commutes k)
              (vars ++ downward_env app_spec)
            ∙ collect-append name_of (text_named k) vars (downward_env app_spec)
            ∙ ap (λ l. texts_named k vars ++ l) (downward-none app_spec k)
            ∙ append-nil (texts_named k vars)
            ∙ texts_named-map (static_env config app_spec app_version) k
                (static_env-NodupKeys config app_spec app_version)
            ∙ ap as_list (static_env-get config app_spec app_version k u),
      )
