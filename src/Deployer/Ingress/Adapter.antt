-- ===== src/Deployer/Ingress/Adapter.antt =====
-- What the two adapters of fiaas_deploy_daemon/deployer/kubernetes/ingress_networkingv1.py and
-- ingress_v1beta1.py share: the code of their methods is the same, but for the path of a rule.
pub mod NetworkingV1
pub mod V1Beta1
pub mod Unused
mod Tests
pub mod Covers
use fiaas_deploy_daemon.Base.{
  ℕ, suc, zero, ◌+◌, ◌-◌, ◌≤◌, ◌<◌, String, ◌<>◌, ◌≡◌, refl, sym, ap, ◌∙◌, ◌≢◌, ◌↔◌, ◌⊎◌, inl, inr,
  Bool, true, false, not, ◌&&◌, ◌||◌, Option, none, some, List, [], ◌∷◌, ◌++◌, map, arith, eq_iff,
  eq_refl, ◌==◌, ltb, leb, eqb, if◌then◌else◌, Bool-cases, Option-cases, leb→le, leb-false→lt,
  length, any, all, filter, contains, All, All-append, All-map, Error, invalid_configuration,
  value_error, key_error, index_error, type_error, attribute_error, runtime_error, yaml_error,
  retry_error, not_found, client_error, upsert_conflict, Result, ok, raise, ok-injective,
  guard-eq-ok, raise-ne-ok, >>=-eq-raise, >>=-ok-eq-raise, Result-cases, Eff,
}
use fiaas_deploy_daemon.Base.Effect
use fiaas_deploy_daemon.Base.Effect.{◌>>=◌, ◌>>◌}
use fiaas_deploy_daemon.Base.Dict.{Dict, get, merge_dicts}
use fiaas_deploy_daemon.Specs.Models.{IngressPathMappingSpec}
use fiaas_deploy_daemon.Deployer.Spec.{AppSpec, Item}
use fiaas_deploy_daemon.Deployer.Kubernetes.Api.{Metadata, retry_on_upsert_conflict, pass_not_found}
use fiaas_deploy_daemon.Deployer.Ingress.Group.{AnnotatedIngress}
use fiaas_deploy_daemon.Deployer.Ingress.Create.{IngressAdapter}
use fiaas_deploy_daemon.Deployer.Ingress.Hosts.{deduplicate_in_order, same_mapping}
use fiaas_deploy_daemon.Deployer.Ingress.Tls.{TlsConfig, TlsEntry, TlsIngress, apply_tls}

abbrev pub PathMapping : Type 0
PathMapping = IngressPathMappingSpec String ℕ

-- `HTTPIngressPath`, with its type where there is one.
pub record HttpPath : Type 0 where
  pub path : String
  pub path_type : Option String
  pub service_name : String
  pub service_port : ℕ

pub record IngressRule : Type 0 where
  pub host : String
  pub paths : List HttpPath

pub record Ingress : Type 0 where
  pub metadata : Metadata
  pub rules : List IngressRule
  pub tls : List TlsEntry

-- `Equality`, `Exists` and `Inequality`, with the label that they are about.
pub data Requirement : Type 0 where
  equality inequality : String → String → Requirement
  exists : String → Requirement

-- The calls on ingresses in the cluster, `OwnerReferences.apply` and `ExtensionHookCaller.apply`.
pub record IngressApi (S : Type 0) : Type 0 where
  pub get_or_create : Metadata → List IngressRule → Eff S Ingress
  pub apply_owner_references : Ingress → AppSpec → Eff S Ingress
  pub apply_extension_hook : Ingress → AppSpec → Eff S Ingress
  pub save : Ingress → Eff S (Unit {0})
  pub delete_list : String → List Requirement → Eff S (Unit {0})

-- `metadata` of `create_ingress`
unfoldable pub ingress_metadata : AppSpec → AnnotatedIngress → Dict String → Metadata
unfolding merge_dicts
ingress_metadata app_spec annotated_ingress labels = record {
  name = annotated_ingress.name;
  namespace = app_spec.namespace;
  labels = labels;
  annotations = merge_dicts (
      app_spec.annotations.ingress
      ∷ annotated_ingress.annotations
      ∷ (("fiaas/expose", if annotated_ingress.explicit_host then "true" else "false") ∷ [])
      ∷ []);
}

-- `per_host_ingress_rules` of `create_ingress`, by what makes the paths of a rule.
unfoldable pub per_host_rules : (List PathMapping → List HttpPath) → List Item → List IngressRule
per_host_rules make_paths [] = []
per_host_rules make_paths (item ∷ items) =
    let rest = per_host_rules make_paths items in
    elim item.host [
      | none ↦ rest
      | some host ↦ (record { host = host; paths = make_paths item.pathmappings }) ∷ rest
    ]

abbrev pub host_of : IngressRule → String
host_of rule = rule.host

-- The name is read only if an issuer is configured, and then it is not missing.
abbrev issuer_text : Option String → String
issuer_text none = ""
issuer_text (some name) = name

-- `IngressTLSDeployer.apply`, on the parts of the ingress that it reads and sets.
unfoldable pub with_tls :
    (String → String → String)
    → TlsConfig
    → AppSpec
    → AnnotatedIngress
    → List String
    → Ingress
    → Ingress
unfolding apply_tls
with_tls digest config app_spec annotated_ingress hosts ingress =
    let part : TlsIngress = record {
      name = ingress.metadata.name;
      annotations = ingress.metadata.annotations;
      tls = ingress.tls;
    } in
    let changed =
      apply_tls digest config part app_spec hosts annotated_ingress.issuer_type
        (issuer_text annotated_ingress.issuer_name) annotated_ingress.default in
    record ingress {
      metadata = record (ingress.metadata) { annotations = changed.annotations };
      tls = changed.tls;
    }

abbrev pub filter_for : Option String → Option String → Result (List Requirement)
filter_for none _ = raise key_error
filter_for (some app) none = raise key_error
filter_for (some app) (some deployment_id) = ok (
    equality "app" app
    ∷ exists "fiaas/deployment_id"
    ∷ inequality "fiaas/deployment_id" deployment_id
    ∷ [])

-- `filter_labels` of `delete_unused`
unfoldable pub unused_filter : Dict String → Result (List Requirement)
unfolding get
unused_filter labels = filter_for (get labels "app") (get labels "fiaas/deployment_id")

module _ {S : Type 0} (digest : String → String → String) (config : TlsConfig)
    (on_exception : Eff S (Unit {0}) → Eff S (Unit {0})) (api : IngressApi S) where
  -- What `create_ingress` does with an ingress after `IngressTLSDeployer.apply`.
  unfoldable pub save_ingress : AppSpec → Ingress → Eff S (Unit {0})
  save_ingress app_spec secured = do
    owned ← api.apply_owner_references secured app_spec
    extended ← api.apply_extension_hook owned app_spec
    api.save extended

  -- `create_ingress` without its retry, by what makes the paths of a rule.
  unfoldable pub create_once :
      (List PathMapping → List HttpPath)
      → AppSpec
      → AnnotatedIngress
      → Dict String
      → Eff S (Unit {0})
  unfolding ingress_metadata per_host_rules with_tls save_ingress
  create_once make_paths app_spec annotated_ingress labels = do
    let rules = per_host_rules make_paths annotated_ingress.ingress_items
    ingress ← api.get_or_create (ingress_metadata app_spec annotated_ingress labels) rules
    let hosts = map host_of rules
    save_ingress app_spec (with_tls digest config app_spec annotated_ingress hosts ingress)

  -- `create_ingress`
  unfoldable pub create_with :
      (List PathMapping → List HttpPath)
      → AppSpec
      → AnnotatedIngress
      → Dict String
      → Eff S (Unit {0})
  unfolding create_once retry_on_upsert_conflict
  create_with make_paths app_spec annotated_ingress labels =
      retry_on_upsert_conflict on_exception
        (create_once make_paths app_spec annotated_ingress labels)

module _ {S : Type 0} (api : IngressApi S) where
  -- `delete_unused`
  unfoldable pub delete_unused_ingresses : AppSpec → Dict String → Eff S (Unit {0})
  unfolding unused_filter
  delete_unused_ingresses app_spec labels = do
    requirements ← Effect.lift (unused_filter labels)
    api.delete_list app_spec.namespace requirements

  -- `delete_list`
  unfoldable pub delete_list_of : AppSpec → Eff S (Unit {0})
  unfolding pass_not_found
  delete_list_of app_spec = pass_not_found (
      api.delete_list app_spec.namespace
        (equality "app" app_spec.name ∷ exists "fiaas/deployment_id" ∷ []))
