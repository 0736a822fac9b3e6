-- ===== src/Specs/V3Factory.antt =====
-- fiaas_deploy_daemon/specs/v3/factory.py: an application's specification from a version 3 document
-- and its defaults. What the code stores is kept as a value; exceptions are Python's.
pub mod Values
pub mod Simple
pub mod Checks
pub mod IngressItems
pub mod Replicas
pub mod Ports
pub mod Health
use fiaas_deploy_daemon.Base.{
  ℕ, suc, zero, ◌+◌, ◌-◌, ◌≤◌, ◌<◌, String, ◌<>◌, ◌≡◌, refl, sym, ap, ◌∙◌, ◌≢◌, ◌↔◌, ◌⊎◌, inl, inr,
  Bool, true, false, not, ◌&&◌, ◌||◌, Option, none, some, List, [], ◌∷◌, ◌++◌, map, arith, eq_iff,
  eq_refl, ◌==◌, ltb, leb, eqb, if◌then◌else◌, Bool-cases, Option-cases, leb→le, leb-false→lt,
  length, any, all, filter, contains, All, All-append, All-map, Error, invalid_configuration,
  value_error, key_error, index_error, type_error, attribute_error, runtime_error, yaml_error,
  retry_error, not_found, client_error, upsert_conflict, Result, ok, raise, ◌>>=◌, ◌>>◌, guard,
  >>=-eq-ok, ok-injective, guard-eq-ok, raise-ne-ok, Eff,
}
use fiaas_deploy_daemon.Base.{type_error, none, some, ◌==◌}
use fiaas_deploy_daemon.Specs.Value.{
  get_item, Value, null, bool, str, mapping, Fields, field, end, truthy, dict_get, get_or_null,
  set_item,
}
use fiaas_deploy_daemon.Specs.Lookup.{Lookup, make_mapping, get_key}
use fiaas_deploy_daemon.Specs.Models.{
  ResourcesSpec, PrometheusSpec, DatadogSpec, PortSpec, HealthCheckSpec, AutoscalerSpec,
  LabelAndAnnotationSpec, IngressItemSpec, StrongboxSpec, SecretsSpec, IngressTlsSpec,
}
use Values.{get_value}
use Simple.{
  AdditionalLabelsOrAnnotations, autoscaler_spec, resources_spec, prometheus_spec, datadog_spec,
  port_specs, strongbox, secrets_specs, labels_annotations_spec,
}
use Checks.{health_checks_spec}
use IngressItems.{ingress_items}

-- What the caller of the factory hands over besides the document.
pub record Request : Type 0 where
  pub uid : String
  pub name : String
  pub image : String
  pub teams : List String
  pub tags : List String
  pub deployment_id : String
  pub namespace : String
  pub additional_labels : Option AdditionalLabelsOrAnnotations
  pub additional_annotations : Option AdditionalLabelsOrAnnotations

-- `AppSpec` of fiaas_deploy_daemon/specs/models.py, as the factory fills it.
pub record AppSpec : Type 0 where
  pub uid : String
  pub namespace : String
  pub name : String
  pub image : String
  pub autoscaler : AutoscalerSpec Value
  pub resources : ResourcesSpec Value
  pub admin_access : Value
  pub secrets_in_environment : Value
  pub prometheus : PrometheusSpec Value Value
  pub datadog : DatadogSpec Value Value
  pub ports : List (PortSpec Value Value)
  pub health_checks : HealthCheckSpec Value Value Value
  pub teams : List String
  pub tags : List String
  pub deployment_id : String
  pub labels : LabelAndAnnotationSpec Value
  pub annotations : LabelAndAnnotationSpec Value
  pub ingresses : List (IngressItemSpec Value Value Value Value)
  pub strongbox : StrongboxSpec Value Value
  pub singleton : Value
  pub ingress_tls : IngressTlsSpec Value Value
  pub secrets : List (SecretsSpec Value Value)
  pub app_config : Fields

-- Assignment to a key of a dict inside a dict.
abbrev set_within : Fields → String → (Fields → Result Fields) → Result Fields
set_within d k f = do
  v ← get_item d k
  elim v [
    | mapping inner ↦ (do inner' ← f inner; ok (set_item d k (mapping inner')))
    | _ ↦ raise type_error
  ]

-- `Factory.__init__`: the default of `extensions.tls.enabled` is whether `--use-ingress-tls` is
-- `default_on`, and `None` with no configuration.
unfoldable pub init_defaults : Option String → Fields → Result Fields
init_defaults use_ingress_tls defaults =
    let enabled : Value = (elim use_ingress_tls [
      | none ↦ null
      | some t ↦ bool (t == "default_on")
    ]) in
    set_within defaults "extensions"
      (λ e. set_within e "tls" (λ t. ok (set_item t "enabled" enabled)))

abbrev enabled_of : Value → Fields → Fields
enabled_of (bool b) extensions = set_item extensions "tls" (mapping (field "enabled" (bool b) end))
enabled_of _ extensions = extensions

abbrev expand_in : Fields → Value → Result Fields
expand_in config (mapping extensions) = ok (
    if truthy (get_or_null extensions "tls")
    then set_item config "extensions"
        (mapping (enabled_of (get_or_null extensions "tls") extensions))
    else config)
expand_in config v = if truthy v then raise attribute_error else ok config

-- The first statement of `Factory.__call__`: `extensions.tls` may be a plain `true`. The document is
-- changed in place, and is what `app_config` of the specification holds.
unfoldable pub expand_tls : Fields → Result Fields
expand_tls config = expand_in config (get_or_null config "extensions")

key_of_key : Lookup → String → String → Result Lookup
unfolding get_key
key_of_key l a b = do m ← get_key l a; get_key m b

value_of_path : Lookup → String → String → String → Result Value
unfolding get_value key_of_key
value_of_path l a b c = do m ← key_of_key l a b; get_value m c

-- `Factory.__call__`, over the defaults that `Factory.__init__` prepares.
unfoldable pub factory : Fields → Request → Fields → Result AppSpec
unfolding expand_tls make_mapping get_key get_value key_of_key value_of_path autoscaler_spec
    resources_spec prometheus_spec datadog_spec port_specs health_checks_spec
    labels_annotations_spec ingress_items strongbox secrets_specs
factory defaults r given = do
  app_config ← expand_tls given
  lookup ← make_mapping (mapping app_config) defaults
  replicas ← get_key lookup "replicas"
  autoscaler ← autoscaler_spec replicas
  rl ← get_key lookup "resources"
  resources ← resources_spec rl
  admin_access ← get_value lookup "admin_access"
  secrets_in_environment ← get_value lookup "secrets_in_environment"
  pl ← key_of_key lookup "metrics" "prometheus"
  prometheus ← prometheus_spec pl
  dl ← key_of_key lookup "metrics" "datadog"
  datadog ← datadog_spec dl
  port_list ← get_key lookup "ports"
  ports ← port_specs port_list
  hl ← get_key lookup "healthchecks"
  health_checks ← health_checks_spec hl port_list
  ll ← get_key lookup "labels"
  labels ← labels_annotations_spec ll r.additional_labels
  al ← get_key lookup "annotations"
  annotations ← labels_annotations_spec al r.additional_annotations
  il ← get_key lookup "ingress"
  ingresses ← ingress_items il port_list
  sl ← key_of_key lookup "extensions" "strongbox"
  box ← strongbox sl
  singleton ← get_value replicas "singleton"
  tls_enabled ← value_of_path lookup "extensions" "tls" "enabled"
  certificate_issuer ← value_of_path lookup "extensions" "tls" "certificate_issuer"
  el ← key_of_key lookup "extensions" "secrets"
  secrets ← secrets_specs el
  ok (record {
    uid = r.uid;
    namespace = r.namespace;
    name = r.name;
    image = r.image;
    autoscaler = autoscaler;
    resources = resources;
    admin_access = admin_access;
    secrets_in_environment = secrets_in_environment;
    prometheus = prometheus;
    datadog = datadog;
    ports = ports;
    health_checks = health_checks;
    teams = r.teams;
    tags = r.tags;
    deployment_id = r.deployment_id;
    labels = labels;
    annotations = annotations;
    ingresses = ingresses;
    strongbox = box;
    singleton = singleton;
    ingress_tls = record { enabled = tls_enabled; certificate_issuer = certificate_issuer };
    secrets = secrets;
    app_config = app_config;
  })
