-- ===== src/Specs/V3Factory/Simple.antt =====
-- The small records of fiaas_deploy_daemon/specs/v3/factory.py: replicas, resources, metrics, ports,
-- labels and annotations, and the extensions.
use fiaas_deploy_daemon.Base.{String, not, ◌&&◌, List, if◌then◌else◌, Result, ok, ◌>>=◌}
use fiaas_deploy_daemon.Specs.Models.{LabelAndAnnotationSpec}
use fiaas_deploy_daemon.Base.Dict.{Dict, merge_dicts}
use fiaas_deploy_daemon.Base.{Option, none, some}
use fiaas_deploy_daemon.Base.{[], ◌∷◌}
use fiaas_deploy_daemon.Specs.Value.{Value, null, str, is_null, is_undefined, lt_value, eq_value}
use fiaas_deploy_daemon.Specs.Lookup.{Lookup, get_key, get_config_value, items_lookup, elements}
use fiaas_deploy_daemon.Specs.Models.{
  ResourceRequirementSpec, ResourcesSpec, PrometheusSpec, DatadogSpec, PortSpec, AutoscalerSpec,
  StrongboxSpec, SecretsSpec,
}
use fiaas_deploy_daemon.Specs.V3Factory.Values.{get_value, dict_of, map_result}

-- `Factory._autoscaler_spec`
unfoldable pub autoscaler_spec : Lookup → Result (AutoscalerSpec Value)
unfolding get_value eq_value
autoscaler_spec replicas = do
  maximum ← get_value replicas "maximum"
  wanted ← get_value replicas "minimum"
  below ← lt_value maximum wanted
  let minimum = (if below then maximum else wanted)
  cpu_threshold_percentage ← get_value replicas "cpu_threshold_percentage"
  ok (record {
    enabled = not (eq_value minimum maximum);
    min_replicas = minimum;
    max_replicas = maximum;
    cpu_threshold_percentage = cpu_threshold_percentage;
  })

abbrev undefined_as_null : Value → Value
undefined_as_null v = if is_undefined v then null else v

-- `Factory._resource_requirements_spec`
unfoldable pub resource_requirements_spec : Lookup → Result (ResourceRequirementSpec Value)
unfolding get_value
resource_requirements_spec resource = do
  cpu ← get_value resource "cpu"
  memory ← get_value resource "memory"
  ok (record { cpu = undefined_as_null cpu; memory = undefined_as_null memory })

-- `Factory._resources_spec`
unfoldable pub resources_spec : Lookup → Result (ResourcesSpec Value)
unfolding get_key resource_requirements_spec
resources_spec resources = do
  l ← get_key resources "limits"
  limits ← resource_requirements_spec l
  r ← get_key resources "requests"
  requests ← resource_requirements_spec r
  ok (record { limits = limits; requests = requests })

-- `Factory._prometheus_spec`
unfoldable pub prometheus_spec : Lookup → Result (PrometheusSpec Value Value)
unfolding get_value
prometheus_spec l = do
  enabled ← get_value l "enabled"
  port ← get_value l "port"
  path ← get_value l "path"
  ok (record { enabled = enabled; port = port; path = path })

-- `Factory._datadog_spec`
unfoldable pub datadog_spec : Lookup → Result (DatadogSpec Value Value)
unfolding get_value dict_of
datadog_spec l = do
  enabled ← get_value l "enabled"
  tags ← dict_of l "tags"
  ok (record { enabled = enabled; tags = tags })

port_spec : Lookup → Result (PortSpec Value Value)
unfolding get_value
port_spec p = do
  protocol ← get_value p "protocol"
  name ← get_value p "name"
  port ← get_value p "port"
  target_port ← get_value p "target_port"
  ok (record { protocol = protocol; name = name; port = port; target_port = target_port })

-- `Factory._port_specs`
unfoldable pub port_specs : Lookup → Result (List (PortSpec Value Value))
unfolding elements port_spec
port_specs ports = do ps ← elements ports; map_result port_spec ps

-- `Factory._strongbox`
unfoldable pub strongbox : Lookup → Result (StrongboxSpec Value Value)
unfolding get_config_value get_value
strongbox l = do
  iam_role ← get_config_value l "iam_role"
  groups ← get_config_value l "groups"
  aws_region ← get_value l "aws_region"
  ok (record {
    enabled = not (is_null iam_role) && not (is_null groups);
    iam_role = iam_role;
    aws_region = aws_region;
    groups = groups;
  })

secrets_spec : String × Lookup → Result (SecretsSpec Value Value)
unfolding get_value
secrets_spec (k, v) = do
  parameters ← get_value v "parameters"
  annotations ← get_value v "annotations"
  ok (record { secret_type = str k; parameters = parameters; annotations = annotations })

-- `Factory._secrets_specs`
unfoldable pub secrets_specs : Lookup → Result (List (SecretsSpec Value Value))
unfolding items_lookup secrets_spec
secrets_specs l = do kvs ← items_lookup l; map_result secrets_spec kvs

-- The additional labels or annotations of an Application, `AdditionalLabelsOrAnnotations` of
-- fiaas_deploy_daemon/crd/types.py: every field is a dict or `None`.
pub record AdditionalLabelsOrAnnotations : Type 0 where
  pub global : Option (Dict Value)
  pub deployment : Option (Dict Value)
  pub horizontal_pod_autoscaler : Option (Dict Value)
  pub ingress : Option (Dict Value)
  pub service : Option (Dict Value)
  pub service_account : Option (Dict Value)
  pub pod : Option (Dict Value)
  pub status : Option (Dict Value)
  pub pod_disruption_budget : Option (Dict Value)
  pub role_binding : Option (Dict Value)

-- `_get_value` of the module
abbrev pub or_empty : Option (Dict Value) → Dict Value
or_empty none = []
or_empty (some d) = d

-- The loop over `LabelAndAnnotationSpec._fields`.
unfoldable pub override_labels :
    LabelAndAnnotationSpec Value → AdditionalLabelsOrAnnotations → LabelAndAnnotationSpec Value
override_labels p o =
    let merge = λ (d : Dict Value) (e : Option (Dict Value)).
      merge_dicts (d ∷ or_empty o.global ∷ or_empty e ∷ []) in
    record {
      deployment = merge p.deployment o.deployment;
      horizontal_pod_autoscaler = merge p.horizontal_pod_autoscaler o.horizontal_pod_autoscaler;
      ingress = merge p.ingress o.ingress;
      service = merge p.service o.service;
      service_account = merge p.service_account o.service_account;
      pod = merge p.pod o.pod;
      status = merge p.status o.status;
      pod_disruption_budget = merge p.pod_disruption_budget o.pod_disruption_budget;
      role_binding = merge p.role_binding o.role_binding;
    }

-- `Factory._labels_annotations_spec`
unfoldable pub labels_annotations_spec :
    Lookup → Option AdditionalLabelsOrAnnotations → Result (LabelAndAnnotationSpec Value)
unfolding dict_of override_labels
labels_annotations_spec l overrides = do
  deployment ← dict_of l "deployment"
  horizontal_pod_autoscaler ← dict_of l "horizontal_pod_autoscaler"
  ingress ← dict_of l "ingress"
  service ← dict_of l "service"
  service_account ← dict_of l "service_account"
  pod ← dict_of l "pod"
  pod_disruption_budget ← dict_of l "pod_disruption_budget"
  role_binding ← dict_of l "role_binding"
  let params =
      (let r : LabelAndAnnotationSpec Value = record {
        deployment = deployment;
        horizontal_pod_autoscaler = horizontal_pod_autoscaler;
        ingress = ingress;
        service = service;
        service_account = service_account;
        pod = pod;
        status = [];
        pod_disruption_budget = pod_disruption_budget;
        role_binding = role_binding;
      } in
        r)
  ok (elim overrides [ none ↦ params | some o ↦ override_labels params o ])
