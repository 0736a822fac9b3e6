-- ===== src/Deployer/Spec.antt =====
-- `AppSpec` of fiaas_deploy_daemon/specs/models.py as the deployers read it: at texts, numbers and
-- flags. `app_config`, which only the extension hook reads, is left out. The texts of a strongbox that
-- is not enabled, which can be None in the program, are not read.
use fiaas_deploy_daemon.Base.{
  ℕ, String, Bool, Option, none, some, List, Result, ok, raise, runtime_error,
}
use fiaas_deploy_daemon.Base.Dict.{Dict}
use fiaas_deploy_daemon.Specs.Models.{
  ResourcesSpec, PrometheusSpec, DatadogSpec, PortSpec, HealthCheckSpec, AutoscalerSpec,
  LabelAndAnnotationSpec, IngressItemSpec, StrongboxSpec, SecretsSpec, IngressTlsSpec,
}
use fiaas_deploy_daemon.Deployer.Text.{after_colon}

abbrev pub Item : Type 0
Item = IngressItemSpec (Option String) String ℕ (Dict String)

pub record AppSpec : Type 0 where
  pub uid : String
  pub namespace : String
  pub name : String
  pub image : String
  pub autoscaler : AutoscalerSpec ℕ
  pub resources : ResourcesSpec (Option String)
  pub admin_access : Bool
  pub secrets_in_environment : Bool
  pub prometheus : PrometheusSpec Bool String
  pub datadog : DatadogSpec Bool String
  pub ports : List (PortSpec String ℕ)
  pub health_checks : HealthCheckSpec String ℕ (Dict String)
  pub teams : List String
  pub tags : List String
  pub deployment_id : String
  pub labels : LabelAndAnnotationSpec String
  pub annotations : LabelAndAnnotationSpec String
  pub ingresses : List Item
  pub strongbox : StrongboxSpec String (List String)
  pub singleton : Bool
  pub ingress_tls : IngressTlsSpec (Option Bool) (Option String)
  pub secrets : List (SecretsSpec String (Dict String))

-- `AppSpec.version`
unfoldable pub version : AppSpec → Result String
unfolding after_colon
version app_spec = elim (after_colon app_spec.image) [ none ↦ raise runtime_error | some v ↦ ok v ]
