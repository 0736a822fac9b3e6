-- ===== src/Specs/Models.antt =====
-- The records of fiaas_deploy_daemon/specs/models.py. The factory fills them with the values of the
-- document; the deployers read the same records at texts, numbers and flags. So the small records
-- take the types of their fields: B for flags, T for texts, N for numbers.
use fiaas_deploy_daemon.Base.{Bool, Option, List}
use fiaas_deploy_daemon.Base.Dict.{Dict}

pub record ResourceRequirementSpec (T : Type 0) : Type 0 where
  pub cpu : T
  pub memory : T

pub record ResourcesSpec (T : Type 0) : Type 0 where
  pub limits : ResourceRequirementSpec T
  pub requests : ResourceRequirementSpec T

pub record PrometheusSpec (B T : Type 0) : Type 0 where
  pub enabled : B
  pub port : T
  pub path : T

pub record DatadogSpec (B T : Type 0) : Type 0 where
  pub enabled : B
  pub tags : Dict T

pub record PortSpec (T N : Type 0) : Type 0 where
  pub protocol : T
  pub name : T
  pub port : N
  pub target_port : N

pub record ExecCheckSpec (T : Type 0) : Type 0 where
  pub command : T

pub record HttpCheckSpec (T H : Type 0) : Type 0 where
  pub path : T
  pub port : T
  pub http_headers : H

pub record TcpCheckSpec (T : Type 0) : Type 0 where
  pub port : T

pub record CheckSpec (T N H : Type 0) : Type 0 where
  pub execute : Option (ExecCheckSpec T)
  pub http : Option (HttpCheckSpec T H)
  pub tcp : Option (TcpCheckSpec T)
  pub initial_delay_seconds : N
  pub period_seconds : N
  pub success_threshold : N
  pub failure_threshold : N
  pub timeout_seconds : N

pub record HealthCheckSpec (T N H : Type 0) : Type 0 where
  pub liveness : CheckSpec T N H
  pub readiness : CheckSpec T N H

pub record AutoscalerSpec (N : Type 0) : Type 0 where
  pub enabled : Bool
  pub min_replicas : N
  pub max_replicas : N
  pub cpu_threshold_percentage : N

pub record LabelAndAnnotationSpec (T : Type 0) : Type 0 where
  pub deployment : Dict T
  pub horizontal_pod_autoscaler : Dict T
  pub ingress : Dict T
  pub service : Dict T
  pub service_account : Dict T
  pub pod : Dict T
  pub status : Dict T
  pub pod_disruption_budget : Dict T
  pub role_binding : Dict T

pub record IngressPathMappingSpec (T N : Type 0) : Type 0 where
  pub path : T
  pub port : N

pub record IngressItemSpec (H T N A : Type 0) : Type 0 where
  pub host : H
  pub pathmappings : List (IngressPathMappingSpec T N)
  pub annotations : A

pub record StrongboxSpec (T G : Type 0) : Type 0 where
  pub enabled : Bool
  pub iam_role : T
  pub aws_region : T
  pub groups : G

pub record SecretsSpec (T P : Type 0) : Type 0 where
  pub secret_type : T
  pub parameters : P
  pub annotations : P

pub record IngressTlsSpec (B T : Type 0) : Type 0 where
  pub enabled : B
  pub certificate_issuer : T
