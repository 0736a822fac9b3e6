-- ===== src/Specs/Defaults.antt =====
-- The defaults of fiaas_deploy_daemon/specs/v3/defaults.yml and fiaas_deploy_daemon/specs/v2/defaults.yml.
use fiaas_deploy_daemon.Base.{true, false}
use fiaas_deploy_daemon.Specs.Value.{
  Value, null, bool, num, str, seq, mapping, nil, cons, Fields, field, end,
}

abbrev v3_replicas : Value
v3_replicas = mapping (
    field "minimum" (num 2) (
      field "maximum" (num 5)
        (field "cpu_threshold_percentage" (num 50) (field "singleton" (bool true) end))))

abbrev v3_ingress : Value
v3_ingress = seq (
    cons
      (mapping (
        field "host" null (
          field "paths"
            (seq (cons (mapping (field "path" (str "/") (field "port" (str "http") end))) nil))
            (field "annotations" (mapping end) end))))
      nil)

abbrev v3_healthchecks : Value
v3_healthchecks = mapping (
    field "liveness"
      (mapping (
        field "execute" (mapping (field "command" null end)) (
          field "http"
            (mapping (
              field "path" (str "/_/health")
                (field "port" (str "http") (field "http_headers" (mapping end) end))))
            (field "tcp" (mapping (field "port" null end)) (
              field "initial_delay_seconds" (num 10) (
                field "period_seconds" (num 10) (
                  field "success_threshold" (num 1)
                    (field "failure_threshold" (num 3) (field "timeout_seconds" (num 1) end)))))))))
      (field "readiness"
        (mapping (
          field "execute" (mapping (field "command" null end)) (
            field "http"
              (mapping (
                field "path" (str "/_/ready")
                  (field "port" (str "http") (field "http_headers" (mapping end) end))))
              (field "tcp" (mapping (field "port" null end)) (
                field "initial_delay_seconds" (num 10) (
                  field "period_seconds" (num 10) (
                    field "success_threshold" (num 1) (
                      field "failure_threshold" (num 3)
                        (field "timeout_seconds" (num 1) end)))))))))
        end))

abbrev v3_resources : Value
v3_resources = mapping (
    field "limits" (mapping (field "cpu" (str "400m") (field "memory" (str "512Mi") end))) (
      field "requests" (mapping (field "cpu" (str "200m") (field "memory" (str "256Mi") end))) end))

abbrev v3_metrics : Value
v3_metrics = mapping (
    field "prometheus"
      (mapping (
        field "enabled" (bool true)
          (field "port" (str "http") (field "path" (str "/_/metrics") end))))
      (field "datadog" (mapping (field "enabled" (bool false) (field "tags" (mapping end) end)))
        end))

abbrev v3_ports : Value
v3_ports = seq (
    cons
      (mapping (
        field "protocol" (str "http")
          (field "name" (str "http") (field "port" (num 80) (field "target_port" (num 8080) end)))))
      nil)

abbrev v3_annotations : Value
v3_annotations = mapping (
    field "deployment" (mapping end) (
      field "horizontal_pod_autoscaler" (mapping end) (
        field "service_account" (mapping end) (
          field "ingress" (mapping end) (
            field "service" (mapping end) (
              field "pod" (mapping end) (
                field "pod_disruption_budget" (mapping end)
                  (field "role_binding" (mapping end) end))))))))

abbrev v3_labels : Value
v3_labels = mapping (
    field "deployment" (mapping end) (
      field "horizontal_pod_autoscaler" (mapping end) (
        field "service_account" (mapping end) (
          field "ingress" (mapping end) (
            field "service" (mapping end) (
              field "pod" (mapping end) (
                field "pod_disruption_budget" (mapping end)
                  (field "role_binding" (mapping end) end))))))))

abbrev v3_extensions : Value
v3_extensions = mapping (
    field "strongbox"
      (mapping (
        field "iam_role" null
          (field "aws_region" (str "eu-west-1") (field "groups" (seq nil) end))))
      (field "tls" (mapping (field "enabled" (bool false) (field "certificate_issuer" null end)))
        (field "secrets" (mapping end) end)))

abbrev pub v3_defaults : Fields
v3_defaults = field "version" (num 3) (
    field "replicas" v3_replicas (
      field "ingress" v3_ingress (
        field "healthchecks" v3_healthchecks (
          field "resources" v3_resources (
            field "metrics" v3_metrics (
              field "ports" v3_ports (
                field "annotations" v3_annotations (
                  field "labels" v3_labels (
                    field "secrets_in_environment" (bool false) (
                      field "admin_access" (bool false)
                        (field "extensions" v3_extensions end)))))))))))

abbrev v2_autoscaler : Value
v2_autoscaler = mapping (
    field "enabled" (bool false)
      (field "min_replicas" (num 2) (field "cpu_threshold_percentage" (num 50) end)))

abbrev v2_prometheus : Value
v2_prometheus = mapping (
    field "enabled" (bool true)
      (field "port" (str "http") (field "path" (str "/internal-backstage/prometheus") end)))

abbrev v2_resources : Value
v2_resources = mapping (
    field "limits" (mapping (field "memory" null (field "cpu" null end)))
      (field "requests" (mapping (field "memory" null (field "cpu" null end))) end))

abbrev v2_ports : Value
v2_ports = seq (
    cons
      (mapping (
        field "protocol" (str "http") (
          field "name" (str "http")
            (field "port" (num 80) (field "target_port" (num 80) (field "path" (str "/") end))))))
      nil)

abbrev v2_healthchecks : Value
v2_healthchecks = mapping (
    field "liveness"
      (mapping (
        field "execute" (mapping (field "command" null end)) (
          field "http"
            (mapping (
              field "path" (str "/")
                (field "port" (str "http") (field "http_headers" (mapping end) end))))
            (field "tcp" (mapping (field "port" null end)) (
              field "initial_delay_seconds" (num 10) (
                field "period_seconds" (num 10)
                  (field "success_threshold" (num 1) (field "timeout_seconds" (num 1) end))))))))
      (field "readiness"
        (mapping (
          field "execute" (mapping (field "command" null end)) (
            field "http"
              (mapping (
                field "path" (str "/")
                  (field "port" (str "http") (field "http_headers" (mapping end) end))))
              (field "tcp" (mapping (field "port" null end)) (
                field "initial_delay_seconds" (num 10) (
                  field "period_seconds" (num 10)
                    (field "success_threshold" (num 1) (field "timeout_seconds" (num 1) end))))))))
        end))

abbrev v2_config : Value
v2_config = mapping (field "volume" (bool false) (field "envs" (seq nil) end))

abbrev pub v2_defaults : Fields
v2_defaults = field "version" (num 2) (
    field "namespace" (str "default") (
      field "admin_access" (bool false) (
        field "has_secrets" (bool false) (
          field "replicas" (num 2) (
            field "autoscaler" v2_autoscaler (
              field "host" null (
                field "prometheus" v2_prometheus (
                  field "resources" v2_resources (
                    field "ports" v2_ports
                      (field "healthchecks" v2_healthchecks (field "config" v2_config end)))))))))))
