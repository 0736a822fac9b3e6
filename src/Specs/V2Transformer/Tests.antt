-- ===== src/Specs/V2Transformer/Tests.antt =====
-- Documents that the transformer of version 2 rewrites.
use fiaas_deploy_daemon.Base.{◌≡◌, refl, some, Result, ok, true, false}
use fiaas_deploy_daemon.Specs.Value.{
  Value, bool, num, str, seq, mapping, nil, cons, Fields, end, field,
}
use fiaas_deploy_daemon.Specs.SpecFactory.{transform}
use fiaas_deploy_daemon.Specs.V2Transformer.Drafting.{readers}
use fiaas_deploy_daemon.Specs.V2Transformer.{v2_transformer}
use fiaas_deploy_daemon.Specs.V2Transformer.Migrated.{
  transformers, IsMigrated, transform-IsMigrated,
}

abbrev with_host : Fields
with_host = field "version" (num 2) (field "host" (str "a.example.com") end)

abbrev check : Value
check = mapping (field "http" (mapping (field "path" (str "/") end)) end)

abbrev prometheus : Value
prometheus =
    mapping
      (field "prometheus" (mapping (field "path" (str "/internal-backstage/prometheus") end)) end)

abbrev ports : Value
ports = seq (cons (mapping (field "target_port" (num 80) end)) nil)

abbrev checks : Value
checks = mapping (field "liveness" check (field "readiness" check end))

abbrev replicas : Value
replicas = mapping (field "maximum" (num 2) end)

-- What is left of a document with a host where the defaults are stripped.
rewritten :
    v2_transformer with_host true
    ≡ ok (
        field "version" (num 3) (
          field "replicas" replicas (
            field "healthchecks" checks (
              field "metrics" prometheus (
                field "ingress"
                  (seq (cons (mapping (field "host" (str "a.example.com") end)) nil))
                  (field "ports" ports end))))))
unfolding v2_transformer readers
rewritten = refl

abbrev without_metrics : Fields
without_metrics =
    field "version" (num 2) (field "prometheus" (mapping (field "enabled" (bool false) end)) end)

-- The setting that is false is lost where the defaults are stripped.
lost_setting :
    v2_transformer without_metrics true
    ≡ ok (
        field "version" (num 3) (
          field "replicas" replicas
            (field "healthchecks" checks (field "metrics" prometheus (field "ports" ports end)))))
unfolding v2_transformer readers
lost_setting = refl

transform-IsMigrated_example :
    (r : Result Fields) × (transform 3 transformers 4 with_host true ≡ some r) × IsMigrated r
transform-IsMigrated_example = transform-IsMigrated with_host true
