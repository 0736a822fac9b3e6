-- ===== src/Specs/Tests.antt =====
-- Runs of the lookup, of the chain of transformers and of the version 3 factory.
use fiaas_deploy_daemon.Base.{
  ℕ, String, ◌≡◌, refl, sym, ap, false, none, some, List, [], ◌∷◌, arith, All, Result, ok,
  ok-injective,
}
use fiaas_deploy_daemon.Specs.Value.{
  Value, null, num, str, seq, mapping, Fields, end, field, from_items, eq_value,
}
use fiaas_deploy_daemon.Specs.Lookup.{Lookup, leaf, lookup_mapping, lookup_list, elements, get_key}
use fiaas_deploy_daemon.Specs.Lookup.Laws.{get_path, value_at, overlay, get_path-overlay}
use fiaas_deploy_daemon.Specs.SpecFactory.{version_of, Transformer, Transformers, transform}
use fiaas_deploy_daemon.Specs.SpecFactory.Chain.{Finished, Raises, transform-Finished}
use fiaas_deploy_daemon.Specs.Models.{IngressItemSpec, AutoscalerSpec, CheckSpec}
use fiaas_deploy_daemon.Specs.V3Factory.Values.{get_value, stored}
use fiaas_deploy_daemon.Specs.V3Factory.Simple.{autoscaler_spec}
use fiaas_deploy_daemon.Specs.V3Factory.Replicas.{IsClamped, autoscaler_spec-IsClamped}
use fiaas_deploy_daemon.Specs.V3Factory.Checks.{check_spec}
use fiaas_deploy_daemon.Specs.V3Factory.Health.{IsOne, set_count, check_spec-IsOne}
use fiaas_deploy_daemon.Specs.V3Factory.IngressItems.{ingress_items}
use fiaas_deploy_daemon.Specs.V3Factory.Ports.{HasHttpPorts, ingress_items-HasHttpPorts}

-- A document with `a: {b: 3}` over the defaults `a: {b: 1, c: 2}`.
abbrev config : Value
config = mapping (field "a" (mapping (field "b" (num 3) end)) end)

abbrev defaults : Fields
defaults = field "a" (mapping (field "b" (num 1) (field "c" (num 2) end))) end

get_path-overlay_example :
    get_path (lookup_mapping config defaults) ("a" ∷ "b" ∷ [])
    ≡ ok (
        leaf (
          overlay
            (value_at config ("a" ∷ "b" ∷ []))
            (value_at (mapping defaults) ("a" ∷ "b" ∷ []))))
get_path-overlay_example = get_path-overlay config defaults "a" ("b" ∷ []) (tt, (tt, tt))

absent_key : get_path (lookup_mapping config defaults) ("a" ∷ "c" ∷ []) ≡ ok (leaf (num 2))
unfolding get_key
absent_key = refl

-- A transformer of version 2 documents to an empty document of version 3.
abbrev to_version_3 : Transformer
to_version_3 c s = ok (field "version" (num 3) end)

abbrev transformers : Transformers
transformers = (2, to_version_3) ∷ []

transformers-Raises : Raises transformers
transformers-Raises = ((λ c d s e. (3, version_of_result d e, omega arith)), tt)
  where
    version_of_result :
        (d : Fields) → ok (field "version" (num 3) end) ≡ ok d → version_of d ≡ num 3
    version_of_result d e = ap version_of (sym (ok-injective e))

transform-Finished_example :
    (r : Result Fields) × (transform 3 transformers 4 (field "version" (num 2) end) false ≡ some r)
    × Finished 3 r
transform-Finished_example =
    transform-Finished 3 transformers transformers-Raises 4 (omega arith)
      (field "version" (num 2) end) false

-- Replicas of which the minimum is above the maximum.
abbrev replicas : Lookup
replicas = lookup_mapping (mapping (field "minimum" (num 7) (field "maximum" (num 4) end))) (
    field "minimum" (num 2)
      (field "maximum" (num 5) (field "cpu_threshold_percentage" (num 50) end)))

abbrev four_replicas : AutoscalerSpec Value
four_replicas = record {
  enabled = false;
  min_replicas = num 4;
  max_replicas = num 4;
  cpu_threshold_percentage = num 50;
}

read_minimum : get_value replicas "minimum" ≡ ok (num 7)
unfolding get_value get_key stored
read_minimum = refl

read_maximum : get_value replicas "maximum" ≡ ok (num 4)
unfolding get_value get_key stored
read_maximum = refl

read_replicas : autoscaler_spec replicas ≡ ok four_replicas
unfolding autoscaler_spec get_value get_key stored eq_value
read_replicas = refl

autoscaler_spec-IsClamped_example : IsClamped 7 4 four_replicas
autoscaler_spec-IsClamped_example =
    autoscaler_spec-IsClamped replicas 7 4 four_replicas read_minimum read_maximum read_replicas

-- Two declared ports, of which one is http.
abbrev port : String → String → ℕ → Value
port protocol name number =
    mapping
      (field "protocol" (str protocol) (field "name" (str name) (field "port" (num number) end)))

abbrev port_defaults : Fields
port_defaults =
    field "protocol" (str "http") (field "name" (str "http") (field "port" (num 80) end))

abbrev ports : Lookup
ports =
    lookup_list (seq (from_items (port "tcp" "admin" 9000 ∷ port "http" "web" 8080 ∷ [])))
      (from_items (mapping port_defaults ∷ []))

abbrev port_lookups : List Lookup
port_lookups =
    lookup_mapping (port "tcp" "admin" 9000) port_defaults
    ∷ lookup_mapping (port "http" "web" 8080) port_defaults
    ∷ []

abbrev path_defaults : Fields
path_defaults = field "path" (str "/") (field "port" (str "http") end)

abbrev ingress_defaults : Value
ingress_defaults = mapping (
    field "host" null (
      field "paths" (seq (from_items (mapping path_defaults ∷ [])))
        (field "annotations" (mapping end) end)))

abbrev ingress : Lookup
ingress =
    lookup_list
      (seq (
        from_items (
          mapping (
            field "host" (str "a.example.com")
              (field "paths" (seq (from_items (mapping (field "port" (str "web") end) ∷ []))) end))
          ∷ [])))
      (from_items (ingress_defaults ∷ []))

abbrev web_items : List (IngressItemSpec Value Value Value Value)
web_items =
    (record {
      host = str "a.example.com";
      pathmappings = (record { path = str "/"; port = num 8080 }) ∷ [];
      annotations = mapping end;
    })
    ∷ []

read_ports : elements ports ≡ ok port_lookups
unfolding elements
read_ports = refl

read_ingress : ingress_items ingress ports ≡ ok web_items
unfolding ingress_items
read_ingress = refl

ingress_items-HasHttpPorts_example : All (HasHttpPorts port_lookups) web_items
ingress_items-HasHttpPorts_example =
    ingress_items-HasHttpPorts ingress ports port_lookups web_items read_ports read_ingress

-- A health check by a command.
abbrev check : Lookup
check =
    lookup_mapping (mapping (field "execute" (mapping (field "command" (str "/bin/ok") end)) end)) (
      field "execute" (mapping (field "command" null end)) (
        field "initial_delay_seconds" (num 10) (
          field "period_seconds" (num 10) (
            field "success_threshold" (num 1)
              (field "failure_threshold" (num 3) (field "timeout_seconds" (num 1) end))))))

abbrev command_check : CheckSpec Value Value Value
command_check = record {
  execute = some (record { command = str "/bin/ok" });
  http = none;
  tcp = none;
  initial_delay_seconds = num 10;
  period_seconds = num 10;
  success_threshold = num 1;
  failure_threshold = num 3;
  timeout_seconds = num 1;
}

read_check : check_spec check ports ≡ ok command_check
unfolding check_spec
read_check = refl

check_spec-IsOne_example : IsOne ports (set_count command_check)
check_spec-IsOne_example = check_spec-IsOne check ports command_check read_check
