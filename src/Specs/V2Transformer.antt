-- ===== src/Specs/V2Transformer.antt =====
-- fiaas_deploy_daemon/specs/v2/transformer.py: a version 2 document rewritten as one of version 3.
pub mod Drafting
pub mod Strip
pub mod Version
pub mod Stripped
pub mod Migrated
mod Tests
use fiaas_deploy_daemon.Base.{
  ◌++◌, ℕ, suc, zero, ◌+◌, ◌-◌, ◌≤◌, ◌<◌, String, ◌<>◌, ◌≡◌, refl, sym, ap, ◌∙◌, ◌≢◌, ◌↔◌, ◌⊎◌, inl,
  inr, Bool, true, false, not, ◌&&◌, ◌||◌, Option, none, some, List, [], ◌∷◌, map, arith, eq_iff,
  eq_refl, ◌==◌, ltb, leb, eqb, if◌then◌else◌, Bool-cases, Option-cases, leb→le, leb-false→lt,
  length, any, all, filter, contains, All, All-append, All-map, Error, invalid_configuration,
  value_error, key_error, index_error, type_error, attribute_error, runtime_error, yaml_error,
  retry_error, not_found, client_error, upsert_conflict, Result, ok, raise, ◌>>=◌, ◌>>◌, guard,
  >>=-eq-ok, ok-injective, guard-eq-ok, raise-ne-ok, >>=-eq-raise, >>=-ok-eq-raise, Result-cases,
  Eff,
}
use fiaas_deploy_daemon.Specs.Value.{
  Value, null, bool, num, str, seq, mapping, undefined, Items, nil, cons, Fields, end, field, items,
  fields, get_or_null, get_item, truthy, is_null, from_items, from_fields, set_item, eq_value,
}
use fiaas_deploy_daemon.Specs.Lookup.{
  Lookup, leaf, lookup_mapping, lookup_list, make_mapping, get_key, get_index, get_config_value,
  len_lookup, items_lookup, elements, choose,
}
use fiaas_deploy_daemon.Specs.Defaults.{v2_defaults}
use fiaas_deploy_daemon.Specs.V3Factory.Values.{get_value, map_result}
use fiaas_deploy_daemon.Specs.V2Transformer.Drafting.{
  Draft, read, given, dict, Drafts, no_drafts, draft, set_draft, set_path, get_path, update_drafts,
  flatten_drafts, from_drafts,
}
use fiaas_deploy_daemon.Specs.V2Transformer.Strip.{strip_v3_defaults}

-- `_health_check` without a check in the configuration: the check of the only port.
unfoldable default_check : Lookup → Result (List (String × Draft))
unfolding len_lookup get_index get_key get_value eq_value
default_check ports_lookup = do
  n ← len_lookup ports_lookup
  guard (leb n 1) invalid_configuration
  port ← get_index ports_lookup 0
  protocol ← get_value port "protocol"
  if eq_value protocol (str "http")
      then (do
        path ← get_key port "path"
        name ← get_key port "name"
        ok (("http", dict (draft "path" (read path) (draft "port" (read name) no_drafts))) ∷ []))
      else (if eq_value protocol (str "tcp")
          then (do
            name ← get_key port "name"
            ok (("tcp", dict (draft "port" (read name) no_drafts)) ∷ []))
          else ok [])

-- The `for` loop of `_health_check`, with what follows it.
unfoldable configured_check : Lookup → Lookup → List String → Result (List (String × Draft))
unfolding default_check get_config_value get_key
configured_check lookup ports_lookup [] = default_check ports_lookup
configured_check lookup ports_lookup (check ∷ checks) = do
  value ← get_config_value lookup check
  if truthy value
      then (do l ← get_key lookup check; ok ((check, read l) ∷ []))
      else configured_check lookup ports_lookup checks

abbrev check_kinds : List String
check_kinds = "execute" ∷ "http" ∷ "tcp" ∷ []

-- `_health_check`
unfoldable pub health_check : Lookup → Lookup → Result Draft
unfolding items_lookup configured_check update_drafts from_drafts
health_check lookup ports_lookup = do
  entries ← items_lookup lookup
  chosen ← configured_check lookup ports_lookup check_kinds
  ok (
      dict (
        update_drafts
          (from_drafts (
            map (λ kl. (kl.0, read kl.1)) (filter (λ kl. not (contains check_kinds kl.0)) entries)))
          chosen))

-- The liveness and the readiness check of `Transformer.__call__`.
unfoldable pub both_checks : Lookup → Result (Draft × Draft)
unfolding get_key get_config_value health_check
both_checks lookup = do
  checks ← get_key lookup "healthchecks"
  ports ← get_key lookup "ports"
  liveness_lookup ← get_key checks "liveness"
  liveness ← health_check liveness_lookup ports
  readiness_config ← get_config_value checks "readiness"
  liveness_config ← get_config_value checks "liveness"
  readiness ←
      (if not (truthy readiness_config) && truthy liveness_config
        then ok liveness
        else (do l ← get_key checks "readiness"; health_check l ports))
  ok (liveness, readiness)

-- The dict that `Transformer.__call__` starts with.
unfoldable pub first_config : Lookup → Draft → Draft → Result Drafts
unfolding get_path
first_config lookup liveness readiness = do
  replicas ← get_key lookup "replicas"
  threshold ← get_path lookup ("autoscaler" ∷ "cpu_threshold_percentage" ∷ [])
  ok (
      draft "version" (given (num 3)) (
        draft "replicas"
          (dict (
            draft "minimum" (read replicas) (
              draft "maximum" (read replicas)
                (draft "cpu_threshold_percentage" (read threshold) no_drafts))))
          (draft "healthchecks"
            (dict (draft "liveness" liveness (draft "readiness" readiness no_drafts))) no_drafts)))

abbrev pub copy_mapping : List (List String × (List String × String))
copy_mapping =
    ("prometheus" ∷ [], ("metrics" ∷ [], "prometheus"))
    ∷ ("admin_access" ∷ [], ([], "admin_access"))
    ∷ []

-- The loop over `COPY_MAPPING`
unfoldable pub copy_values :
    List (List String × (List String × String)) → Lookup → Drafts → Result Drafts
unfolding get_path set_path
copy_values [] lookup ds = ok ds
copy_values ((old, (keys, last)) ∷ mappings) lookup ds = do
  value ← get_path lookup old
  changed ← set_path ds keys last (read value)
  copy_values mappings lookup changed

-- The floor of the replicas, where the autoscaler is enabled.
unfoldable pub set_minimum : Lookup → Drafts → Result Drafts
unfolding get_path set_path get_value
set_minimum lookup ds = do
  autoscaler ← get_key lookup "autoscaler"
  enabled ← get_value autoscaler "enabled"
  if truthy enabled
      then (do
        least ← get_key autoscaler "min_replicas"
        set_path ds ("replicas" ∷ []) "minimum" (read least))
      else ok ds

-- `_resource_requirement`
unfoldable or_undefined : Value → Value
or_undefined v = if is_null v then undefined else v

unfoldable resource_requirement : Lookup → Result Draft
unfolding get_config_value or_undefined
resource_requirement lookup = do
  cpu ← get_config_value lookup "cpu"
  memory ← get_config_value lookup "memory"
  ok (
      dict (
        draft "cpu" (given (or_undefined cpu))
          (draft "memory" (given (or_undefined memory)) no_drafts)))

unfoldable pub set_requirements : List String → Lookup → Drafts → Result Drafts
unfolding get_path set_path resource_requirement
set_requirements [] lookup ds = ok ds
set_requirements (requirement_type ∷ types) lookup ds = do
  requirement ← get_path lookup ("resources" ∷ requirement_type ∷ [])
  resources ← resource_requirement requirement
  changed ← set_path ds ("resources" ∷ []) requirement_type resources
  set_requirements types lookup changed

-- The loop of `_ports`: the paths, and the ports.
unfoldable port_entries : List Lookup → Result (List Value × List Value)
unfolding get_value eq_value
port_entries [] = ok ([], [])
port_entries (port ∷ ports) = do
  protocol ← get_value port "protocol"
  paths ←
      (if eq_value protocol (str "http")
        then (do
          path ← get_value port "path"
          name ← get_value port "name"
          ok (mapping (field "path" path (field "port" name end)) ∷ []))
        else ok [])
  name ← get_value port "name"
  number ← get_value port "port"
  target_port ← get_value port "target_port"
  rest ← port_entries ports
  let entry = mapping (
      field "protocol" protocol
        (field "name" name (field "port" number (field "target_port" target_port end))))
  ok (paths ++ rest.0, entry ∷ rest.1)

unfoldable ingress_of : Value → List Value → List Value
ingress_of host [] = []
ingress_of host (p ∷ ps) =
    mapping (field "host" host (field "paths" (seq (from_items (p ∷ ps))) end)) ∷ []

-- `_ports`
unfoldable pub ports_config : Lookup → Value → Result (List (String × Draft))
unfolding elements port_entries ingress_of
ports_config lookup host = do
  ports ← elements lookup
  entries ← port_entries ports
  ok (
      ("ingress", given (seq (from_items (ingress_of host entries.0))))
      ∷ ("ports", given (seq (from_items entries.1)))
      ∷ [])

-- `Transformer.__call__` before `_strip_v3_defaults`.
unfoldable pub new_config : Fields → Result Drafts
unfolding make_mapping get_key both_checks first_config copy_values set_minimum set_draft
    set_requirements ports_config update_drafts get_value
new_config app_config = do
  lookup ← make_mapping (mapping app_config) v2_defaults
  checks ← both_checks lookup
  first ← first_config lookup checks.0 checks.1
  copied ← copy_values copy_mapping lookup first
  scaled ← set_minimum lookup copied
  limited ←
      set_requirements ("limits" ∷ "requests" ∷ []) lookup
        (set_draft scaled "resources" (dict no_drafts))
  ports ← get_key lookup "ports"
  host ← get_value lookup "host"
  entries ← ports_config ports host
  ok (update_drafts limited entries)

-- `Transformer.__call__`
unfoldable pub v2_transformer : Fields → Bool → Result Fields
unfolding new_config flatten_drafts strip_v3_defaults
v2_transformer app_config strip_defaults = do
  drafts ← new_config app_config
  flat ← flatten_drafts drafts
  if strip_defaults then strip_v3_defaults flat else ok flat
