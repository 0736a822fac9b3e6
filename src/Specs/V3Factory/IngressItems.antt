-- ===== src/Specs/V3Factory/IngressItems.antt =====
-- The ingress items of fiaas_deploy_daemon/specs/v3/factory.py, with their ports resolved.
use fiaas_deploy_daemon.Base.{
  Bool, not, ◌||◌, List, [], ◌∷◌, ltb, if◌then◌else◌, length, any, invalid_configuration,
  type_error, Result, ok, raise, ◌>>=◌, ◌>>◌, guard,
}
use fiaas_deploy_daemon.Specs.Value.{Value, null, str, truthy, is_mapping, is_seq, eq_value}
use fiaas_deploy_daemon.Specs.Lookup.{Lookup, get_key, elements}
use fiaas_deploy_daemon.Specs.Models.{IngressPathMappingSpec, IngressItemSpec}
use fiaas_deploy_daemon.Specs.V3Factory.Values.{get_value, map_result}

-- The HTTP ports by name, `{port["name"]: port["port"] for … if port["protocol"] == "http"}`. The
-- keys are values; a list or a dict cannot be a key.
abbrev pub hashable : Value → Bool
hashable v = not (is_mapping v || is_seq v)

unfoldable pub put_port : Value → Value → List (Value × Value) → List (Value × Value)
unfolding eq_value
put_port k p [] = (k, p) ∷ []
put_port k p ((j, q) ∷ m) = if eq_value j k then (j, p) ∷ m else (j, q) ∷ put_port k p m

unfoldable pub http_ports_from : List (Value × Value) → List Lookup → Result (List (Value × Value))
unfolding get_value put_port
http_ports_from m [] = ok m
http_ports_from m (p ∷ ps) = do
  protocol ← get_value p "protocol"
  next ←
      (if eq_value protocol (str "http")
        then (do
          name ← get_value p "name"
          port ← get_value p "port"
          guard (hashable name) type_error
          ok (put_port name port m))
        else ok m)
  http_ports_from next ps

unfoldable pub port_get : List (Value × Value) → Value → Value
unfolding eq_value
port_get [] k = null
port_get ((j, p) ∷ m) k = if eq_value j k then p else port_get m k

-- `resolve_port_number` of `_ingress_items`
unfoldable pub resolve_port_number : List (Value × Value) → Value → Result Value
unfolding port_get eq_value
resolve_port_number http_ports port = do
  guard (hashable port) type_error
  let port_number = port_get http_ports port
  if truthy port_number
      then ok port_number
      else (if any (λ kp. eq_value kp.1 port) http_ports
          then ok port
          else raise invalid_configuration)

-- `ingress_item` of `_ingress_items`
unfoldable pub path_mapping :
    List (Value × Value) → Lookup → Result (IngressPathMappingSpec Value Value)
unfolding get_value resolve_port_number
path_mapping http_ports l = do
  path ← get_value l "path"
  wanted ← get_value l "port"
  port ← resolve_port_number http_ports wanted
  ok (record { path = path; port = port })

unfoldable pub ingress_item :
    List (Value × Value) → Lookup → Result (IngressItemSpec Value Value Value Value)
unfolding get_value get_key elements path_mapping
ingress_item http_ports l = do
  host ← get_value l "host"
  p ← get_key l "paths"
  annotations ← get_value l "annotations"
  paths ← elements p
  pathmappings ← map_result (path_mapping http_ports) paths
  ok (record { host = host; pathmappings = pathmappings; annotations = annotations })

-- `Factory._ingress_items`
unfoldable pub ingress_items :
    Lookup → Lookup → Result (List (IngressItemSpec Value Value Value Value))
unfolding elements http_ports_from ingress_item
ingress_items ingress ports = do
  ps ← elements ports
  http_ports ← http_ports_from [] ps
  if ltb 0 (length http_ports)
      then (do is ← elements ingress; map_result (ingress_item http_ports) is)
      else ok []
