-- ===== src/Specs/V3Factory/Checks.antt =====
-- The health checks of fiaas_deploy_daemon/specs/v3/factory.py.
use fiaas_deploy_daemon.Base.{
  not, ◌&&◌, Option, none, some, eqb, if◌then◌else◌, invalid_configuration, Result, ok, raise,
  ◌>>=◌, ◌>>◌, guard,
}
use fiaas_deploy_daemon.Specs.Value.{Value, str, truthy, eq_value}
use fiaas_deploy_daemon.Specs.Lookup.{Lookup, get_key, get_index, get_config_value, len_lookup, raw}
use fiaas_deploy_daemon.Specs.Models.{
  ExecCheckSpec, HttpCheckSpec, TcpCheckSpec, CheckSpec, HealthCheckSpec,
}
use fiaas_deploy_daemon.Specs.V3Factory.Values.{get_value, lookup_truthy}

-- The choice of a port that `_http_check_spec` and `_tcp_check_spec` share.
check_port : Lookup → Option Lookup → Result Value
unfolding get_config_value get_value lookup_truthy
check_port check first_port = do
  own ← get_config_value check "port"
  if truthy own then get_value check "port" else elim first_port [
    | none ↦ raise invalid_configuration
    | some p ↦ (do
      present ← lookup_truthy p
      if present then get_value p "name" else raise invalid_configuration)
  ]

-- `Factory._http_check_spec`
unfoldable pub http_check_spec : Lookup → Option Lookup → Result (HttpCheckSpec Value Value)
unfolding check_port get_value get_key raw
http_check_spec check first_port = do
  port ← check_port check first_port
  path ← get_value check "path"
  h ← get_key check "http_headers"
  http_headers ← raw h
  ok (record { path = path; port = port; http_headers = http_headers })

-- `Factory._tcp_check_spec`
unfoldable pub tcp_check_spec : Lookup → Option Lookup → Result (TcpCheckSpec Value)
unfolding check_port
tcp_check_spec check first_port = do port ← check_port check first_port; ok (record { port = port })

-- `Factory._exec_check_spec`
unfoldable pub exec_check_spec : Lookup → Result (ExecCheckSpec Value)
unfolding get_value
exec_check_spec check = do command ← get_value check "command"; ok (record { command = command })

-- The three alternatives of a check, of which at most one is set.
abbrev pub Checks : Type 0
Checks =
    Option (ExecCheckSpec Value) × Option (HttpCheckSpec Value Value) × Option (TcpCheckSpec Value)

abbrev pub exec_only : ExecCheckSpec Value → Result Checks
exec_only c = ok (some c, none, none)

abbrev pub http_only : HttpCheckSpec Value Value → Result Checks
http_only c = ok (none, some c, none)

abbrev pub tcp_only : TcpCheckSpec Value → Result Checks
tcp_only c = ok (none, none, some c)

-- The last branches of `_check_spec`: the check that follows from the only port.
unfoldable pub check_of_port : Lookup → Lookup → Result Checks
unfolding get_key get_index get_value http_check_spec tcp_check_spec len_lookup eq_value
check_of_port check ports = do
  n ← len_lookup ports
  guard (eqb n 1) invalid_configuration
  first_port ← get_index ports 0
  protocol ← get_value first_port "protocol"
  if eq_value protocol (str "http")
      then (do c ← get_key check "http"; s ← http_check_spec c (some first_port); http_only s)
      else (if eq_value protocol (str "tcp")
          then (do c ← get_key check "tcp"; s ← tcp_check_spec c (some first_port); tcp_only s)
          else ok (none, none, none))

unfoldable pub first_port? : Lookup → Result (Option Lookup)
unfolding lookup_truthy get_index
first_port? ports = do
  present ← lookup_truthy ports
  if present then (do p ← get_index ports 0; ok (some p)) else ok none

-- The ladder of `_check_spec`.
unfoldable pub choose_check : Lookup → Lookup → Result Checks
unfolding get_config_value get_key exec_check_spec http_check_spec tcp_check_spec first_port?
    check_of_port
choose_check check ports = do
  first_port ← first_port? ports
  execute ← get_config_value check "execute"
  if truthy execute
      then (do c ← get_key check "execute"; s ← exec_check_spec c; exec_only s)
      else (do
        http ← get_config_value check "http"
        if truthy http
            then (do c ← get_key check "http"; s ← http_check_spec c first_port; http_only s)
            else (do
              tcp ← get_config_value check "tcp"
              if truthy tcp
                  then (do c ← get_key check "tcp"; s ← tcp_check_spec c first_port; tcp_only s)
                  else check_of_port check ports))

-- `Factory._check_spec`
unfoldable pub check_spec : Lookup → Lookup → Result (CheckSpec Value Value Value)
unfolding choose_check get_value
check_spec check ports = do
  c ← choose_check check ports
  initial_delay_seconds ← get_value check "initial_delay_seconds"
  period_seconds ← get_value check "period_seconds"
  success_threshold ← get_value check "success_threshold"
  failure_threshold ← get_value check "failure_threshold"
  timeout_seconds ← get_value check "timeout_seconds"
  ok (record {
    execute = c.0;
    http = c.1;
    tcp = c.2;
    initial_delay_seconds = initial_delay_seconds;
    period_seconds = period_seconds;
    success_threshold = success_threshold;
    failure_threshold = failure_threshold;
    timeout_seconds = timeout_seconds;
  })

-- `Factory._health_checks_spec`
unfoldable pub health_checks_spec : Lookup → Lookup → Result (HealthCheckSpec Value Value Value)
unfolding get_key get_config_value check_spec
health_checks_spec healthchecks ports = do
  l ← get_key healthchecks "liveness"
  liveness ← check_spec l ports
  own_readiness ← get_config_value healthchecks "readiness"
  own_liveness ← get_config_value healthchecks "liveness"
  readiness ←
      (if not (truthy own_readiness) && truthy own_liveness
        then ok liveness
        else (do r ← get_key healthchecks "readiness"; check_spec r ports))
  ok (record { liveness = liveness; readiness = readiness })
