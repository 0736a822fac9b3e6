-- ===== src/Deployer/ReadyCheck.antt =====
-- fiaas_deploy_daemon/deployer/kubernetes/ready_check.py: the task that waits for a deployment. Times
-- are whole seconds. What the cluster answers is given: the deployment, the ingresses and the
-- certificates, as far as the check reads them.
pub mod Laws
use fiaas_deploy_daemon.Base.{
  ◌*◌, ℕ, suc, zero, ◌+◌, ◌-◌, ◌≤◌, ◌<◌, String, ◌<>◌, ◌≡◌, refl, sym, ap, ◌∙◌, ◌≢◌, ◌↔◌, ◌⊎◌, inl,
  inr, Bool, true, false, not, ◌&&◌, ◌||◌, Option, none, some, List, [], ◌∷◌, ◌++◌, map, arith,
  eq_iff, eq_refl, ◌==◌, ltb, leb, eqb, if◌then◌else◌, Bool-cases, Option-cases, leb→le,
  leb-false→lt, length, any, all, filter, contains, All, All-append, All-map, Error,
  invalid_configuration, value_error, key_error, index_error, type_error, attribute_error,
  runtime_error, yaml_error, retry_error, not_found, client_error, upsert_conflict, Result, ok,
  raise, ◌>>=◌, ◌>>◌, guard, >>=-eq-ok, ok-injective, guard-eq-ok, raise-ne-ok, Result-cases, Eff,
}
use fiaas_deploy_daemon.Deployer.Spec.{AppSpec}
use fiaas_deploy_daemon.Deployer.Lifecycle.{
  Status, Subject, Event, signal, count_error, count_success, Log, change, increment,
}
use fiaas_deploy_daemon.Base.Effect

-- The fields of a Deployment that `_deployment_ready` reads; those of the status may be missing.
pub record DeploymentView : Type 0 where
  pub spec_replicas : ℕ
  pub updated_replicas : Option ℕ
  pub status_replicas : Option ℕ
  pub available_replicas : Option ℕ
  pub observed_generation : Option ℕ
  pub generation : ℕ

-- The fields of a Certificate; `not_after` is in seconds.
pub record CertificateView : Type 0 where
  pub not_after : Option ℕ
  pub conditions : List (String × String)

-- The fields of an Ingress: its namespace and the secret names of its `spec.tls`.
pub record IngressView : Type 0 where
  pub namespace : String
  pub secret_names : List String

abbrev pub same_number : Option ℕ → Option ℕ → Bool
same_number none none = true
same_number (some a) (some b) = eqb a b
same_number _ _ = false

-- `observed >= generation`, where a missing number is no operand.
abbrev pub has_observed : Option ℕ → ℕ → Result Bool
has_observed none generation = raise type_error
has_observed (some observed) generation = ok (leb generation observed)

-- The test of `_deployment_ready`: no replicas are `None` in the status. The generation is read only
-- where the three counts are the expected ones.
unfoldable pub is_rolled_out : DeploymentView → Result Bool
is_rolled_out dep =
    let expected_value : Option ℕ =
      (if ltb 0 dep.spec_replicas then some dep.spec_replicas else none) in
    if same_number dep.updated_replicas expected_value
      && same_number dep.status_replicas expected_value
      && same_number dep.available_replicas expected_value
    then has_observed dep.observed_generation dep.generation
    else ok false

-- `except NotFound: return False`
abbrev pub found_or_false : {A : Type 0} → Result A → (A → Result Bool) → Result Bool
found_or_false (ok a) f = f a
found_or_false (raise not_found) f = ok false
found_or_false (raise e) f = raise e

-- The loop over the conditions: the first one of type Ready decides.
unfoldable pub ready_condition : List (String × String) → Bool
ready_condition [] = false
ready_condition ((kind, status) ∷ cs) =
    if kind == "Ready" then status == "True" else ready_condition cs

-- `_is_certificate_ready`, at the time `now`; a `notAfter` at the epoch is a date, hence true.
unfoldable pub is_certificate_ready : ℕ → CertificateView → Bool
unfolding ready_condition
is_certificate_ready now cert =
    not (elim cert.not_after [ none ↦ false | some t ↦ ltb t now ])
    && ready_condition cert.conditions

-- `_calculate_fail_time`
unfoldable pub calculate_fail_time : ℕ → ℕ → ℕ → ℕ
calculate_fail_time time_out replicas delay_seconds =
    if eqb replicas 0 then time_out * delay_seconds else time_out * delay_seconds * replicas

-- What the cluster answers to one call of the check.
pub record Cluster : Type 0 where
  pub get_deployment : String → String → Result DeploymentView
  pub find_ingresses : String → String → Result (List IngressView)
  pub get_certificate : String → String → Result CertificateView
  -- `datetime.now` and `time.monotonic`
  pub now : ℕ
  pub monotonic : ℕ

pub record ReadyCheck : Type 0 where
  pub app_spec : AppSpec
  pub lifecycle_subject : Subject
  pub fail_after : ℕ
  pub should_check_ingress : Bool

-- `ReadyCheck.__init__`: the timeout multiplier and `tls_certificate_ready` are of the
-- configuration.
unfoldable pub make_ready_check : AppSpec → Subject → ℕ → Bool → ℕ → ReadyCheck
unfolding calculate_fail_time
make_ready_check app_spec subject multiplier tls_certificate_ready monotonic = record {
  app_spec = app_spec;
  lifecycle_subject = subject;
  fail_after =
      monotonic
      + calculate_fail_time multiplier app_spec.autoscaler.max_replicas
          app_spec.health_checks.readiness.initial_delay_seconds;
  should_check_ingress = tls_certificate_ready;
}

module _ (cluster : Cluster) where
  -- The loop over the TLS entries of one ingress.
  unfoldable pub secrets_ready : String → List String → Result Bool
  unfolding is_certificate_ready
  secrets_ready namespace [] = ok true
  secrets_ready namespace (secret ∷ secrets) =
      let rest = secrets_ready namespace secrets in
      found_or_false (cluster.get_certificate secret namespace)
        (λ cert. if is_certificate_ready cluster.now cert then rest else ok false)

  -- The loop over the ingresses.
  unfoldable pub all_secrets_ready : List IngressView → Result Bool
  unfolding secrets_ready
  all_secrets_ready [] = ok true
  all_secrets_ready (i ∷ is) =
      let rest = all_secrets_ready is in
      do ready ← secrets_ready i.namespace i.secret_names; if ready then rest else ok false

  -- `_ingress_ready`
  unfoldable pub ingress_ready : AppSpec → Result Bool
  unfolding all_secrets_ready
  ingress_ready app_spec =
      found_or_false (cluster.find_ingresses app_spec.name app_spec.namespace) all_secrets_ready

  -- `_deployment_ready`
  unfoldable pub deployment_ready : AppSpec → Result Bool
  unfolding is_rolled_out
  deployment_ready app_spec =
      found_or_false (cluster.get_deployment app_spec.name app_spec.namespace) is_rolled_out

  abbrev pub tls_enabled : AppSpec → Bool
  tls_enabled app_spec = elim app_spec.ingress_tls.enabled [ none ↦ false | some b ↦ b ]

  -- `_ready`
  unfoldable pub ready : ReadyCheck → Result Bool
  unfolding deployment_ready ingress_ready
  ready check =
      if not check.should_check_ingress || not (tls_enabled check.app_spec)
      then deployment_ready check.app_spec
      else (do
        deployed ← deployment_ready check.app_spec
        if deployed then ingress_ready check.app_spec else ok false)

-- `ReadyCheck.__call__`
module _ (send : Status → Subject → Log → Result (Unit {0})) (cluster : Cluster) where
  -- A signal and its counter, after which the task is done.
  unfoldable pub finish : Status → Event → Subject → Eff Log Bool
  unfolding change
  finish status counter subject =
      Effect.◌>>◌ (change send status subject)
        (Effect.◌>>◌ (increment counter) (Effect.return false))

  unfoldable pub call_ready : ReadyCheck → Result Bool → Eff Log Bool
  unfolding finish
  call_ready check (raise e) = Effect.throw e
  call_ready check (ok true) =
      finish Status.success (count_success check.app_spec.name) check.lifecycle_subject
  call_ready check (ok false) =
      if leb check.fail_after cluster.monotonic
      then finish Status.failed (count_error check.app_spec.name) check.lifecycle_subject
      else Effect.return true

  unfoldable pub call : ReadyCheck → Eff Log Bool
  unfolding ready call_ready
  call check = call_ready check (ready cluster check)
