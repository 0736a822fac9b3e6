-- ===== src/Deployer/Kubernetes/Deployment/PodMounts.antt =====
-- That the changes of fiaas_deploy_daemon/deployer/kubernetes/deployment/datadog.py, prometheus.py
-- and secrets.py mount volumes of the pod.
use fiaas_deploy_daemon.Base.{
  ℕ, ◌+◌, String, ◌≡◌, refl, inl, inr, Bool, [], ◌∷◌, Bool-cases, All-append, ok, ◌>>=◌, >>=-eq-ok,
  ok-injective,
}
use mathlib.Core.Path.{subst}
use fiaas_deploy_daemon.Deployer.Spec.{AppSpec}
use fiaas_deploy_daemon.Deployer.Kubernetes.Deployment.Types.{
  Container, PodSpec, Deployment, Settings,
}
use fiaas_deploy_daemon.Deployer.Kubernetes.Deployment.Parts.{
  on_main, with_annotations, on_pod-eq-ok,
}
use fiaas_deploy_daemon.Deployer.Kubernetes.Deployment.Secrets.{apply_secrets}
use fiaas_deploy_daemon.Deployer.Kubernetes.Deployment.Datadog.{
  add_container, add_datadog, apply_datadog, configured_image, create_datadog_container,
  datadog_container, with_statsd,
}
use fiaas_deploy_daemon.Deployer.Kubernetes.Deployment.Prometheus.{apply_prometheus}
use fiaas_deploy_daemon.Deployer.Kubernetes.Deployment.Assemble.{decorate}
use fiaas_deploy_daemon.Deployer.Kubernetes.Deployment.Mounts.{
  MountsOf, on_main-AreMounted, IsMounted,
}
use fiaas_deploy_daemon.Deployer.Kubernetes.Deployment.SecretMounts.{apply_secrets-IsMounted}

add_datadog-IsMounted :
    (config : Settings) (app_spec : AppSpec) (besteffort : Bool) (delay : ℕ) (pod pod' : PodSpec)
    → add_datadog config app_spec besteffort delay pod ≡ ok pod'
    → IsMounted app_spec pod
    → IsMounted app_spec pod'
unfolding add_datadog create_datadog_container datadog_container with_statsd
add_datadog-IsMounted config app_spec besteffort delay pod pod' h good =
    let made : String → Container = datadog_container config app_spec besteffort delay in
    let (p, e, h1) =
      >>=-eq-ok (on_main with_statsd pod)
        (λ p.
          create_datadog_container config app_spec besteffort delay
          >>= (λ c. ok (add_container c p)))
        h in
    let (c, e1, h2) =
      >>=-eq-ok (create_datadog_container config app_spec besteffort delay)
        (λ c. ok (add_container c p)) h1 in
    let (image, e2, h3) = >>=-eq-ok (configured_image config) (λ image. ok (made image)) e1 in
    let (cs, inits, own, tmp) =
      on_main-AreMounted app_spec [] [] with_statsd (λ x. refl) tt pod p (λ xs. xs) (λ xs hs. hs) e
        good in
    subst (IsMounted app_spec) (ok-injective h2) (
      All-append (MountsOf p.volumes) p.containers (c ∷ []) cs
          (subst (MountsOf p.volumes) (ok-injective h3) tt, tt),
      inits,
      own,
      tmp,
    )

apply_datadog-IsMounted :
    (config : Settings) (app_spec : AppSpec) (besteffort : Bool) (delay : ℕ) (d d' : Deployment)
    → apply_datadog config app_spec besteffort delay d ≡ ok d'
    → IsMounted app_spec d.spec.template_spec
    → IsMounted app_spec d'.spec.template_spec
unfolding apply_datadog
apply_datadog-IsMounted config app_spec besteffort delay d d' h good =
    elim (Bool-cases app_spec.datadog.enabled) [
      | inr off ↦
          subst (λ (y : Deployment). IsMounted app_spec y.spec.template_spec)
            (ok-injective (rw off at h)) good
      | inl on ↦
          add_datadog-IsMounted config app_spec besteffort delay d.spec.template_spec
            d'.spec.template_spec
            (on_pod-eq-ok (add_datadog config app_spec besteffort delay) d (rw on at h)) good
    ]

apply_prometheus-IsMounted :
    (app_spec : AppSpec) (d : Deployment)
    → IsMounted app_spec d.spec.template_spec
    → IsMounted app_spec (apply_prometheus app_spec d).spec.template_spec
unfolding apply_prometheus with_annotations
apply_prometheus-IsMounted app_spec d good = elim (Bool-cases app_spec.prometheus.enabled) [
  | inl on ↦ rw on good
  | inr off ↦ rw off good
]

-- What DataDog, Prometheus and Secrets make of a Deployment mounts only volumes of its pod, whatever
-- the settings and however many secrets there are, if that Deployment mounts only volumes of its pod
-- and has the volumes of the application's configuration and of temporary files.
pub decorate-IsMounted :
    (config : Settings) (app_spec : AppSpec) (besteffort : Bool) (d d' : Deployment)
    → decorate config app_spec besteffort d ≡ ok d'
    → IsMounted app_spec d.spec.template_spec
    → IsMounted app_spec d'.spec.template_spec
unfolding decorate
decorate-IsMounted config app_spec besteffort d d' h good =
    let delay = config.pre_stop_delay + 5 in
    let (x, e, k) =
      >>=-eq-ok (apply_datadog config app_spec besteffort delay d)
        (λ x. apply_secrets config app_spec (apply_prometheus app_spec x)) h in
    apply_secrets-IsMounted config app_spec (apply_prometheus app_spec x) d' k (
      apply_prometheus-IsMounted app_spec x
        (apply_datadog-IsMounted config app_spec besteffort delay d x e good))
