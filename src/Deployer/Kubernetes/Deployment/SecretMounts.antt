-- ===== src/Deployer/Kubernetes/Deployment/SecretMounts.antt =====
-- That the changes of fiaas_deploy_daemon/deployer/kubernetes/deployment/secrets.py mount volumes of the pod.
use fiaas_deploy_daemon.Base.{
  String, ◌<>◌, ◌≡◌, refl, ap, ◌⊎◌, inl, inr, true, false, Option, none, some, List, [], ◌∷◌, ◌++◌,
  eq_refl, ◌==◌, Bool-cases, Option-cases, All-append, Result, ok, ◌>>=◌, >>=-eq-ok, ok-injective,
}
use mathlib.Core.Path.{subst}
use fiaas_deploy_daemon.Base.Dict.{Dict, get, merge_dicts}
use fiaas_deploy_daemon.Deployer.Spec.{AppSpec}
use fiaas_deploy_daemon.Deployer.Kubernetes.Deployment.Types.{
  Volume, Container, PodSpec, Deployment, Settings,
}
use fiaas_deploy_daemon.Deployer.Kubernetes.Deployment.Parts.{
  on_pod, on_main, apply_mounts, apply_volumes, with_annotations, on_pod-eq-ok,
}
use fiaas_deploy_daemon.Deployer.Kubernetes.Deployment.Secrets.{
  Secret, secret_volumes, secret_mounts, env_from_secret, apply_kubernetes, init_volumes,
  init_mounts, make_init_container, add_init_container, add_secret, apply_generic,
  available_containers, apply_each, secret_specs, apply_secrets, init_name,
}
use fiaas_deploy_daemon.Deployer.Kubernetes.Deployment.Mounts.{
  has_volume, MountsOf, on_main-AreMounted, has_volume-left, IsMounted, has_volume-append,
}

env_from_secret-mounts :
    (app_spec : AppSpec) (c : Container)
    → (env_from_secret app_spec c).volume_mounts ≡ c.volume_mounts
env_from_secret-mounts app_spec c = elim (Bool-cases app_spec.secrets_in_environment) [
  | inl e ↦ rw e refl
  | inr e ↦ rw e refl
]

apply_kubernetes-IsMounted :
    (app_spec : AppSpec) (d d' : Deployment)
    → apply_kubernetes app_spec d ≡ ok d'
    → IsMounted app_spec d.spec.template_spec
    → IsMounted app_spec d'.spec.template_spec
unfolding apply_kubernetes apply_volumes apply_mounts secret_mounts secret_volumes
apply_kubernetes-IsMounted app_spec d d' h good =
    let pod = d.spec.template_spec in
    let new = secret_volumes app_spec in
    let change : Container → Container =
      λ main. apply_mounts (secret_mounts app_spec false) (env_from_secret app_spec main) in
    let f : PodSpec → Result PodSpec =
      λ p. on_main change p >>= (λ changed. ok (apply_volumes new changed)) in
    let (changed, e, k) =
      >>=-eq-ok (on_main change pod) (λ changed. ok (apply_volumes new changed))
        (on_pod-eq-ok f d h) in
    subst (IsMounted app_spec) (ok-injective k) (
      on_main-AreMounted app_spec new (secret_mounts app_spec false) change
        (λ c. ap (λ ms. secret_mounts app_spec false ++ ms) (env_from_secret-mounts app_spec c))
        (rw eq_refl refl, tt) pod changed (λ xs. xs) (λ xs h. h) e good)

init-MountsOf :
    (config : Settings) (app_spec : AppSpec) (image : String) (env_vars : Dict String)
    (volumes : List Volume)
    → has_volume volumes (app_spec.name <> "-config") ≡ true
    → has_volume volumes "tmp" ≡ true
    → MountsOf
        (init_volumes config app_spec ++ volumes)
        (make_init_container app_spec image env_vars)
unfolding init_volumes make_init_container init_mounts secret_mounts
init-MountsOf config app_spec image env_vars volumes own tmp =
    let new = init_volumes config app_spec in
    (
      has_volume-left new volumes (app_spec.name <> "-secret") (rw eq_refl refl),
      (
        has_volume-left new volumes (init_name <> "-config")
            (second (Bool-cases (app_spec.name <> "-secret" == init_name <> "-config"))),
        (
          has_volume-append new volumes (app_spec.name <> "-config") own,
          (has_volume-append new volumes "tmp" tmp, tt),
        ),
      ),
    )
  where
    second :
        (b : (app_spec.name <> "-secret" == init_name <> "-config" ≡ true)
          ⊎ (app_spec.name <> "-secret" == init_name <> "-config" ≡ false))
        → has_volume (init_volumes config app_spec) (init_name <> "-config") ≡ true
    second (inl e) = rw e refl
    second (inr e) = rw e refl

add_secret-IsMounted :
    (config : Settings) (app_spec : AppSpec) (secret : Secret) (image : String) (d d' : Deployment)
    → add_secret config app_spec secret image d ≡ ok d'
    → IsMounted app_spec d.spec.template_spec
    → IsMounted app_spec d'.spec.template_spec
unfolding add_secret add_init_container apply_mounts init_mounts secret_mounts init_volumes
    with_annotations apply_volumes
add_secret-IsMounted config app_spec secret image d d' h (cs, inits, own, tmp) =
    let pod = d.spec.template_spec in
    let container = make_init_container app_spec image secret.parameters in
    let new = init_volumes config app_spec in
    let mounts = init_mounts app_spec false in
    let finish : PodSpec → PodSpec =
      λ p. apply_volumes new (add_init_container config container p) in
    let f : PodSpec → Result PodSpec =
      λ p. on_main (apply_mounts mounts) p >>= (λ mounted. ok (finish mounted)) in
    let annotated : Deployment → Deployment = λ x.
      with_annotations
        (merge_dicts (d.spec.template_metadata.annotations ∷ secret.annotations ∷ [])) x in
    let (changed, e, k) = >>=-eq-ok (on_pod f d) (λ x. ok (annotated x)) h in
    let (mounted, e', k') =
      >>=-eq-ok (on_main (apply_mounts mounts) pod) (λ p. ok (finish p)) (on_pod-eq-ok f d e) in
    subst (λ (x : Deployment). IsMounted app_spec x.spec.template_spec) (ok-injective k)
      (subst (IsMounted app_spec) (ok-injective k') (
        on_main-AreMounted app_spec new mounts (apply_mounts mounts) (λ c. refl)
          (rw eq_refl refl, tt) pod mounted (λ xs. xs ++ (container ∷ []))
          (λ xs hs.
            All-append (MountsOf (new ++ pod.volumes)) xs (container ∷ []) hs
              (init-MountsOf config app_spec image secret.parameters pod.volumes own tmp, tt))
          e' (cs, inits, own, tmp)))

apply_generic-IsMounted :
    (config : Settings) (app_spec : AppSpec) (secret : Secret) (d d' : Deployment)
    → apply_generic config app_spec secret d ≡ ok d'
    → IsMounted app_spec d.spec.template_spec
    → IsMounted app_spec d'.spec.template_spec
unfolding apply_generic
apply_generic-IsMounted config app_spec secret d d' h good =
    let same : PodSpec → Result PodSpec = on_main (λ main. main) in
    let rest : Option String → Deployment → Result Deployment =
      λ image x. elim image [ none ↦ ok x | some i ↦ add_secret config app_spec secret i x ] in
    let registered = get (available_containers config) secret.secret_type in
    let (x, e, k) = >>=-eq-ok (on_pod same d) (rest registered) h in
    let unchanged : IsMounted app_spec x.spec.template_spec =
      on_main-AreMounted app_spec [] [] (λ main. main) (λ c. refl) tt d.spec.template_spec
        x.spec.template_spec (λ xs. xs) (λ xs hs. hs) (on_pod-eq-ok same d e) good in
    elim (Option-cases registered) [
      | inl missing ↦
          subst (λ (y : Deployment). IsMounted app_spec y.spec.template_spec)
            (ok-injective (rw missing at k)) unchanged
      | inr (image, found) ↦
          add_secret-IsMounted config app_spec secret image x d' (rw found at k) unchanged
    ]

apply_each-IsMounted :
    (config : Settings) (app_spec : AppSpec) (secrets : List Secret) (d d' : Deployment)
    → apply_each config app_spec secrets d ≡ ok d'
    → IsMounted app_spec d.spec.template_spec
    → IsMounted app_spec d'.spec.template_spec
unfolding apply_each
apply_each-IsMounted config app_spec [] d d' h good =
    subst (λ (y : Deployment). IsMounted app_spec y.spec.template_spec) (ok-injective h) good
apply_each-IsMounted config app_spec (s ∷ secrets) d d' h good =
    let (x, e, k) =
      >>=-eq-ok (apply_generic config app_spec s d) (apply_each config app_spec secrets) h in
    apply_each-IsMounted config app_spec secrets x d' k
      (apply_generic-IsMounted config app_spec s d x e good)

pub apply_secrets-IsMounted :
    (config : Settings) (app_spec : AppSpec) (d d' : Deployment)
    → apply_secrets config app_spec d ≡ ok d'
    → IsMounted app_spec d.spec.template_spec
    → IsMounted app_spec d'.spec.template_spec
unfolding apply_secrets
apply_secrets-IsMounted config app_spec d d' h good = by (secret_specs config app_spec) h
  where
    by :
        (secrets : List Secret)
        → (elim secrets [
          | [] ↦ apply_kubernetes app_spec d
          | s ∷ more ↦ apply_each config app_spec (s ∷ more) d
        ])
          ≡ ok d'
        → IsMounted app_spec d'.spec.template_spec
    by [] k = apply_kubernetes-IsMounted app_spec d d' k good
    by (s ∷ more) k = apply_each-IsMounted config app_spec (s ∷ more) d d' k good
