-- ===== src/Deployer/Kubernetes/Deployment/Mounts.antt =====
-- The volumes that the containers of
-- fiaas_deploy_daemon/deployer/kubernetes/deployment/deployer.py, datadog.py and secrets.py mount.
use fiaas_deploy_daemon.Deployer.Kubernetes.Deployment.Types.{VolumeMount}
use fiaas_deploy_daemon.Base.{
  String, ◌<>◌, ◌≡◌, refl, sym, inl, inr, Bool, true, false, ◌||◌, List, [], ◌∷◌, ◌++◌, arith,
  eq_refl, ◌==◌, Bool-cases, All, All-append, All-map, ok, ◌>>=◌, >>=-eq-ok, ok-injective,
}
use mathlib.Core.Path.{subst}
use fiaas_deploy_daemon.Deployer.Spec.{AppSpec}
use fiaas_deploy_daemon.Deployer.Kubernetes.Deployment.Types.{
  Volume, Container, PodSpec, Settings, EnvVar, Probe, Probe,
}
use fiaas_deploy_daemon.Deployer.Kubernetes.Deployment.Pod.{
  make_probe, make_volume_mounts, main_container, container_with, make_volumes, make_pod_spec,
}
use fiaas_deploy_daemon.Deployer.Kubernetes.Deployment.Parts.{on_main, on_main-eq-ok}
use fiaas_deploy_daemon.Deployer.Kubernetes.Deployment.Env.{make_env}
use fiaas_deploy_daemon.Deployer.Kubernetes.Deployment.Assemble.{make_pod}

abbrev pub has_volume : List Volume → String → Bool
has_volume [] name = false
has_volume (v ∷ volumes) name = v.name == name || has_volume volumes name

-- Every mount of the container is of one of the volumes.
abbrev pub MountsOf : List Volume → Container → Type 0
MountsOf volumes c = All (λ m. has_volume volumes m.name ≡ true) c.volume_mounts

abbrev pub AreMounted : AppSpec → List Volume → List Container → List Container → Type 0
AreMounted app_spec volumes containers init_containers =
    All (MountsOf volumes) containers
    × All (MountsOf volumes) init_containers
    × (has_volume volumes (app_spec.name <> "-config") ≡ true)
    × (has_volume volumes "tmp" ≡ true)

-- Every mount of a container or an init container is of a volume of the pod, and the pod has the
-- volumes that an init container for secrets takes for granted.
abbrev pub IsMounted : AppSpec → PodSpec → Type 0
IsMounted app_spec pod = AreMounted app_spec pod.volumes pod.containers pod.init_containers

pub has_volume-append :
    (us vs : List Volume) (name : String)
    → has_volume vs name ≡ true
    → has_volume (us ++ vs) name ≡ true
has_volume-append [] vs name h = h
has_volume-append (u ∷ us) vs name h =
    let rest = has_volume-append us vs name h in ground (arith, rest)

pub MountsOf-append : (us vs : List Volume) (c : Container) → MountsOf vs c → MountsOf (us ++ vs) c
MountsOf-append us vs c =
    All-map (λ m. has_volume vs m.name ≡ true) (λ m. has_volume (us ++ vs) m.name ≡ true)
      c.volume_mounts (λ m h. has_volume-append us vs m.name h)

volumes-own :
    (config : Settings) (app_spec : AppSpec)
    → (has_volume (make_volumes config app_spec) (app_spec.name <> "-config") ≡ true)
      × (has_volume (make_volumes config app_spec) "tmp" ≡ true)
unfolding make_volumes
volumes-own config app_spec = (
  rw eq_refl refl,
  elim (Bool-cases (app_spec.name <> "-config" == "tmp")) [ inl e ↦ rw e refl | inr e ↦ rw e refl ],
)

container_with-MountsOf :
    (config : Settings) (app_spec : AppSpec) (env : List EnvVar) (live ready : Probe)
    → MountsOf (make_volumes config app_spec) (container_with config app_spec env live ready)
unfolding container_with make_volume_mounts
container_with-MountsOf config app_spec env live ready =
    let (own, tmp) = volumes-own config app_spec in (own, (tmp, tt))

-- The pod that is made for a specification mounts only volumes that it has.
pub make_pod-IsMounted :
    (config : Settings) (app_spec : AppSpec) (pod : PodSpec)
    → make_pod config app_spec ≡ ok pod
    → IsMounted app_spec pod
unfolding make_pod main_container make_pod_spec
make_pod-IsMounted config app_spec pod h =
    let (env, e, h1) =
      >>=-eq-ok (make_env config app_spec)
        (λ env. main_container config app_spec env >>= (λ c. ok (make_pod_spec config app_spec c)))
        h in
    let (c, hc, h2) =
      >>=-eq-ok (main_container config app_spec env) (λ c. ok (make_pod_spec config app_spec c))
        h1 in
    let (live, hl, h3) =
      >>=-eq-ok (make_probe app_spec.health_checks.liveness)
        (λ live.
          make_probe app_spec.health_checks.readiness
          >>= (λ ready. ok (container_with config app_spec env live ready)))
        hc in
    let (ready, hr, h4) =
      >>=-eq-ok (make_probe app_spec.health_checks.readiness)
        (λ ready. ok (container_with config app_spec env live ready)) h3 in
    subst (IsMounted app_spec) (ok-injective h2) (
      subst (λ c. IsMounted app_spec (make_pod_spec config app_spec c)) (ok-injective h4)
        (let (own, tmp) = volumes-own config app_spec in
          ((container_with-MountsOf config app_spec env live ready, tt), tt, own, tmp)))

pub has_volume-left :
    (us vs : List Volume) (name : String)
    → has_volume us name ≡ true
    → has_volume (us ++ vs) name ≡ true
has_volume-left [] vs name h = cc
has_volume-left (u ∷ us) vs name h = let rest = has_volume-left us vs name in ground (arith, rest)

module _ (app_spec : AppSpec) (new : List Volume) (mounts : List VolumeMount)
    (change : Container → Container)
    (adds : (c : Container) → (change c).volume_mounts ≡ mounts ++ c.volume_mounts)
    (have : All (λ m. has_volume new m.name ≡ true) mounts) where
  first-MountsOf :
      (volumes : List Volume) (main : Container)
      → MountsOf volumes main
      → MountsOf (new ++ volumes) (change main)
  first-MountsOf volumes main first =
      subst (All (λ m. has_volume (new ++ volumes) m.name ≡ true)) (sym (adds main)) (
        All-append (λ m. has_volume (new ++ volumes) m.name ≡ true) mounts main.volume_mounts
          (All-map (λ m. has_volume new m.name ≡ true)
            (λ m. has_volume (new ++ volumes) m.name ≡ true) mounts
            (λ m. has_volume-left new volumes m.name) have)
          (MountsOf-append new volumes main first))

  -- More volumes in front, more mounts of them on the first container, and other init containers.
  AreMounted-more :
      (volumes : List Volume) (main : Container) (others inits inits' : List Container)
      → (All (MountsOf (new ++ volumes)) inits → All (MountsOf (new ++ volumes)) inits')
      → AreMounted app_spec volumes (main ∷ others) inits
      → AreMounted app_spec (new ++ volumes) (change main ∷ others) inits'
  AreMounted-more volumes main others inits inits' more ((first, rest), init, config, tmp) = (
    (
      first-MountsOf volumes main first,
      All-map (MountsOf volumes) (MountsOf (new ++ volumes)) others (MountsOf-append new volumes)
          rest,
    ),
    more (
        All-map (MountsOf volumes) (MountsOf (new ++ volumes)) inits (MountsOf-append new volumes)
          init),
    has_volume-append new volumes (app_spec.name <> "-config") config,
    has_volume-append new volumes "tmp" tmp,
  )

  pub on_main-AreMounted :
      (pod pod' : PodSpec) (extra : List Container → List Container)
      → ((xs : List Container)
          → All (MountsOf (new ++ pod.volumes)) xs
          → All (MountsOf (new ++ pod.volumes)) (extra xs))
      → on_main change pod ≡ ok pod'
      → IsMounted app_spec pod
      → AreMounted app_spec (new ++ pod'.volumes) pod'.containers (extra pod'.init_containers)
  on_main-AreMounted pod pod' extra more h good =
      let (main, others, has, made) = on_main-eq-ok change pod h in
      subst
        (λ (p : PodSpec).
          AreMounted app_spec (new ++ p.volumes) p.containers (extra p.init_containers))
        made
        (AreMounted-more pod.volumes main others pod.init_containers (extra pod.init_containers)
          (more pod.init_containers)
          (subst (λ cs. AreMounted app_spec pod.volumes cs pod.init_containers) has good))
