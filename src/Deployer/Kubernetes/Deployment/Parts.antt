-- ===== src/Deployer/Kubernetes/Deployment/Parts.antt =====
-- How fiaas_deploy_daemon/deployer/kubernetes/deployment changes parts of a Deployment in place.
use fiaas_deploy_daemon.Base.{refl, ok-injective}
use fiaas_deploy_daemon.Base.{ap}
use fiaas_deploy_daemon.Base.{◌∙◌}
use fiaas_deploy_daemon.Base.{>>=-eq-ok}
use fiaas_deploy_daemon.Base.{◌≡◌}
use fiaas_deploy_daemon.Base.{String, List, [], ◌∷◌, ◌++◌, index_error, Result, ok, raise, ◌>>=◌}
use fiaas_deploy_daemon.Base.Dict.{Dict}
use fiaas_deploy_daemon.Deployer.Kubernetes.Deployment.Types.{
  Volume, VolumeMount, Container, PodSpec, Deployment,
}

-- `deployment.spec.template.metadata.annotations = annotations`
unfoldable pub with_annotations : Dict String → Deployment → Deployment
with_annotations annotations deployment = record deployment {
  spec = record (deployment.spec) {
    template_metadata = record (deployment.spec.template_metadata) { annotations = annotations };
  };
}

-- A change of `deployment.spec.template.spec` that may raise.
unfoldable pub on_pod : (PodSpec → Result PodSpec) → Deployment → Result Deployment
on_pod f deployment =
    f deployment.spec.template_spec
    >>= (λ pod. ok (record deployment { spec = record (deployment.spec) { template_spec = pod } }))

-- A change of `containers[0]`.
unfoldable pub on_first : (Container → Container) → List Container → Result (List Container)
on_first f [] = raise index_error
on_first f (main ∷ others) = ok (f main ∷ others)

unfoldable pub on_main : (Container → Container) → PodSpec → Result PodSpec
unfolding on_first
on_main f pod =
    on_first f pod.containers >>= (λ containers. ok (record pod { containers = containers }))

-- `_apply_mounts`, for the mounts that a class makes.
unfoldable pub apply_mounts : List VolumeMount → Container → Container
apply_mounts mounts main = record main { volume_mounts = mounts ++ main.volume_mounts }

-- `_apply_volumes`, for the volumes that a class makes.
unfoldable pub apply_volumes : List Volume → PodSpec → PodSpec
apply_volumes volumes pod = record pod { volumes = volumes ++ pod.volumes }

pub on_pod-eq-ok :
    (f : PodSpec → Result PodSpec) (d : Deployment) {d' : Deployment}
    → on_pod f d ≡ ok d'
    → f d.spec.template_spec ≡ ok d'.spec.template_spec
unfolding on_pod
on_pod-eq-ok f d h =
    let (pod, e, k) =
      >>=-eq-ok (f d.spec.template_spec)
        (λ pod. ok (record d { spec = record (d.spec) { template_spec = pod } })) h in
    e ∙ ap (λ (x : Deployment). ok x.spec.template_spec) (ok-injective k)

on_first-eq-ok :
    (f : Container → Container) (xs : List Container) {l : List Container}
    → on_first f xs ≡ ok l
    → (main : Container) × (others : List Container) × (xs ≡ main ∷ others) × (f main ∷ others ≡ l)
unfolding on_first
on_first-eq-ok f [] h = cc
on_first-eq-ok f (main ∷ others) h = (main, others, refl, ok-injective h)

pub on_main-eq-ok :
    (f : Container → Container) (pod : PodSpec) {pod' : PodSpec}
    → on_main f pod ≡ ok pod'
    → (main : Container) × (others : List Container) × (pod.containers ≡ main ∷ others)
      × (record pod { containers = f main ∷ others } ≡ pod')
unfolding on_main
on_main-eq-ok f pod h =
    let (l, e, k) =
      >>=-eq-ok (on_first f pod.containers)
        (λ containers. ok (record pod { containers = containers })) h in
    let (main, others, same, made) = on_first-eq-ok f pod.containers e in
    (main, others, same, ap (λ xs. record pod { containers = xs }) made ∙ ok-injective k)
