-- ===== src/Deployer/Kubernetes/Deployment/ProbeErrors.antt =====
-- When `_make_probe` and `deploy` of
-- fiaas_deploy_daemon/deployer/kubernetes/deployment/deployer.py raise.
use fiaas_deploy_daemon.Deployer.Kubernetes.Deployment.Pod.{container_with}
use fiaas_deploy_daemon.Deployer.Kubernetes.Deployment.Pod.{make_pod_spec}
use fiaas_deploy_daemon.Deployer.Kubernetes.Deployment.Pod.{main_container}
use fiaas_deploy_daemon.Base.{
  String, ◌≡◌, refl, ap, ◌∙◌, ◌↔◌, ◌⊎◌, inl, inr, Option, none, some, Option-cases, Error,
  value_error, runtime_error, ok, raise, ◌>>=◌, >>=-eq-raise, >>=-ok-eq-raise,
}
use fiaas_deploy_daemon.Deployer.Spec.{AppSpec, version}
use fiaas_deploy_daemon.Deployer.Text.{after_colon}
use fiaas_deploy_daemon.Deployer.Kubernetes.Deployment.Env.{make_env}
use fiaas_deploy_daemon.Deployer.Kubernetes.Deployment.Assemble.{make_pod}
use fiaas_deploy_daemon.Deployer.Shlex.{shlex_split, shlex_split-errors}
use fiaas_deploy_daemon.Deployer.Kubernetes.Deployment.Types.{exec, Settings}
use fiaas_deploy_daemon.Specs.Models.{HttpCheckSpec, TcpCheckSpec, ExecCheckSpec}
use fiaas_deploy_daemon.Base.Dict.{Dict}
use fiaas_deploy_daemon.Deployer.Kubernetes.Deployment.Pod.{
  Check, probe_with, make_probe, action_of,
}

module _ (http : Option (HttpCheckSpec String (Dict String))) (tcp : Option (TcpCheckSpec String))
    (execute : Option (ExecCheckSpec String)) where
  abbrev NoneGiven : Type 0
  NoneGiven = (http ≡ none) × (tcp ≡ none) × (execute ≡ none)

  abbrev BadCommand : Type 0
  BadCommand =
      (http ≡ none)
      × (tcp ≡ none)
      × ((x : ExecCheckSpec String) × (execute ≡ some x)
          × (shlex_split x.command ≡ raise value_error))

action_of-errors :
    (http : Option (HttpCheckSpec String (Dict String))) (tcp : Option (TcpCheckSpec String))
    (execute : Option (ExecCheckSpec String)) (e : Error)
    → action_of http tcp execute ≡ raise e
    → ((e ≡ runtime_error) × NoneGiven http tcp execute)
      ⊎ ((e ≡ value_error) × BadCommand http tcp execute)
unfolding action_of
action_of-errors (some h) tcp execute e k = cc
action_of-errors none (some t) execute e k = cc
action_of-errors none none (some x) e k =
    let failed = >>=-ok-eq-raise (shlex_split x.command) exec e k in
    let is_value = shlex_split-errors x.command e failed in
    inr (is_value, (refl, refl, (x, refl, failed ∙ ap raise is_value)))
action_of-errors none none none e k = inl (cc, (refl, refl, refl))

-- No check of the three kinds.
abbrev pub HasNoCheck : Check → Type 0
HasNoCheck c = (c.http ≡ none) × (c.tcp ≡ none) × (c.execute ≡ none)

-- The only check is a command, whose quotes do not match.
abbrev pub HasBadCommand : Check → Type 0
HasBadCommand c =
    (c.http ≡ none)
    × (c.tcp ≡ none)
    × ((execute : ExecCheckSpec String) × (c.execute ≡ some execute)
        × (shlex_split execute.command ≡ raise value_error))

make_probe-reason :
    (c : Check) (e : Error)
    → make_probe c ≡ raise e
    → ((e ≡ runtime_error) × HasNoCheck c) ⊎ ((e ≡ value_error) × HasBadCommand c)
unfolding make_probe
make_probe-reason c e h =
    action_of-errors c.http c.tcp c.execute e
      (>>=-ok-eq-raise (action_of c.http c.tcp c.execute) (probe_with c) e h)

make_probe-none : (c : Check) → HasNoCheck c → make_probe c ≡ raise runtime_error
unfolding make_probe action_of
make_probe-none c (h, t, x) = rw (h, t, x) refl

make_probe-command : (c : Check) → HasBadCommand c → make_probe c ≡ raise value_error
unfolding make_probe action_of
make_probe-command c (h, t, (execute, x, bad)) = rw (h, t, x, bad) refl

-- `_make_probe` raises RuntimeError exactly if a check is of none of the three kinds, and ValueError
-- exactly if its only kind is a command that cannot be split into words; it raises nothing else.
pub make_probe-errors :
    (c : Check)
    → ((make_probe c ≡ raise runtime_error) ↔ HasNoCheck c)
      × ((make_probe c ≡ raise value_error) ↔ HasBadCommand c)
      × ((e : Error) → make_probe c ≡ raise e → (e ≡ runtime_error) ⊎ (e ≡ value_error))
unfolding make_probe
make_probe-errors c = (
  (
    λ h. elim (make_probe-reason c runtime_error h) [
      | inl (_, missing) ↦ missing
      | inr (e, _) ↦ absurd (cc)
    ],
    make_probe-none c,
  ),
  (
    λ h. elim (make_probe-reason c value_error h) [ inl (e, _) ↦ absurd (cc) | inr (_, bad) ↦ bad ],
    make_probe-command c,
  ),
  λ e h. elim (make_probe-reason c e h) [ inl (is, _) ↦ inl is | inr (is, _) ↦ inr is ],
)

env-error :
    (config : Settings) (app_spec : AppSpec) (e : Error)
    → make_env config app_spec ≡ raise e
    → e ≡ runtime_error
unfolding make_env version
env-error config app_spec e h = elim (Option-cases (after_colon app_spec.image)) [
  | inl missing ↦ (let k = (rw (version, missing) at h) in cc)
  | inr (v, found) ↦ absurd (let k = (rw (version, found) at h) in cc)
]

-- The exceptions of `deploy` before it calls the cluster.
pub make_pod-errors :
    (config : Settings) (app_spec : AppSpec) (e : Error)
    → make_pod config app_spec ≡ raise e
    → (e ≡ runtime_error) ⊎ (e ≡ value_error)
unfolding make_pod main_container
make_pod-errors config app_spec e h =
    let live = app_spec.health_checks.liveness in
    let ready = app_spec.health_checks.readiness in
    elim (>>=-eq-raise (make_env config app_spec)
      (λ env. main_container config app_spec env >>= (λ c. ok (make_pod_spec config app_spec c))) e
      h) [
        | inl failed ↦ inl (env-error config app_spec e failed)
        | inr (env, _, k) ↦
            let failed =
              >>=-ok-eq-raise (main_container config app_spec env) (make_pod_spec config app_spec) e
                k in
            elim (>>=-eq-raise (make_probe live)
              (λ l. make_probe ready >>= (λ r. ok (container_with config app_spec env l r))) e
              failed) [
                | inl bad ↦ (make_probe-errors live).2 e bad
                | inr (l, _, bad) ↦ (make_probe-errors ready).2 e (
                    >>=-ok-eq-raise (make_probe ready) (container_with config app_spec env l) e bad)
              ]
      ]
