-- ===== src/Deployer/Kubernetes/Deployment/ScrapedPort.antt =====
-- The port that fiaas_deploy_daemon/deployer/kubernetes/deployment/prometheus.py announces.
use fiaas_deploy_daemon.Base.{
  ℕ, String, ◌≡◌, refl, ap, ◌∙◌, ◌⊎◌, inl, inr, Option, none, some, List, [], ◌∷◌, ◌==◌,
  if◌then◌else◌, Bool-cases, Option-cases,
}
use fiaas_deploy_daemon.Base.Dict.{Dict, get, insert, get-insert}
use fiaas_deploy_daemon.Specs.Models.{PortSpec}
use fiaas_deploy_daemon.Deployer.Spec.{AppSpec}
use fiaas_deploy_daemon.Deployer.Text.{show}
use fiaas_deploy_daemon.Deployer.Integer.{pos, int, show_int}
use fiaas_deploy_daemon.Deployer.IntegerLaws.{int-show}
use fiaas_deploy_daemon.Deployer.Kubernetes.Deployment.Prometheus.{
  lookup_from, choose_port, annotations_for, scraped_port, make_prometheus_annotations,
}

-- The target of the last port with the name.
abbrev pub last_named : List (PortSpec String ℕ) → String → Option ℕ
last_named [] k = none
last_named (p ∷ ports) k = elim (last_named ports k) [
  | some n ↦ some n
  | none ↦ if p.name == k then some p.target_port else none
]

get-lookup_from :
    (d : Dict ℕ) (ports : List (PortSpec String ℕ)) (k : String)
    → get (lookup_from d ports) k ≡ elim (last_named ports k) [ some n ↦ some n | none ↦ get d k ]
unfolding lookup_from
get-lookup_from d [] k = refl
get-lookup_from d (p ∷ ports) k =
    get-lookup_from (insert d p.name p.target_port) ports k
    ∙ elim (Option-cases (last_named ports k)) [
      | inr (n, e) ↦ rw e refl
      | inl e ↦ rw e (
          get-insert d p.name k p.target_port
          ∙ elim (Bool-cases (p.name == k)) [ inl same ↦ rw same refl | inr other ↦ rw other refl ])
    ]

-- The configured port is the number, or the name of a port of the application that leads there.
abbrev pub LeadsTo : AppSpec → ℕ → Type 0
LeadsTo app_spec n =
    (app_spec.prometheus.port ≡ show n)
    ⊎ ((int app_spec.prometheus.port ≡ none)
        × (last_named app_spec.ports app_spec.prometheus.port ≡ some n))

scraped_port-number :
    (port : String) (ports : List (PortSpec String ℕ)) (n : ℕ)
    → (port ≡ show n) ⊎ ((int port ≡ none) × (last_named ports port ≡ some n))
    → scraped_port port ports ≡ some (show n)
unfolding scraped_port choose_port show_int
scraped_port-number port ports n (inl is) =
    ap (λ p. scraped_port p ports) is
    ∙ ap (λ i. choose_port i (get (lookup_from [] ports) (show n))) (int-show n)
scraped_port-number port ports n (inr (text, named)) =
    let found : get (lookup_from [] ports) port ≡ some n =
      get-lookup_from [] ports port ∙ rw named refl in
    ap (λ i. choose_port i (get (lookup_from [] ports) port)) text ∙ ap (choose_port none) found

-- If the port that Prometheus is to read is given as the text of a number, or by the name of a port
-- of the application, the last one of that name counting, then `int` reads that number back from the
-- annotation that announces it.
pub make_prometheus_annotations-int :
    (app_spec : AppSpec) (n : ℕ)
    → LeadsTo app_spec n
    → (port : String) × (get (make_prometheus_annotations app_spec) "prometheus.io/port"
        ≡ some port)
      × (int port ≡ some (pos n))
unfolding make_prometheus_annotations get
make_prometheus_annotations-int app_spec n leads =
    let found = scraped_port-number app_spec.prometheus.port app_spec.ports n leads in
    (
      show n,
      ap (λ port. get (annotations_for app_spec port) "prometheus.io/port") found,
      int-show n,
    )
