-- ===== src/Deployer/Kubernetes/Deployment/Prometheus.antt =====
-- fiaas_deploy_daemon/deployer/kubernetes/deployment/prometheus.py
use fiaas_deploy_daemon.Base.{ℕ, String, Option, none, some, List, [], ◌∷◌, if◌then◌else◌}
use fiaas_deploy_daemon.Base.Dict.{Dict, get, insert, merge_dicts}
use fiaas_deploy_daemon.Specs.Models.{PortSpec}
use fiaas_deploy_daemon.Deployer.Spec.{AppSpec}
use fiaas_deploy_daemon.Deployer.Text.{show}
use fiaas_deploy_daemon.Deployer.Integer.{ℤ, int, show_int}
use fiaas_deploy_daemon.Deployer.Kubernetes.Deployment.Types.{Deployment}
use fiaas_deploy_daemon.Deployer.Kubernetes.Deployment.Parts.{with_annotations}

-- `{p.name: p.target_port for p in ports}`, where a later port replaces an earlier one.
unfoldable pub lookup_from : Dict ℕ → List (PortSpec String ℕ) → Dict ℕ
unfolding insert
lookup_from d [] = d
lookup_from d (p ∷ ports) = lookup_from (insert d p.name p.target_port) ports

-- The number that the port is, or else the port that it names.
unfoldable pub choose_port : Option ℤ → Option ℕ → Option String
unfolding show show_int
choose_port (some number) named = some (show_int number)
choose_port none (some number) = some (show number)
choose_port none none = none

-- The text of the port that is scraped.
unfoldable pub scraped_port : String → List (PortSpec String ℕ) → Option String
unfolding int lookup_from get choose_port
scraped_port port ports = choose_port (int port) (get (lookup_from [] ports) port)

abbrev pub annotations_for : AppSpec → Option String → Dict String
annotations_for app_spec none = []
annotations_for app_spec (some port) =
    ("prometheus.io/scrape", if app_spec.prometheus.enabled then "true" else "false")
    ∷ ("prometheus.io/port", port)
    ∷ ("prometheus.io/path", app_spec.prometheus.path)
    ∷ []

-- `_make_prometheus_annotations`
unfoldable pub make_prometheus_annotations : AppSpec → Dict String
unfolding scraped_port
make_prometheus_annotations app_spec =
    annotations_for app_spec (scraped_port app_spec.prometheus.port app_spec.ports)

-- `Prometheus.apply`
unfoldable pub apply_prometheus : AppSpec → Deployment → Deployment
unfolding make_prometheus_annotations with_annotations merge_dicts
apply_prometheus app_spec deployment =
    if app_spec.prometheus.enabled
    then with_annotations
        (merge_dicts (
          deployment.spec.template_metadata.annotations
          ∷ make_prometheus_annotations app_spec
          ∷ []))
        deployment
    else deployment
