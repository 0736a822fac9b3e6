-- ===== src/Deployer/Kubernetes/Service.antt =====
-- fiaas_deploy_daemon/deployer/kubernetes/service.py
pub mod Merged
use fiaas_deploy_daemon.Base.{
  ℕ, String, ◌<>◌, ◌≡◌, refl, sym, ap, ◌∙◌, ◌⊎◌, inl, inr, Option, none, some, List, [], ◌∷◌, map,
  eq_iff, ◌==◌, ltb, if◌then◌else◌, Bool-cases, Option-cases, length, filter, not_found, Eff,
}
use fiaas_deploy_daemon.Base.Effect.{◌>>=◌, try_catch, throw, return}
use fiaas_deploy_daemon.Base.Dict.{Dict, merge_dicts}
use fiaas_deploy_daemon.Specs.Models.{PortSpec}
use fiaas_deploy_daemon.Deployer.Spec.{AppSpec}
use fiaas_deploy_daemon.Deployer.Kubernetes.Api.{
  Metadata, ResourceApi, retry_on_upsert_conflict, pass_not_found, create_and_save,
}

-- A `ServicePort`, whose protocol is always TCP here.
pub record ServicePort : Type 0 where
  pub name : String
  pub port : ℕ
  pub target_port : ℕ
  pub node_port : Option ℕ

pub record ServiceFields : Type 0 where
  pub selector : Dict String
  pub ports : List ServicePort
  pub service_type : String

-- The last of the existing ports with a name, as the dict `existing` has it.
unfoldable pub existing_port : List ServicePort → String → Option ServicePort
existing_port [] name = none
existing_port (p ∷ ps) name = elim (existing_port ps name) [
  | some q ↦ some q
  | none ↦ if p.name == name then some p else none
]

abbrev pub keep_node_port : Option ServicePort → ServicePort → ServicePort
keep_node_port none p = p
keep_node_port (some q) p = record p { node_port = q.node_port }

-- `ServiceDeployer._merge_ports`
unfoldable pub merge_ports : List ServicePort → List ServicePort → List ServicePort
unfolding existing_port
merge_ports existing_ports =
    map (λ (p : ServicePort). keep_node_port (existing_port existing_ports p.name) p)

-- `ServiceDeployer._make_service_port`
unfoldable pub make_service_port : PortSpec String ℕ → ServicePort
make_service_port p = record {
  name = p.name;
  port = p.port;
  target_port = p.target_port;
  node_port = none;
}

-- `",".join(names)`
abbrev join_names : List String → String
join_names [] = ""
join_names (n ∷ []) = n
join_names (n ∷ m ∷ ns) = n <> ("," <> join_names (m ∷ ns))

abbrev port_names : List (PortSpec String ℕ) → List String
port_names = map (λ (p : PortSpec String ℕ). p.name)

-- `ServiceDeployer._make_tcp_port_annotation`
abbrev annotation_of : List String → Dict String
annotation_of [] = []
annotation_of (n ∷ ns) = ("fiaas/tcp_port_names", join_names (n ∷ ns)) ∷ []

unfoldable pub make_tcp_port_annotation : List (PortSpec String ℕ) → Dict String
make_tcp_port_annotation ports =
    annotation_of (port_names (filter (λ (p : PortSpec String ℕ). p.protocol == "tcp") ports))

module _ {S Object : Type 0} (on_exception : Eff S (Unit {0}) → Eff S (Unit {0}))
    (api : ResourceApi S ServiceFields Object) (service_type : String) where
  -- The ports of the existing service are kept by name, if there is one.
  unfoldable pub wanted_ports : AppSpec → Eff S (List ServicePort)
  unfolding merge_ports make_service_port
  wanted_ports app_spec =
      let ports = map make_service_port app_spec.ports in
      try_catch
        (do
          existing ← api.get_spec app_spec.name app_spec.namespace
          return (merge_ports existing.ports ports))
        (λ e. elim e [ not_found ↦ return ports | e ↦ throw e ])

  abbrev service_metadata : AppSpec → Dict String → Metadata
  service_metadata app_spec labels = record {
    name = app_spec.name;
    namespace = app_spec.namespace;
    labels = merge_dicts (app_spec.labels.service ∷ labels ∷ []);
    annotations =
        merge_dicts (app_spec.annotations.service ∷ make_tcp_port_annotation app_spec.ports ∷ []);
  }

  -- `ServiceDeployer._create`
  unfoldable pub create_service : AppSpec → Dict String → Dict String → Eff S (Unit {0})
  unfolding wanted_ports make_tcp_port_annotation retry_on_upsert_conflict create_and_save
  create_service app_spec selector labels = retry_on_upsert_conflict on_exception (do
    ports ← wanted_ports app_spec
    create_and_save api (service_metadata app_spec labels)
        (record { selector = selector; ports = ports; service_type = service_type }) app_spec)

  -- `ServiceDeployer.deploy`
  unfoldable pub deploy_service : AppSpec → Dict String → Dict String → Eff S (Unit {0})
  unfolding create_service pass_not_found
  deploy_service app_spec selector labels =
      if ltb 0 (length app_spec.ports)
      then create_service app_spec selector labels
      else pass_not_found (api.delete app_spec.name app_spec.namespace)
