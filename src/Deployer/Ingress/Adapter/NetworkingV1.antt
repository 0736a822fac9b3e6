-- ===== src/Deployer/Ingress/Adapter/NetworkingV1.antt =====
-- fiaas_deploy_daemon/deployer/kubernetes/ingress_networkingv1.py
use fiaas_deploy_daemon.Base.{String, some, List, map, Eff}
use fiaas_deploy_daemon.Deployer.Spec.{AppSpec}
use fiaas_deploy_daemon.Deployer.Ingress.Create.{IngressAdapter}
use fiaas_deploy_daemon.Deployer.Ingress.Hosts.{deduplicate_in_order, same_mapping}
use fiaas_deploy_daemon.Deployer.Ingress.Tls.{TlsConfig}
use fiaas_deploy_daemon.Deployer.Ingress.Adapter.{
  PathMapping, HttpPath, IngressApi, create_with, delete_unused_ingresses,
}

abbrev http_path : AppSpec → PathMapping → HttpPath
http_path app_spec pm = record {
  path = pm.path;
  path_type = some "ImplementationSpecific";
  service_name = app_spec.name;
  service_port = pm.port;
}

-- `_make_http_ingress_rule_value`
unfoldable pub make_http_ingress_rule_value : AppSpec → List PathMapping → List HttpPath
unfolding deduplicate_in_order
make_http_ingress_rule_value app_spec pathmappings =
    map (http_path app_spec) (deduplicate_in_order same_mapping pathmappings)

module _ {S : Type 0} (digest : String → String → String) (config : TlsConfig)
    (on_exception : Eff S (Unit {0}) → Eff S (Unit {0})) (api : IngressApi S) where
  -- `NetworkingV1IngressAdapter`
  unfoldable pub networking_v1 : IngressAdapter S
  unfolding create_with make_http_ingress_rule_value delete_unused_ingresses
  networking_v1 = record {
    create_ingress = λ app_spec annotated_ingress labels.
        create_with digest config on_exception api (make_http_ingress_rule_value app_spec) app_spec
          annotated_ingress labels;
    delete_unused = delete_unused_ingresses api;
  }
