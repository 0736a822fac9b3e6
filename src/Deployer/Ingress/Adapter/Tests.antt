-- ===== src/Deployer/Ingress/Adapter/Tests.antt =====
-- Runs of the parts of the ingress adapters.
use fiaas_deploy_daemon.Base.{
  String, ◌≡◌, refl, ◌↔◌, true, false, none, List, [], ◌∷◌, All, Eff, Result, ok, raise, sym, ap,
}
use fiaas_deploy_daemon.Base.Dict.{Dict, get}
use fiaas_deploy_daemon.Deployer.Sample.{app, on_host, everywhere}
use fiaas_deploy_daemon.Deployer.Ingress.Group.{AnnotatedIngress}
use fiaas_deploy_daemon.Deployer.Ingress.Tls.{TlsConfig, should_have_ingress_tls}
use fiaas_deploy_daemon.Deployer.Ingress.Adapter.{
  Requirement, Ingress, equality, inequality, exists, unused_filter, IngressApi, IngressRule,
  PathMapping, HttpPath, ingress_metadata, per_host_rules, create_once, save_ingress,
}
use fiaas_deploy_daemon.Deployer.Ingress.Adapter.Unused.{
  Holds, IsOfOtherDeployment, unused_filter-Holds,
}
use fiaas_deploy_daemon.Deployer.Ingress.Adapter.Covers.{SetsRules, IsSecured, create_once-Covers}

abbrev labels : Dict String
labels = ("app", "shop") ∷ ("fiaas/deployment_id", "d12") ∷ []

abbrev old_labels : Dict String
old_labels = ("app", "shop") ∷ ("fiaas/deployment_id", "d11") ∷ []

abbrev requirements : List Requirement
requirements =
    equality "app" "shop"
    ∷ exists "fiaas/deployment_id"
    ∷ inequality "fiaas/deployment_id" "d12"
    ∷ []

unused_filter-Holds_example :
    All (Holds old_labels) requirements ↔ IsOfOtherDeployment labels old_labels
unfolding unused_filter get
unused_filter-Holds_example = unused_filter-Holds labels old_labels requirements refl

abbrev tls_config : TlsConfig
tls_config = record {
  use_ingress_tls = "default_on";
  tls_certificate_issuer = none;
  ingress_suffixes = "svc.example.com" ∷ [];
  enable_deprecated_tls_entry_per_host = false;
}

abbrev annotated : AnnotatedIngress
annotated = record {
  name = "shop";
  ingress_items = [];
  annotations = [];
  explicit_host = false;
  issuer_type = "certmanager.k8s.io/cluster-issuer";
  issuer_name = none;
  default = true;
}

abbrev made : Ingress
made = record {
  metadata = record { name = "shop"; namespace = "default"; labels = labels; annotations = [] };
  rules = [];
  tls = [];
}

abbrev digest : String → String → String
digest name namespace = "abc"

abbrev served : AnnotatedIngress
served = record annotated {
  ingress_items = on_host "shop.svc.example.com" ∷ everywhere ∷ on_host "own.example.com" ∷ [];
}

abbrev no_paths : List PathMapping → List HttpPath
no_paths pathmappings = []

-- A cluster whose state is the ingress that was saved last.
abbrev api : IngressApi Ingress
api = record {
  get_or_create =
      λ metadata rules last. (ok (record { metadata = metadata; rules = rules; tls = [] }), last);
  apply_owner_references = λ ingress a last. (ok ingress, last);
  apply_extension_hook = λ ingress a last. (ok ingress, last);
  save = λ ingress last. (ok tt, ingress);
  delete_list = λ namespace requirements last. (ok tt, last);
}

abbrev once : Eff Ingress (Unit {0}) → Eff Ingress (Unit {0})
once func = func

api-SetsRules : SetsRules api
api-SetsRules metadata rules ingress s t e =
    sym (ap rules_of (ap (λ (r : Result Ingress × Ingress). r.0) e))
  where
    rules_of : Result Ingress → List IngressRule
    rules_of (ok i) = i.rules
    rules_of (raise x) = []

abbrev shop_ingress : Ingress
shop_ingress = record {
  metadata = ingress_metadata app served labels;
  rules = per_host_rules no_paths served.ingress_items;
  tls = [];
}

create_once-Covers_example :
    (secured : Ingress) × (create_once digest tls_config once api no_paths app served labels made
      ≡ save_ingress digest tls_config once api app secured made)
    × (secured.rules ≡ per_host_rules no_paths served.ingress_items)
    × IsSecured secured
unfolding should_have_ingress_tls
create_once-Covers_example =
    create_once-Covers digest tls_config once api no_paths app served labels api-SetsRules
      shop_ingress made made refl refl
