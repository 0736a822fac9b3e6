-- ===== src/Deployer/Ingress/Tests.antt =====
-- The ingresses of a small application.
use fiaas_deploy_daemon.Base.{
  String, ◌≡◌, refl, Bool, true, false, some, List, [], ◌∷◌, ◌++◌, All, ok,
}
use fiaas_deploy_daemon.Deployer.Spec.{Item}
use fiaas_deploy_daemon.Deployer.Ingress.Issuers.{
  get_issuer_type, get_issuer_name, get_issuer_name_default_ingress,
}
use fiaas_deploy_daemon.Deployer.Text.{show}
use fiaas_deploy_daemon.Deployer.Ingress.Group.{has_explicitly_set_host}
use Prim.Native.String.{count as text_length}
use fiaas_deploy_daemon.Base.{String, some, ◌<>◌, ◌≤◌, arith}
use fiaas_deploy_daemon.Deployer.Ingress.Tls.{
  generate_short_host, short_prefix, generate_short_host-count,
}
use fiaas_deploy_daemon.Deployer.Sample.{app, everywhere, on_host, annotated_host}
use fiaas_deploy_daemon.Deployer.Ingress.Issuers.{IngressConfig}
use fiaas_deploy_daemon.Deployer.Ingress.Hosts.{has_host, add_pairs}
use fiaas_deploy_daemon.Deployer.Ingress.Group.{
  has_explicitly_set_host, AnnotatedIngress, all_items, group_ingresses,
}
use fiaas_deploy_daemon.Deployer.Ingress.Partition.{count, count_in, group_ingresses-count}
use fiaas_deploy_daemon.Deployer.Ingress.Keys.{HasItsIssuers, group_ingresses-HasItsIssuers}
use fiaas_deploy_daemon.Deployer.Ingress.Names.{IsDistinct, names, group_ingresses-IsDistinct}
use fiaas_deploy_daemon.Deployer.Ingress.Pairs.{IsPaired, add_pairs-IsPaired}

abbrev config : IngressConfig
config = record {
  ingress_suffixes = "svc.example.com" ∷ [];
  host_rewrite_rules = [];
  ingress_host_pairs = ("own.example.com", "own.example.org") ∷ [];
  tls_certificate_issuer_overrides =
      ("example.com", "com-issuer") ∷ ("own.example.com", "own-issuer") ∷ [];
  tls_certificate_issuer_type_overrides = [];
  tls_certificate_issuer_type_default = "certmanager.k8s.io/cluster-issuer";
  tls_certificate_issuer = some "fallback-issuer";
}

abbrev generated : List Item
generated = on_host "shop.svc.example.com" ∷ []

abbrev served : List Item
served =
    on_host "own.example.com"
    ∷ annotated_host "api.example.com"
    ∷ on_host "shop.svc.example.com"
    ∷ on_host "own.example.org"
    ∷ []

abbrev ingress : String → List Item → String → Bool → AnnotatedIngress
ingress name items issuer default = record {
  name = name;
  ingress_items = items;
  annotations = [];
  explicit_host = true;
  issuer_type = "certmanager.k8s.io/cluster-issuer";
  issuer_name = some issuer;
  default = default;
}

abbrev groups : List AnnotatedIngress
groups =
    ingress "shop" (on_host "shop.svc.example.com" ∷ []) "com-issuer" true
    ∷ record (ingress "shop-2" (annotated_host "api.example.com" ∷ []) "com-issuer" false) {
      annotations = ("some/annotation", "yes") ∷ [];
    }
    ∷ ingress "shop-1" (on_host "own.example.com" ∷ []) "own-issuer" false
    ∷ ingress "shop-3" (on_host "own.example.org" ∷ []) "fallback-issuer" false
    ∷ []

served_items : all_items config app (everywhere ∷ []) ≡ ok served
unfolding all_items
served_items = refl

shop_groups : group_ingresses config app (everywhere ∷ []) ≡ ok groups
unfolding group_ingresses get_issuer_type get_issuer_name get_issuer_name_default_ingress show
    has_explicitly_set_host
shop_groups = refl

group_ingresses-count_example :
    count_in (λ (i : Item). has_host "own.example.org" (i ∷ [])) groups
    ≡ count (λ (i : Item). has_host "own.example.org" (i ∷ [])) served
group_ingresses-count_example =
    group_ingresses-count config app (everywhere ∷ []) served groups served_items shop_groups
      (λ (i : Item). has_host "own.example.org" (i ∷ []))

group_ingresses-HasItsIssuers_example : All (HasItsIssuers config app) groups
group_ingresses-HasItsIssuers_example =
    group_ingresses-HasItsIssuers config app (everywhere ∷ []) groups shop_groups

group_ingresses-IsDistinct_example : IsDistinct (names groups)
group_ingresses-IsDistinct_example =
    group_ingresses-IsDistinct config app (everywhere ∷ []) groups shop_groups

add_pairs-IsPaired_example :
    ((more : List Item) × (add_pairs config
          (on_host "own.example.com" ∷ [])
          (on_host "own.example.com" ∷ [])
        ≡ (on_host "own.example.com" ∷ []) ++ more))
    × All
        (IsPaired config
          (add_pairs config (on_host "own.example.com" ∷ []) (on_host "own.example.com" ∷ [])))
        (on_host "own.example.com" ∷ [])
add_pairs-IsPaired_example = add_pairs-IsPaired config (on_host "own.example.com" ∷ [])

abbrev suffix : String
suffix = "svc.example.com"

abbrev digest : String
digest = "mfzxg5dvnrqxizlnmvxgizlt"

generate_short_host-count_example :
    (host : String) × (generate_short_host digest suffix ≡ some host)
    × (host ≡ short_prefix digest suffix <> ("." <> suffix))
    × (text_length host ≤ 63)
generate_short_host-count_example =
    generate_short_host-count digest suffix refl (omega arith) (omega arith)
