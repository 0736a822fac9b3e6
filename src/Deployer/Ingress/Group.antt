-- ===== src/Deployer/Ingress/Group.antt =====
-- `IngressDeployer` of fiaas_deploy_daemon/deployer/kubernetes/ingress.py: the ingress items are
-- grouped into ingresses.
use fiaas_deploy_daemon.Base.{
  ◌>>=◌, ℕ, suc, ◌+◌, String, ◌<>◌, Bool, true, false, ◌&&◌, ◌||◌, Option, none, some, List, [],
  ◌∷◌, ◌++◌, ◌==◌, ltb, if◌then◌else◌, length, any, Result, ok,
}
use fiaas_deploy_daemon.Base.Dict.{Dict}
use fiaas_deploy_daemon.Specs.Models.{PortSpec}
use fiaas_deploy_daemon.Deployer.Text.{show}
use fiaas_deploy_daemon.Deployer.Spec.{AppSpec, Item}
use fiaas_deploy_daemon.Deployer.Ingress.Issuers.{
  IngressConfig, tls_issuer_type_default, get_issuer_name_default_ingress, get_issuer_type,
  get_issuer_name,
}
use fiaas_deploy_daemon.Deployer.Ingress.Hosts.{expand_default_hosts, explicit_items, add_pairs}

pub record AnnotatedIngress : Type 0 where
  pub name : String
  pub ingress_items : List Item
  pub annotations : Dict String
  pub explicit_host : Bool
  pub issuer_type : String
  pub issuer_name : Option String
  pub default : Bool

abbrev pub same_name : Option String → Option String → Bool
same_name none none = true
same_name (some a) (some b) = a == b
same_name _ _ = false

-- The variables of the loop of `_group_ingresses`: the default ingress and the others, which are the
-- list `ingresses`, and the dict `override_issuer_ingresses`.
pub record Groups : Type 0 where
  pub default_ingress : AnnotatedIngress
  pub annotated : List AnnotatedIngress
  pub override_issuer_ingresses : Dict AnnotatedIngress

abbrev pub add_item : AnnotatedIngress → Item → AnnotatedIngress
add_item g item = record g { ingress_items = g.ingress_items ++ (item ∷ []) }

-- `"{}:{}".format(issuer_type, issuer_name)`
abbrev pub issuer_key : String → Option String → String
issuer_key issuer_type none = issuer_type <> ":None"
issuer_key issuer_type (some issuer_name) = issuer_type <> (":" <> issuer_name)

-- `d.setdefault(key, fresh)`, whose value then gets the item appended in place.
unfoldable pub append_under :
    Dict AnnotatedIngress → String → AnnotatedIngress → Item → Dict AnnotatedIngress
append_under [] key fresh item = (key, add_item fresh item) ∷ []
append_under ((k, g) ∷ d) key fresh item =
    if k == key then (k, add_item g item) ∷ d else (k, g) ∷ append_under d key fresh item

abbrev pub values : Dict AnnotatedIngress → List AnnotatedIngress
values [] = []
values ((_, g) ∷ d) = g ∷ values d

-- `_has_explicitly_set_host`
abbrev is_explicit : Item → Bool
is_explicit item = elim item.host [
  | none ↦ false
  | some _ ↦ elim item.annotations [ [] ↦ true | _ ∷ _ ↦ false ]
]

unfoldable pub has_explicitly_set_host : List Item → Bool
has_explicitly_set_host = any is_explicit

-- `_has_http_port`
unfoldable pub has_http_port : List (PortSpec String ℕ) → Bool
has_http_port = any (λ (p : PortSpec String ℕ). p.protocol == "http")

-- `_has_ingress`
unfoldable pub has_ingress : List Item → Bool
has_ingress is = ltb 0 (length is)

module _ (config : IngressConfig) (app_spec : AppSpec) where
  -- `next_name` of the loop: `len(ingresses)` counts the default ingress.
  abbrev pub count_groups : Groups → ℕ
  count_groups g = suc (length g.annotated) + length g.override_issuer_ingresses

  abbrev pub next_name : Groups → String
  next_name g = app_spec.name <> ("-" <> show (count_groups g))

  abbrev pub item_type : Item → String
  item_type item = get_issuer_type config item.host

  abbrev pub item_issuer : Item → Option String
  item_issuer item = get_issuer_name config item.host app_spec

  abbrev pub is_default_issuer : Item → Bool
  is_default_issuer item =
      item_type item == tls_issuer_type_default config
      && same_name (item_issuer item) (get_issuer_name_default_ingress config app_spec)

  abbrev pub with_annotations : Groups → Item → AnnotatedIngress
  with_annotations g item = record {
    name = next_name g;
    ingress_items = item ∷ [];
    annotations = item.annotations;
    explicit_host = true;
    issuer_type = item_type item;
    issuer_name = item_issuer item;
    default = false;
  }

  abbrev pub fresh_override : Groups → Item → AnnotatedIngress
  fresh_override g item = record {
    name = next_name g;
    ingress_items = [];
    annotations = [];
    explicit_host = has_explicitly_set_host app_spec.ingresses;
    issuer_type = item_type item;
    issuer_name = item_issuer item;
    default = false;
  }

  abbrev pub plain_item : Groups → Item → Groups
  plain_item g item =
      if is_default_issuer item
      then record g { default_ingress = add_item g.default_ingress item }
      else record g {
        override_issuer_ingresses =
            append_under g.override_issuer_ingresses
              (issuer_key (item_type item) (item_issuer item)) (fresh_override g item) item;
      }

  abbrev pub group_by : Groups → Item → Dict String → Groups
  group_by g item [] = plain_item g item
  group_by g item (_ ∷ _) = record g { annotated = g.annotated ++ (with_annotations g item ∷ []) }

  -- One round of the loop.
  unfoldable pub group_item : Groups → Item → Groups
  unfolding append_under
  group_item g item = group_by g item item.annotations

  unfoldable pub group_all : Groups → List Item → Groups
  unfolding group_item
  group_all g [] = g
  group_all g (item ∷ items) = group_all (group_item g item) items

  abbrev pub start : Groups
  start = record {
    default_ingress = record {
      name = app_spec.name;
      ingress_items = [];
      annotations = [];
      explicit_host = has_explicitly_set_host app_spec.ingresses;
      issuer_type = tls_issuer_type_default config;
      issuer_name = get_issuer_name_default_ingress config app_spec;
      default = true;
    };
    annotated = [];
    override_issuer_ingresses = [];
  }

  abbrev pub ingresses_of : Groups → List AnnotatedIngress
  ingresses_of g = g.default_ingress ∷ (g.annotated ++ values g.override_issuer_ingresses)

  -- The items that `_group_ingresses` distributes.
  unfoldable pub all_items : List Item → Result (List Item)
  unfolding expand_default_hosts explicit_items add_pairs
  all_items default_ingresses = do
    expanded ← expand_default_hosts config default_ingresses app_spec
    let items = explicit_items config app_spec.ingresses ++ expanded
    ok (add_pairs config items items)

  -- `_group_ingresses`
  unfoldable pub group_ingresses : List Item → Result (List AnnotatedIngress)
  unfolding all_items group_all
  group_ingresses default_ingresses = do
    items ← all_items default_ingresses
    ok (ingresses_of (group_all start items))

  -- `_can_generate_host` and `_should_have_ingress`
  unfoldable pub should_have_ingress : Bool
  unfolding has_explicitly_set_host has_ingress has_http_port
  should_have_ingress =
      (ltb 0 (length config.ingress_suffixes) || has_explicitly_set_host app_spec.ingresses)
      && has_ingress app_spec.ingresses
      && has_http_port app_spec.ports
