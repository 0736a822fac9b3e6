-- ===== src/Deployer/Ingress/Issuers.antt =====
-- The issuers of fiaas_deploy_daemon/deployer/kubernetes/ingress.py: overrides by host suffix, of
-- which the longest comes first.
use fiaas_deploy_daemon.Base.{
  String, ◌<>◌, Bool, false, not, ◌||◌, Option, none, some, List, [], ◌∷◌, ◌==◌, leb, if◌then◌else◌,
}
use Prim.Native.String.{count}
use fiaas_deploy_daemon.Base.Dict.{Dict}
use fiaas_deploy_daemon.Deployer.Text.{ends_with}
use fiaas_deploy_daemon.Deployer.Spec.{AppSpec}

-- `sorted(d.items(), key=lambda k_v: len(k_v[0]), reverse=True)`: a stable sort, longest key first.
module _ {V : Type 0} where
  insert_sorted : String × V → Dict V → Dict V
  insert_sorted (k, v) [] = (k, v) ∷ []
  insert_sorted (k, v) ((j, w) ∷ m) =
      if leb (count j) (count k) then (k, v) ∷ (j, w) ∷ m else (j, w) ∷ insert_sorted (k, v) m

  unfoldable pub longest_first : Dict V → Dict V
  unfolding insert_sorted
  longest_first [] = []
  longest_first (kv ∷ m) = insert_sorted kv (longest_first m)

-- `host == suffix or host.endswith("." + suffix)`
unfoldable pub in_domain : String → String → Bool
unfolding ends_with
in_domain host suffix = host == suffix || ends_with host ("." <> suffix)

-- The `for` loop over the overrides, up to its `return`.
unfoldable pub find_override : Dict String → String → Option String
unfolding in_domain
find_override [] host = none
find_override ((suffix, issuer) ∷ m) host =
    if in_domain host suffix then some issuer else find_override m host

-- The same over a list of suffixes; an empty one is passed over.
unfoldable pub find_for_suffixes : Dict String → List String → Option String
unfolding find_override
find_for_suffixes overrides [] = none
find_for_suffixes overrides (suffix ∷ suffixes) =
    let rest = find_for_suffixes overrides suffixes in
    if suffix == ""
    then rest
    else (elim (find_override overrides suffix) [ some issuer ↦ some issuer | none ↦ rest ])

pub record HostRewriteRule : Type 0 where
  pub matches : String → Bool
  pub apply : String → String

-- What `IngressDeployer` takes from the configuration.
pub record IngressConfig : Type 0 where
  pub ingress_suffixes : List String
  pub host_rewrite_rules : List HostRewriteRule
  pub ingress_host_pairs : Dict String
  pub tls_certificate_issuer_overrides : Dict String
  pub tls_certificate_issuer_type_overrides : Dict String
  pub tls_certificate_issuer_type_default : String
  pub tls_certificate_issuer : Option String

abbrev pub truthy_text : Option String → Bool
truthy_text none = false
truthy_text (some s) = not (s == "")

abbrev or_default : Option String → String → String
or_default none d = d
or_default (some s) d = s

module _ (config : IngressConfig) where
  abbrev tls_issuer_overrides : Dict String
  tls_issuer_overrides = longest_first config.tls_certificate_issuer_overrides

  abbrev tls_issuer_type_overrides : Dict String
  tls_issuer_type_overrides = longest_first config.tls_certificate_issuer_type_overrides

  -- `_get_issuer_type_default_ingress`
  unfoldable pub tls_issuer_type_default : String
  unfolding find_for_suffixes longest_first
  tls_issuer_type_default =
      or_default (find_for_suffixes tls_issuer_type_overrides config.ingress_suffixes)
        config.tls_certificate_issuer_type_default

  -- The last `return` of `_get_issuer_name` and `_get_issuer_name_default_ingress`.
  abbrev issuer_name_fallback : AppSpec → Option String
  issuer_name_fallback app_spec =
      let own = app_spec.ingress_tls.certificate_issuer in
      if truthy_text own then own else config.tls_certificate_issuer

  -- `_get_issuer_name_default_ingress`
  unfoldable pub get_issuer_name_default_ingress : AppSpec → Option String
  unfolding find_for_suffixes longest_first
  get_issuer_name_default_ingress app_spec =
      elim (find_for_suffixes tls_issuer_overrides config.ingress_suffixes) [
        | some name ↦ some name
        | none ↦ issuer_name_fallback app_spec
      ]

  -- `_get_issuer_type`
  unfoldable pub get_issuer_type : Option String → String
  unfolding find_override longest_first tls_issuer_type_default
  get_issuer_type none = tls_issuer_type_default
  get_issuer_type (some host) =
      if host == ""
      then tls_issuer_type_default
      else or_default (find_override tls_issuer_type_overrides host) tls_issuer_type_default

  -- `_get_issuer_name`
  unfoldable pub get_issuer_name : Option String → AppSpec → Option String
  unfolding find_override longest_first
  get_issuer_name none app_spec = issuer_name_fallback app_spec
  get_issuer_name (some host) app_spec =
      if host == ""
      then issuer_name_fallback app_spec
      else (elim (find_override tls_issuer_overrides host) [
        | some name ↦ some name
        | none ↦ issuer_name_fallback app_spec
      ])
