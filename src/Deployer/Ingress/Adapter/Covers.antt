-- ===== src/Deployer/Ingress/Adapter/Covers.antt =====
-- The hosts in the TLS entries of the ingress that
-- fiaas_deploy_daemon/deployer/kubernetes/ingress_networkingv1.py and ingress_v1beta1.py save.
use mathlib.Core.Path.{subst}
use fiaas_deploy_daemon.Base.{
  String, ◌<>◌, ◌≡◌, refl, ◌⊎◌, inl, inr, Bool, true, false, Option, none, some, List, [], ◌∷◌,
  ◌++◌, arith, eq_refl, ◌==◌, if◌then◌else◌, Bool-cases, Option-cases, any, contains, All, All-map,
  Eff, ok, map, sym, ◌∙◌,
}
use fiaas_deploy_daemon.Deployer.Spec.{AppSpec}
use fiaas_deploy_daemon.Deployer.Ingress.Group.{AnnotatedIngress}
use fiaas_deploy_daemon.Deployer.Ingress.Tls.{
  TlsConfig, TlsEntry, shortest_suffix, generate_short_host, with_short_host,
  should_have_ingress_tls, collapse_hosts, apply_tls, entry_per_host,
}
use fiaas_deploy_daemon.Deployer.Ingress.Adapter.{
  Ingress, IngressRule, IngressApi, PathMapping, HttpPath, with_tls, host_of, ingress_metadata,
  per_host_rules, save_ingress, create_once,
}
use fiaas_deploy_daemon.Base.Dict.{Dict}
use fiaas_deploy_daemon.Deployer.Kubernetes.Api.{Metadata}

-- The host stands in one of the entries.
abbrev pub is_covered : List TlsEntry → String → Bool
is_covered entries host = any (λ entry. contains entry.hosts host) entries

contains-All : (hosts : List String) → All (λ h. contains hosts h ≡ true) hosts
contains-All [] = tt
contains-All (h ∷ hosts) = (
  rw eq_refl refl,
  All-map (λ x. contains hosts x ≡ true) (λ x. contains (h ∷ hosts) x ≡ true) hosts
      (λ x e. ground (arith, e)) (contains-All hosts),
)

short-contains :
    (host : Option String) (hosts : List String) (h : String)
    → contains hosts h ≡ true
    → contains (with_short_host host hosts) h ≡ true
short-contains none hosts h e = e
short-contains (some x) hosts h e = ground (arith, e)

collapse-contains :
    (digest : String → String → String) (config : TlsConfig) (app_spec : AppSpec)
    (hosts : List String) (h : String)
    → contains hosts h ≡ true
    → contains (collapse_hosts digest config app_spec hosts) h ≡ true
unfolding collapse_hosts
collapse-contains digest config app_spec hosts h e =
    elim (Option-cases (shortest_suffix config.ingress_suffixes)) [
      | inl missing ↦ rw (collapse_hosts, missing) e
      | inr (suffix, found) ↦ rw (collapse_hosts, found) (by suffix (Bool-cases (suffix == "")))
    ]
  where
    by :
        (suffix : String)
        → ((suffix == "") ≡ true) ⊎ ((suffix == "") ≡ false)
        → contains
            (if suffix == ""
              then hosts
              else with_short_host
                  (generate_short_host (digest app_spec.name app_spec.namespace) suffix)
                  hosts)
            h
          ≡ true
    by suffix (inl empty) = rw empty e
    by suffix (inr full) = rw full (
        short-contains (generate_short_host (digest app_spec.name app_spec.namespace) suffix) hosts
          h e)

covered-append :
    (entries : List TlsEntry) (last : TlsEntry) (h : String)
    → contains last.hosts h ≡ true
    → is_covered (entries ++ (last ∷ [])) h ≡ true
covered-append [] last h e = rw e refl
covered-append (x ∷ entries) last h e =
    let rest = covered-append entries last h e in ground (arith, rest)

-- Every host that is given stands in an entry, for each choice of the settings.
with_tls-Covers :
    (digest : String → String → String) (config : TlsConfig) (app_spec : AppSpec)
    (annotated_ingress : AnnotatedIngress) (hosts : List String) (ingress : Ingress)
    → should_have_ingress_tls config app_spec ≡ true
    → All
        (λ h.
          is_covered (with_tls digest config app_spec annotated_ingress hosts ingress).tls h ≡ true)
        hosts
unfolding with_tls apply_tls
with_tls-Covers digest config app_spec g hosts ingress on = rw on (
    All-map (λ h. contains hosts h ≡ true) (λ h. is_covered (entries ++ (last ∷ [])) h ≡ true) hosts
      (λ h e. covered-append entries last h (covers h e)) (contains-All hosts))
  where
    entries : List TlsEntry
    entries =
        if config.enable_deprecated_tls_entry_per_host
        then entry_per_host digest config hosts
        else []

    last : TlsEntry
    last = record {
      hosts = (if g.default then collapse_hosts digest config app_spec hosts else hosts);
      secret_name = ingress.metadata.name <> "-ingress-tls";
    }

    covers : (h : String) → contains hosts h ≡ true → contains last.hosts h ≡ true
    covers h e = elim (Bool-cases g.default) [
      | inl on_default ↦ rw on_default (collapse-contains digest config app_spec hosts h e)
      | inr other ↦ rw other e
    ]

All-of_map :
    {A B : Type 0} (P : B → Type 0) (f : A → B) (xs : List A)
    → All P (map f xs)
    → All (λ x. P (f x)) xs
All-of_map P f [] h = tt
All-of_map P f (x ∷ xs) (h, hs) = (h, All-of_map P f xs hs)

-- `get_or_create` gives an ingress the rules that it is called with.
abbrev pub SetsRules : {S : Type 0} → IngressApi S → Type 0
SetsRules {S = S} api =
    (metadata : Metadata) (rules : List IngressRule) (ingress : Ingress) (s t : S)
    → api.get_or_create metadata rules s ≡ (ok ingress, t)
    → ingress.rules ≡ rules

-- Every host of the rules of the ingress stands in one of its TLS entries.
abbrev pub IsSecured : Ingress → Type 0
IsSecured ingress = All (λ rule. is_covered ingress.tls (host_of rule) ≡ true) ingress.rules

module _ {S : Type 0} (digest : String → String → String) (config : TlsConfig)
    (on_exception : Eff S (Unit {0}) → Eff S (Unit {0})) (api : IngressApi S)
    (make_paths : List PathMapping → List HttpPath) (app_spec : AppSpec)
    (annotated_ingress : AnnotatedIngress) (labels : Dict String) where
  -- One run of `create_ingress`, without its retry, for an application that is to have TLS and with
  -- an ingress that `get_or_create` answers with: the ingress that goes through the owner references
  -- and the extension hook to `save` has the rules of the items, and every host of these rules stands
  -- in one of its TLS entries, whether or not there is an entry for each host and a generated short
  -- host. `get_or_create` is assumed to answer with the rules that it is called with.
  pub create_once-Covers :
      SetsRules api
      → (ingress : Ingress) (s t : S) → should_have_ingress_tls config app_spec ≡ true
      → api.get_or_create
          (ingress_metadata app_spec annotated_ingress labels)
          (per_host_rules make_paths annotated_ingress.ingress_items)
          s
        ≡ (ok ingress, t)
      → (secured : Ingress) × (create_once digest config on_exception api make_paths app_spec
            annotated_ingress labels s
          ≡ save_ingress digest config on_exception api app_spec secured t)
        × (secured.rules ≡ per_host_rules make_paths annotated_ingress.ingress_items)
        × IsSecured secured
  unfolding create_once with_tls
  create_once-Covers sets ingress s t on e =
      let rules = per_host_rules make_paths annotated_ingress.ingress_items in
      let hosts = map host_of rules in
      let secured = with_tls digest config app_spec annotated_ingress hosts ingress in
      let same : secured.rules ≡ rules =
        with_tls-rules hosts ingress ∙ sets _ rules ingress s t e in
      (
        secured,
        rw e refl,
        same,
        subst (All (λ rule. is_covered secured.tls (host_of rule) ≡ true)) (sym same) (
            All-of_map (λ h. is_covered secured.tls h ≡ true) host_of rules
              (with_tls-Covers digest config app_spec annotated_ingress hosts ingress on)),
      )
    where
      with_tls-rules :
          (hosts : List String) (i : Ingress)
          → (with_tls digest config app_spec annotated_ingress hosts i).rules ≡ i.rules
      with_tls-rules hosts i = refl
