-- ===== src/Deployer/Ingress/Tls.antt =====
-- `IngressTLSDeployer` of fiaas_deploy_daemon/deployer/kubernetes/ingress.py: the TLS entries of an
-- ingress, and the short host that can be the common name of a certificate.
use fiaas_deploy_daemon.Base.{
  ℕ, suc, ◌-◌, ◌≤◌, ◌<◌, String, ◌<>◌, ◌≡◌, refl, ap, ◌∙◌, Bool, true, false, not, ◌||◌, Option,
  none, some, List, [], ◌∷◌, ◌++◌, map, arith, ◌==◌, ltb, leb, eqb, if◌then◌else◌, filter,
}
use Prim.Native.String.{count}
use Prim.Native.Char.{code}
use text.Mathlib.TextLemmas.{cons-append, length-append as count-append, length-nil}
use fiaas_deploy_daemon.Base.Dict.{Dict, merge_dicts}
use fiaas_deploy_daemon.Deployer.Text.{take_text, drop_last, count-take_text}
use fiaas_deploy_daemon.Deployer.Spec.{AppSpec}
use fiaas_deploy_daemon.Deployer.Ingress.Issuers.{truthy_text}

-- What `IngressTLSDeployer` takes from the configuration.
pub record TlsConfig : Type 0 where
  pub use_ingress_tls : String
  pub tls_certificate_issuer : Option String
  pub ingress_suffixes : List String
  pub enable_deprecated_tls_entry_per_host : Bool

pub record TlsEntry : Type 0 where
  pub hosts : List String
  pub secret_name : String

-- The fields of an ingress that are read and set.
pub record TlsIngress : Type 0 where
  pub name : String
  pub annotations : Dict String
  pub tls : List TlsEntry

-- `sorted(suffixes, key=len)[0]`: the first of the shortest.
unfoldable pub shortest_suffix : List String → Option String
shortest_suffix [] = none
shortest_suffix (s ∷ ss) = elim (shortest_suffix ss) [
  | none ↦ some s
  | some t ↦ if leb (count s) (count t) then some s else some t
]

-- `prefix[: 62 - len(suffix)]`, where a negative bound counts from the end.
unfoldable pub short_prefix : String → String → String
unfolding take_text drop_last
short_prefix prefix suffix =
    if leb (count suffix) 62
    then take_text (62 - count suffix) prefix
    else drop_last (count suffix - 62) prefix

abbrev starts_with_dot : String → Bool
starts_with_dot String.[] = false
starts_with_dot (String.◌∷◌ c s) = eqb (code c) 46

-- `_generate_short_host`, from the encoded digest of the application's name and namespace; `none` is
-- ValueError.
unfoldable pub generate_short_host : String → String → Option String
unfolding short_prefix
generate_short_host digest suffix =
    let short_name = short_prefix digest suffix <> ("." <> suffix) in
    if ltb 63 (count short_name) || starts_with_dot short_name then none else some short_name

-- `_should_have_ingress_tls`
unfoldable pub should_have_ingress_tls : TlsConfig → AppSpec → Bool
should_have_ingress_tls config app_spec = elim app_spec.ingress_tls.enabled [
  | some false ↦ false
  | some true ↦ not (config.use_ingress_tls == "disabled")
  | none ↦ config.use_ingress_tls == "default_on"
]

abbrev pub with_short_host : Option String → List String → List String
with_short_host none hosts = hosts
with_short_host (some host) hosts = host ∷ hosts

module _ (digest : String → String → String) (config : TlsConfig) where
  -- `_collapse_hosts`
  unfoldable pub collapse_hosts : AppSpec → List String → List String
  unfolding shortest_suffix generate_short_host
  collapse_hosts app_spec hosts = elim (shortest_suffix config.ingress_suffixes) [
    | none ↦ hosts
    | some suffix ↦
        if suffix == ""
        then hosts
        else with_short_host (generate_short_host (digest app_spec.name app_spec.namespace) suffix)
            hosts
  ]

  abbrev tls_annotations : AppSpec → String → String → Dict String
  tls_annotations app_spec issuer_type issuer_name =
      if truthy_text config.tls_certificate_issuer
        || truthy_text app_spec.ingress_tls.certificate_issuer
      then (issuer_type, issuer_name) ∷ []
      else ("kubernetes.io/tls-acme", "true") ∷ []

  abbrev pub entry_per_host : List String → List TlsEntry
  entry_per_host hosts =
      map (λ host. record { hosts = host ∷ []; secret_name = host })
        (filter (λ host. ltb (count host) 64) hosts)

  -- `apply`, for an issuer with a name
  unfoldable pub apply_tls :
      TlsIngress → AppSpec → List String → String → String → Bool → TlsIngress
  unfolding should_have_ingress_tls collapse_hosts merge_dicts
  apply_tls ingress app_spec hosts issuer_type issuer_name use_suffixes =
      if should_have_ingress_tls config app_spec
      then record ingress {
        annotations =
            merge_dicts
              (ingress.annotations ∷ tls_annotations app_spec issuer_type issuer_name ∷ []);
        tls =
            (if config.enable_deprecated_tls_entry_per_host then entry_per_host hosts else [])
            ++ ((record {
              hosts = (if use_suffixes then collapse_hosts app_spec hosts else hosts);
              secret_name = ingress.name <> "-ingress-tls";
            })
                ∷ []);
      }
      else ingress

leb-of-le : (a b : ℕ) → a ≤ b → leb a b ≡ true
leb-of-le a b le = ground arith

short_prefix-take_text :
    (digest suffix : String)
    → count suffix ≤ 61
    → short_prefix digest suffix ≡ take_text (suc (61 - count suffix)) digest
unfolding short_prefix
short_prefix-take_text digest suffix short =
    rw (leb-of-le (count suffix) 62 (omega (arith, short)))
      (ap (λ n. take_text n digest) (bound (count suffix) short))
  where
    bound : (n : ℕ) → n ≤ 61 → 62 - n ≡ suc (61 - n)
    bound n le = omega (arith, le)

take_text-starts_with_dot :
    (k : ℕ) (digest t : String)
    → starts_with_dot digest ≡ false
    → 0 < count digest
    → starts_with_dot (take_text (suc k) digest <> t) ≡ false
unfolding take_text
take_text-starts_with_dot k String.[] t h lt = absurd (omega (arith, rw length-nil at lt))
take_text-starts_with_dot k (String.◌∷◌ c s) t h lt =
    ap starts_with_dot (cons-append c (take_text k s) t) ∙ h

neither : (n : ℕ) (dot : Bool) → n ≤ 63 → dot ≡ false → (ltb 63 n || dot) ≡ false
neither n dot le e = ground arith

-- A short host under a suffix of at most 61 characters is generated from every digest that is not
-- empty and starts with no dot. It is a piece of the digest with the suffix behind a dot, and has at
-- most the 63 characters that a common name may have.
pub generate_short_host-count :
    (digest suffix : String)
    → starts_with_dot digest ≡ false
    → 0 < count digest
    → count suffix ≤ 61
    → (host : String) × (generate_short_host digest suffix ≡ some host)
      × (host ≡ short_prefix digest suffix <> ("." <> suffix))
      × (count host ≤ 63)
unfolding generate_short_host
generate_short_host-count digest suffix no_dot some_digest short =
    let host = short_prefix digest suffix <> ("." <> suffix) in
    let k = 61 - count suffix in
    let taken = short_prefix-take_text digest suffix short in
    let small : count host ≤ 63 = omega (
      arith,
      count-append (short_prefix digest suffix) ("." <> suffix),
      count-append "." suffix,
      ap count taken,
      count-take_text (suc k) digest,
      short,
    ) in
    let dotless : starts_with_dot host ≡ false =
      ap (λ p. starts_with_dot (p <> ("." <> suffix))) taken
      ∙ take_text-starts_with_dot k digest ("." <> suffix) no_dot some_digest in
    (host, rw (neither (count host) (starts_with_dot host) small dotless) refl, refl, small)
