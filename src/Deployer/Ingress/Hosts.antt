-- ===== src/Deployer/Ingress/Hosts.antt =====
-- The hosts of fiaas_deploy_daemon/deployer/kubernetes/ingress.py: default hosts, rewritten hosts and
-- paired hosts.
use fiaas_deploy_daemon.Base.{
  ℕ, String, ◌<>◌, Bool, false, ◌&&◌, Option, none, some, List, [], ◌∷◌, ◌++◌, map, ◌==◌, eqb,
  if◌then◌else◌, any, value_error, runtime_error, Result, ok, raise, ◌>>=◌,
}
use fiaas_deploy_daemon.Base.Dict.{get}
use fiaas_deploy_daemon.Specs.Models.{PortSpec, IngressPathMappingSpec}
use fiaas_deploy_daemon.Deployer.Spec.{AppSpec, Item}
use fiaas_deploy_daemon.Deployer.Ingress.Issuers.{IngressConfig, HostRewriteRule}

abbrev pub Mapping : Type 0
Mapping = IngressPathMappingSpec String ℕ

-- Two path mappings are equal as tuples.
abbrev pub same_mapping : Mapping → Mapping → Bool
same_mapping a b = a.path == b.path && eqb a.port b.port

-- `deduplicate_in_order`, with the items that were seen.
module _ {A : Type 0} (same : A → A → Bool) where
  unfoldable pub deduplicate_from : List A → List A → List A
  deduplicate_from seen [] = []
  deduplicate_from seen (x ∷ xs) =
      let rest = deduplicate_from seen xs in
      let longer = x ∷ deduplicate_from (x ∷ seen) xs in
      if any (λ y. same y x) seen then rest else longer

  unfoldable pub deduplicate_in_order : List A → List A
  unfolding deduplicate_from
  deduplicate_in_order = deduplicate_from []

-- The path mappings of the items with no annotations, in order.
abbrev unannotated : List Item → List Mapping
unannotated [] = []
unannotated (i ∷ is) = elim i.annotations [
  | [] ↦ i.pathmappings ++ unannotated is
  | _ ∷ _ ↦ unannotated is
]

-- `_resolve_http_port`
unfoldable pub resolve_http_port : List (PortSpec String ℕ) → Result ℕ
resolve_http_port [] = raise value_error
resolve_http_port (p ∷ ps) = if p.name == "http" then ok p.port else resolve_http_port ps

-- `_resolve_default_path`, over the ingresses of the default specification: `next` of an empty
-- iterator raises, inside a plain function, StopIteration, which nothing here catches.
abbrev first_path : List Mapping → Result String
first_path [] = raise runtime_error
first_path (m ∷ _) = ok m.path

unfoldable pub resolve_default_path : List Item → Result String
resolve_default_path [] = raise runtime_error
resolve_default_path (i ∷ _) = first_path i.pathmappings

-- `any(item.host == host for item in items)`
abbrev pub has_host : String → List Item → Bool
has_host host = any (λ (i : Item). elim i.host [ none ↦ false | some h ↦ h == host ])

-- One round of the loop that pairs hosts, for the paired host of the item.
abbrev pub add_pair : List Item → Item → Option String → List Item
add_pair items i none = items
add_pair items i (some p) =
    if has_host p items then items else items ++ (record i { host = some p } ∷ [])

module _ (config : IngressConfig) where
  -- `_generate_default_hosts`
  unfoldable pub generate_default_hosts : String → List String
  generate_default_hosts name = map (λ suffix. name <> ("." <> suffix)) config.ingress_suffixes

  -- `_expand_default_hosts`; `default_ingresses` are those of `default_app_spec()`.
  unfoldable pub expand_default_hosts : List Item → AppSpec → Result (List Item)
  unfolding deduplicate_in_order resolve_http_port resolve_default_path generate_default_hosts
  expand_default_hosts default_ingresses app_spec = do
    all_pathmappings ← (elim (deduplicate_in_order same_mapping (unannotated app_spec.ingresses)) [
      | [] ↦ (do
        http_port ← resolve_http_port app_spec.ports
        default_path ← resolve_default_path default_ingresses
        ok ((record { path = default_path; port = http_port }) ∷ []))
      | m ∷ ms ↦ ok (m ∷ ms)
    ])
    ok (
        map (λ host. record { host = some host; pathmappings = all_pathmappings; annotations = [] })
          (generate_default_hosts app_spec.name))

  -- `_apply_host_rewrite_rules`
  rewrite_by : List HostRewriteRule → String → String
  rewrite_by [] host = host
  rewrite_by (rule ∷ rules) host =
      if rule.matches host then rule.apply host else rewrite_by rules host

  unfoldable pub apply_host_rewrite_rules : String → String
  unfolding rewrite_by
  apply_host_rewrite_rules = rewrite_by config.host_rewrite_rules

  -- The items with a host of their own, their hosts rewritten.
  unfoldable pub explicit_items : List Item → List Item
  unfolding apply_host_rewrite_rules
  explicit_items [] = []
  explicit_items (i ∷ is) = elim i.host [
    | none ↦ explicit_items is
    | some host ↦
        if host == ""
        then explicit_items is
        else record i { host = some (apply_host_rewrite_rules host) } ∷ explicit_items is
  ]

  unfoldable pub paired_host : Item → Option String
  unfolding get
  paired_host i = elim i.host [
    | none ↦ none
    | some h ↦ elim (get config.ingress_host_pairs h) [
      | none ↦ none
      | some p ↦ if p == "" then none else some p
    ]
  ]

  -- The loop that adds an identical item on a paired host that has none. It runs over the items as
  -- they were, `todo`, and adds to `items`.
  unfoldable pub add_pairs : List Item → List Item → List Item
  unfolding paired_host
  add_pairs items [] = items
  add_pairs items (i ∷ todo) = add_pairs (add_pair items i (paired_host i)) todo
