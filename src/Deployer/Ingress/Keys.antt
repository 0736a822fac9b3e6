-- ===== src/Deployer/Ingress/Keys.antt =====
-- The issuers of the items of an ingress in fiaas_deploy_daemon/deployer/kubernetes/ingress.py.
use fiaas_deploy_daemon.Base.{
  String, ◌≡◌, refl, sym, ap, ◌∙◌, inl, inr, true, Option, none, some, List, [], ◌∷◌, arith, eq_iff,
  ◌==◌, Bool-cases, All, All-append, ok, >>=-eq-ok, ok-injective,
}
use mathlib.Core.Path.{subst, ap₂}
use fiaas_deploy_daemon.Base.Dict.{Dict}
use fiaas_deploy_daemon.Deployer.Spec.{AppSpec, Item}
use fiaas_deploy_daemon.Deployer.Ingress.Issuers.{
  IngressConfig, tls_issuer_type_default, get_issuer_name_default_ingress,
}
use fiaas_deploy_daemon.Deployer.Ingress.Group.{
  AnnotatedIngress, Groups, add_item, append_under, values, group_item, group_by, group_all, start,
  group_ingresses, issuer_key, item_type, item_issuer, fresh_override, with_annotations, plain_item,
  is_default_issuer, all_items, same_name,
}

same_name→eq : (a b : Option String) → same_name a b ≡ true → a ≡ b
same_name→eq none none h = refl
same_name→eq (some a) (some b) h = ap some ((eq_iff a b).0 h)
same_name→eq none (some b) h = cc
same_name→eq (some a) none h = cc

module _ (config : IngressConfig) (app_spec : AppSpec) where
  abbrev key_of : Item → String
  key_of i = issuer_key (item_type config app_spec i) (item_issuer config app_spec i)

  abbrev group_key : AnnotatedIngress → String
  group_key g = issuer_key g.issuer_type g.issuer_name

  -- Every item of the ingress has the issuer type and name of the ingress, as the text that the code
  -- makes of the two.
  abbrev pub HasItsIssuers : AnnotatedIngress → Type 0
  HasItsIssuers g = All (λ i. key_of i ≡ group_key g) g.ingress_items

  abbrev AreKeyed : Dict AnnotatedIngress → Type 0
  AreKeyed = All (λ kg. (group_key kg.1 ≡ kg.0) × HasItsIssuers kg.1)

  add_item-HasItsIssuers :
      (g : AnnotatedIngress) (i : Item)
      → key_of i ≡ group_key g
      → HasItsIssuers g
      → HasItsIssuers (add_item g i)
  add_item-HasItsIssuers g i e h =
      All-append (λ j. key_of j ≡ group_key g) g.ingress_items (i ∷ []) h (e, tt)

  append_under-AreKeyed :
      (d : Dict AnnotatedIngress) (fresh : AnnotatedIngress) (i : Item)
      → group_key fresh ≡ key_of i
      → HasItsIssuers fresh
      → AreKeyed d
      → AreKeyed (append_under d (key_of i) fresh i)
  unfolding append_under
  append_under-AreKeyed [] fresh i e f h = ((e, add_item-HasItsIssuers fresh i (sym e) f), tt)
  append_under-AreKeyed ((k, g) ∷ d) fresh i e f ((ek, hg), h) = elim (Bool-cases (k == key_of i)) [
    | inl same ↦
        rw same
          ((ek, add_item-HasItsIssuers g i (sym ((eq_iff k (key_of i)).0 same) ∙ sym ek) hg), h)
    | inr other ↦ rw other ((ek, hg), append_under-AreKeyed d fresh i e f h)
  ]

  record Keyed (g : Groups) : Type 0 where
    default_type : g.default_ingress.issuer_type ≡ tls_issuer_type_default config
    default_name : g.default_ingress.issuer_name ≡ get_issuer_name_default_ingress config app_spec
    default_items : HasItsIssuers g.default_ingress
    others : All HasItsIssuers g.annotated
    overrides : AreKeyed g.override_issuer_ingresses

  plain_item-Keyed : (g : Groups) (i : Item) → Keyed g → Keyed (plain_item config app_spec g i)
  plain_item-Keyed g i k = elim (Bool-cases (is_default_issuer config app_spec i)) [
    | inl same ↦
        let types =
          (eq_iff (item_type config app_spec i) (tls_issuer_type_default config)).0
            (ground arith) in
        let names =
          same_name→eq (item_issuer config app_spec i)
            (get_issuer_name_default_ingress config app_spec) (ground arith) in
        let key : key_of i ≡ group_key g.default_ingress =
          ap₂ issuer_key (types ∙ sym k.default_type) (names ∙ sym k.default_name) in
        rw same (record {
          default_type = k.default_type;
          default_name = k.default_name;
          default_items = add_item-HasItsIssuers g.default_ingress i key k.default_items;
          others = k.others;
          overrides = k.overrides;
        })
    | inr other ↦ rw other (record {
      default_type = k.default_type;
      default_name = k.default_name;
      default_items = k.default_items;
      others = k.others;
      overrides =
          append_under-AreKeyed g.override_issuer_ingresses (fresh_override config app_spec g i) i
            refl tt k.overrides;
    })
  ]

  group_by-Keyed :
      (g : Groups) (i : Item) (d : Dict String) → Keyed g → Keyed (group_by config app_spec g i d)
  group_by-Keyed g i [] k = plain_item-Keyed g i k
  group_by-Keyed g i (kv ∷ d) k = record {
    default_type = k.default_type;
    default_name = k.default_name;
    default_items = k.default_items;
    others =
        All-append HasItsIssuers g.annotated (with_annotations config app_spec g i ∷ []) k.others
          ((refl, tt), tt);
    overrides = k.overrides;
  }

  group_all-Keyed : (g : Groups) (is : List Item) → Keyed g → Keyed (group_all config app_spec g is)
  unfolding group_all group_item
  group_all-Keyed g [] k = k
  group_all-Keyed g (i ∷ is) k =
      group_all-Keyed (group_item config app_spec g i) is (group_by-Keyed g i i.annotations k)

  values-HasItsIssuers : (d : Dict AnnotatedIngress) → AreKeyed d → All HasItsIssuers (values d)
  values-HasItsIssuers [] h = tt
  values-HasItsIssuers ((k, g) ∷ d) ((e, hg), h) = (hg, values-HasItsIssuers d h)

-- In every ingress that `_group_ingresses` returns, each item has the issuer type and the issuer name
-- that are chosen for its host, up to the text "type:name" by which the code compares them.
pub group_ingresses-HasItsIssuers :
    (config : IngressConfig) (app_spec : AppSpec) (default_ingresses : List Item)
    (gs : List AnnotatedIngress)
    → group_ingresses config app_spec default_ingresses ≡ ok gs
    → All (HasItsIssuers config app_spec) gs
unfolding group_ingresses
group_ingresses-HasItsIssuers config app_spec default_ingresses gs h =
    let (is, hi, e) = >>=-eq-ok (all_items config app_spec default_ingresses) _ h in
    let g = group_all config app_spec (start config app_spec) is in
    let k = group_all-Keyed config app_spec (start config app_spec) is (record {
      default_type = refl;
      default_name = refl;
      default_items = tt;
      others = tt;
      overrides = tt;
    }) in
    subst (All (HasItsIssuers config app_spec)) (ok-injective e) (
      k.default_items,
      All-append (HasItsIssuers config app_spec) g.annotated (values g.override_issuer_ingresses)
          k.others (values-HasItsIssuers config app_spec g.override_issuer_ingresses k.overrides),
    )
