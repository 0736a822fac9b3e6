-- ===== src/Deployer/Ingress/Partition.antt =====
-- Where the items go in fiaas_deploy_daemon/deployer/kubernetes/ingress.py, by counting.
use fiaas_deploy_daemon.Base.{
  ℕ, ◌+◌, String, ◌≡◌, refl, inl, inr, Bool, List, [], ◌∷◌, ◌++◌, arith, ◌==◌, if◌then◌else◌,
  Bool-cases, ok, ok-injective,
}
use mathlib.Core.Path.{subst}
use fiaas_deploy_daemon.Base.Dict.{Dict}
use fiaas_deploy_daemon.Deployer.Spec.{AppSpec, Item}
use fiaas_deploy_daemon.Deployer.Ingress.Issuers.{IngressConfig}
use fiaas_deploy_daemon.Deployer.Ingress.Group.{
  is_default_issuer, with_annotations, fresh_override, plain_item, group_by, AnnotatedIngress,
  Groups, append_under, values, issuer_key, group_item, group_all, start, ingresses_of, all_items,
  group_ingresses, item_type, item_issuer,
}

-- How many items of a list meet a test.
module _ (p : Item → Bool) where
  abbrev one : Item → ℕ
  one i = if p i then 1 else 0

  abbrev pub count : List Item → ℕ
  count [] = 0
  count (i ∷ is) = one i + count is

  -- How many items of the ingresses meet it, counted in every ingress.
  abbrev pub count_in : List AnnotatedIngress → ℕ
  count_in [] = 0
  count_in (g ∷ gs) = count g.ingress_items + count_in gs

  count-append : (is js : List Item) → count (is ++ js) ≡ count is + count js
  count-append [] js = omega arith
  count-append (i ∷ is) js = omega (arith, count-append is js)

  count_in-append :
      (gs hs : List AnnotatedIngress) → count_in (gs ++ hs) ≡ count_in gs + count_in hs
  count_in-append [] hs = omega arith
  count_in-append (g ∷ gs) hs = omega (arith, count_in-append gs hs)

  count-append_under :
      (d : Dict AnnotatedIngress) (key : String) (fresh : AnnotatedIngress) (i : Item)
      → count fresh.ingress_items ≡ 0
      → count_in (values (append_under d key fresh i)) ≡ count_in (values d) + one i
  unfolding append_under
  count-append_under [] key fresh i e = omega (arith, count-append fresh.ingress_items (i ∷ []))
  count-append_under ((k, g) ∷ d) key fresh i e = elim (Bool-cases (k == key)) [
    | inl same ↦ rw same (omega (arith, count-append g.ingress_items (i ∷ [])))
    | inr other ↦ rw other (omega (arith, count-append_under d key fresh i e))
  ]

  module _ (config : IngressConfig) (app_spec : AppSpec) where
    abbrev total : Groups → ℕ
    total g = count_in (ingresses_of config app_spec g)

    count-plain_item :
        (g : Groups) (i : Item) → total (plain_item config app_spec g i) ≡ total g + one i
    count-plain_item g i = elim (Bool-cases (is_default_issuer config app_spec i)) [
      | inl same ↦ rw same (omega (arith, count-append g.default_ingress.ingress_items (i ∷ [])))
      | inr other ↦ rw other (
          rw (count_in-append, count_in-append)
            (omega (
              arith,
              count-append_under g.override_issuer_ingresses
                  (issuer_key (item_type config app_spec i) (item_issuer config app_spec i))
                  (fresh_override config app_spec g i) i refl,
            )))
    ]

    count-group_by :
        (g : Groups) (i : Item) (d : Dict String)
        → total (group_by config app_spec g i d) ≡ total g + one i
    count-group_by g i [] = count-plain_item g i
    count-group_by g i (kv ∷ d) = omega (
      arith,
      count_in-append (g.annotated ++ (with_annotations config app_spec g i ∷ []))
          (values g.override_issuer_ingresses),
      count_in-append g.annotated (with_annotations config app_spec g i ∷ []),
      count_in-append g.annotated (values g.override_issuer_ingresses),
    )

    count-group_all :
        (g : Groups) (is : List Item) → total (group_all config app_spec g is) ≡ total g + count is
    unfolding group_all group_item
    count-group_all g [] = omega arith
    count-group_all g (i ∷ is) = omega (
      arith,
      count-group_all (group_item config app_spec g i) is,
      count-group_by g i i.annotations,
    )

-- Every item that is to be served is in one of the ingresses of `_group_ingresses`, and in them all
-- together as often as it was given: for each test, as many items of the ingresses meet it as of the
-- list that is distributed.
pub group_ingresses-count :
    (config : IngressConfig) (app_spec : AppSpec) (default_ingresses is : List Item)
    (gs : List AnnotatedIngress)
    → all_items config app_spec default_ingresses ≡ ok is
    → group_ingresses config app_spec default_ingresses ≡ ok gs
    → (p : Item → Bool) → count_in p gs ≡ count p is
unfolding group_ingresses
group_ingresses-count config app_spec default_ingresses is gs hi hg p =
    let grouped : ok
          (ingresses_of config app_spec (group_all config app_spec (start config app_spec) is))
        ≡ ok gs =
      rw hi at hg in
    subst (λ l. count_in p l ≡ count p is) (ok-injective grouped)
      (omega (arith, count-group_all p config app_spec (start config app_spec) is))
