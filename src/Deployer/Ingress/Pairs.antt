-- ===== src/Deployer/Ingress/Pairs.antt =====
-- The loop over paired hosts of fiaas_deploy_daemon/deployer/kubernetes/ingress.py.
use fiaas_deploy_daemon.Base.{
  String, ◌≡◌, sym, ap, ◌∙◌, inl, inr, true, Option, none, some, List, [], ◌∷◌, ◌++◌, arith,
  eq_refl, Bool-cases, All,
}
use mathlib.Core.List.{append-nil, append_assoc}
use fiaas_deploy_daemon.Deployer.Spec.{Item}
use fiaas_deploy_daemon.Deployer.Ingress.Issuers.{IngressConfig}
use fiaas_deploy_daemon.Deployer.Ingress.Hosts.{has_host, add_pair, paired_host, add_pairs}

has_host-append_left :
    (p : String) (is js : List Item) → has_host p is ≡ true → has_host p (is ++ js) ≡ true
has_host-append_left p [] js h = cc
has_host-append_left p (i ∷ is) js h = ground (arith, has_host-append_left p is js)

has_host-snoc :
    (p : String) (is : List Item) (i : Item)
    → has_host p (is ++ (record i { host = some p } ∷ [])) ≡ true
has_host-snoc p [] i = rw eq_refl
has_host-snoc p (j ∷ is) i = ground (arith, has_host-snoc p is i)

add_pair-keeps :
    (p : String) (items : List Item) (i : Item) (o : Option String)
    → has_host p items ≡ true
    → has_host p (add_pair items i o) ≡ true
add_pair-keeps p items i none h = h
add_pair-keeps p items i (some q) h = elim (Bool-cases (has_host q items)) [
  | inl there ↦ rw there h
  | inr absent ↦ rw absent (has_host-append_left p items (record i { host = some q } ∷ []) h)
]

add_pair-adds :
    (p : String) (items : List Item) (i : Item) → has_host p (add_pair items i (some p)) ≡ true
add_pair-adds p items i = elim (Bool-cases (has_host p items)) [
  | inl there ↦ rw there there
  | inr absent ↦ rw absent (has_host-snoc p items i)
]

module _ (config : IngressConfig) where
  add_pairs-keeps :
      (p : String) (todo items : List Item)
      → has_host p items ≡ true
      → has_host p (add_pairs config items todo) ≡ true
  unfolding add_pairs
  add_pairs-keeps p [] items h = h
  add_pairs-keeps p (i ∷ todo) items h =
      add_pairs-keeps p todo (add_pair items i (paired_host config i))
        (add_pair-keeps p items i (paired_host config i) h)

  -- The host that is paired with the item's, if there is one, has an item in the list.
  abbrev pub IsPaired : List Item → Item → Type 0
  IsPaired items i = (p : String) → paired_host config i ≡ some p → has_host p items ≡ true

  add_pairs-IsPaired_from :
      (todo items : List Item) → All (IsPaired (add_pairs config items todo)) todo
  unfolding add_pairs
  add_pairs-IsPaired_from [] items = tt
  add_pairs-IsPaired_from (i ∷ todo) items = (
    λ p e.
        add_pairs-keeps p todo (add_pair items i (paired_host config i))
          (rw e (add_pair-adds p items i)),
    add_pairs-IsPaired_from todo (add_pair items i (paired_host config i)),
  )

  add_pairs-prefix :
      (todo items : List Item) → (more : List Item) × (add_pairs config items todo ≡ items ++ more)
  unfolding add_pairs
  add_pairs-prefix [] items = ([], sym (append-nil items))
  add_pairs-prefix (i ∷ todo) items =
      let (m, e) = add_pair-prefix items i (paired_host config i) in
      let (more, e') = add_pairs-prefix todo (add_pair items i (paired_host config i)) in
      (m ++ more, e' ∙ ap (λ l. l ++ more) e ∙ append_assoc items m more)
    where
      add_pair-prefix :
          (items : List Item) (i : Item) (o : Option String)
          → (more : List Item) × (add_pair items i o ≡ items ++ more)
      add_pair-prefix items i none = ([], sym (append-nil items))
      add_pair-prefix items i (some p) = elim (Bool-cases (has_host p items)) [
        | inl there ↦ ([], rw there (sym (append-nil items)))
        | inr absent ↦ (record i { host = some p } ∷ [], rw absent)
      ]

  -- The loop over paired hosts keeps the items that it starts from, in front, and then has an item on
  -- the paired host of each of them, where the configuration pairs its host with a non-empty one.
  pub add_pairs-IsPaired :
      (items : List Item)
      → ((more : List Item) × (add_pairs config items items ≡ items ++ more))
        × All (IsPaired (add_pairs config items items)) items
  add_pairs-IsPaired items = (add_pairs-prefix items items, add_pairs-IsPaired_from items items)
