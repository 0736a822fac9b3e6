-- ===== src/Deployer/Ingress/Names.antt =====
-- The names of the ingresses of fiaas_deploy_daemon/deployer/kubernetes/ingress.py.
use fiaas_deploy_daemon.Base.{
  ℕ, suc, ◌<◌, String, ◌<>◌, ◌≡◌, refl, sym, ap, ◌∙◌, ◌≢◌, ◌⊎◌, inl, inr, List, [], ◌∷◌, ◌++◌, map,
  arith, ◌==◌, Bool-cases, length, All, All-map, ok, >>=-eq-ok, ok-injective,
}
use mathlib.Core.Path.{subst, subst₂}
use mathlib.Core.List.{append-nil, append_assoc}
use Prim.Native.String.{count}
use text.Mathlib.TextLemmas.{length-append as count-append, append_cancel_left}
use fiaas_deploy_daemon.Base.{length-append}
use fiaas_deploy_daemon.Base.Dict.{Dict}
use fiaas_deploy_daemon.Deployer.Text.{show}
use fiaas_deploy_daemon.Deployer.Decimal.{show-injective}
use fiaas_deploy_daemon.Deployer.Spec.{AppSpec, Item}
use fiaas_deploy_daemon.Deployer.Ingress.Issuers.{IngressConfig}
use fiaas_deploy_daemon.Deployer.Ingress.Group.{
  AnnotatedIngress, Groups, append_under, values, group_item, group_by, group_all, start,
  ingresses_of, group_ingresses, count_groups, issuer_key, item_type, item_issuer, fresh_override,
  with_annotations, plain_item, is_default_issuer, all_items,
}

-- The name stands nowhere in the list.
abbrev pub IsFresh : String → List String → Type 0
IsFresh n = All (λ m. m ≢ n)

-- The names are pairwise different.
abbrev pub IsDistinct : List String → Type 0
IsDistinct [] = Unit
IsDistinct (n ∷ ns) = IsFresh n ns × IsDistinct ns

abbrev pub names : List AnnotatedIngress → List String
names = map (λ (g : AnnotatedIngress). g.name)

names-append : (gs hs : List AnnotatedIngress) → names (gs ++ hs) ≡ names gs ++ names hs
names-append [] hs = refl
names-append (g ∷ gs) hs = ap (λ ns. g.name ∷ ns) (names-append gs hs)

All-insert :
    (P : String → Type 0) (n : String) (ns ms : List String)
    → P n
    → All P (ns ++ ms)
    → All P (ns ++ (n ∷ ms))
All-insert P n [] ms p f = (p, f)
All-insert P n (m ∷ ns) ms p (q, f) = (q, All-insert P n ns ms p f)

IsDistinct-insert :
    (n : String) (ns ms : List String)
    → IsFresh n (ns ++ ms)
    → IsDistinct (ns ++ ms)
    → IsDistinct (ns ++ (n ∷ ms))
IsDistinct-insert n [] ms f d = (f, d)
IsDistinct-insert n (m ∷ ns) ms (p, f) (q, d) =
    (All-insert (λ k. k ≢ m) n ns ms (λ e. p (sym e)) q, IsDistinct-insert n ns ms f d)

-- What `setdefault` does to the names: nothing, or it adds the fresh one at the end.
names-append_under :
    (d : Dict AnnotatedIngress) (key : String) (fresh : AnnotatedIngress) (i : Item)
    → ((names (values (append_under d key fresh i)) ≡ names (values d))
        × (length (append_under d key fresh i) ≡ length d))
      ⊎ ((names (values (append_under d key fresh i)) ≡ names (values d) ++ (fresh.name ∷ []))
          × (length (append_under d key fresh i) ≡ suc (length d)))
unfolding append_under
names-append_under [] key fresh i = inr (refl, refl)
names-append_under ((k, g) ∷ d) key fresh i = elim (Bool-cases (k == key)) [
  | inl same ↦ rw same (inl (refl, refl))
  | inr other ↦ rw other (elim (names-append_under d key fresh i) [
    | inl (e, l) ↦ inl (ap (λ ns. g.name ∷ ns) e, ap suc l)
    | inr (e, l) ↦ inr (ap (λ ns. g.name ∷ ns) e, ap suc l)
  ])
]

module _ (config : IngressConfig) (app_spec : AppSpec) where
  abbrev nth_name : ℕ → String
  nth_name k = app_spec.name <> ("-" <> show k)

  nth_name-injective : (j k : ℕ) → nth_name j ≡ nth_name k → j ≡ k
  nth_name-injective j k e =
      show-injective j k (append_cancel_left "-" _ _ (append_cancel_left app_spec.name _ _ e))

  name-ne-nth_name : (k : ℕ) → app_spec.name ≢ nth_name k
  name-ne-nth_name k e =
      omega
        (arith, ap count e, count-append app_spec.name ("-" <> show k), count-append "-" (show k))

  -- A numbered name with a number below `c`.
  abbrev IsNumbered : ℕ → String → Type 0
  IsNumbered c n = (k : ℕ) × (n ≡ nth_name k) × (k < c)

  IsNumbered-IsFresh : (c : ℕ) (ns : List String) → All (IsNumbered c) ns → IsFresh (nth_name c) ns
  IsNumbered-IsFresh c ns =
      All-map (IsNumbered c) (λ n. n ≢ nth_name c) ns
        λ n (k, e, lt) e'. absurd (omega (arith, nth_name-injective k c (sym e ∙ e')))

  IsNumbered-default : (c : ℕ) (ns : List String) → All (IsNumbered c) ns → IsFresh app_spec.name ns
  IsNumbered-default c ns =
      All-map (IsNumbered c) (λ n. n ≢ app_spec.name) ns
        λ n (k, e, lt) e'. name-ne-nth_name k (sym e' ∙ e)

  IsNumbered-grow : (c : ℕ) (ns : List String) → All (IsNumbered c) ns → All (IsNumbered (suc c)) ns
  IsNumbered-grow c ns =
      All-map (IsNumbered c) (IsNumbered (suc c)) ns λ n (k, e, lt). (k, e, omega arith)

  -- The names other than the default ingress's: numbered below `c`, and different.
  abbrev AreGood : ℕ → List String → Type 0
  AreGood c ns = All (IsNumbered c) ns × IsDistinct ns

  AreGood-insert :
      (c : ℕ) (ns ms : List String)
      → AreGood c (ns ++ ms)
      → AreGood (suc c) (ns ++ (nth_name c ∷ ms))
  AreGood-insert c ns ms (a, d) = (
    All-insert (IsNumbered (suc c)) (nth_name c) ns ms (c, refl, omega arith)
        (IsNumbered-grow c (ns ++ ms) a),
    IsDistinct-insert (nth_name c) ns ms (IsNumbered-IsFresh c (ns ++ ms) a) d,
  )

  AreGood-snoc :
      (c : ℕ) (ns : List String) → AreGood c ns → AreGood (suc c) (ns ++ (nth_name c ∷ []))
  AreGood-snoc c ns good = AreGood-insert c ns [] (subst (AreGood c) (sym (append-nil ns)) good)

  abbrev other_names : Groups → List String
  other_names g = names g.annotated ++ names (values g.override_issuer_ingresses)

  abbrev Good : Groups → Type 0
  Good g =
      AreGood (count_groups config app_spec g) (other_names g)
      × (g.default_ingress.name ≡ app_spec.name)

  plain_item-Good : (g : Groups) (i : Item) → Good g → Good (plain_item config app_spec g i)
  plain_item-Good g i (good, named) = elim (Bool-cases (is_default_issuer config app_spec i)) [
    | inl same ↦ rw same (good, named)
    | inr other ↦
        rw other
          (elim (names-append_under g.override_issuer_ingresses
            (issuer_key (item_type config app_spec i) (item_issuer config app_spec i))
            (fresh_override config app_spec g i) i) [
              | inl (e, l) ↦ (rw (e, l) good, named)
              | inr (e, l) ↦ (
                subst₂ AreGood (omega (arith, l))
                    (append_assoc (names g.annotated) _ _
                      ∙ ap (λ ns. names g.annotated ++ ns) (sym e))
                    (AreGood-snoc (count_groups config app_spec g) (other_names g) good),
                named,
              )
            ])
  ]

  group_by-Good :
      (g : Groups) (i : Item) (d : Dict String) → Good g → Good (group_by config app_spec g i d)
  group_by-Good g i [] good = plain_item-Good g i good
  group_by-Good g i (kv ∷ d) (good, named) =
      let w = with_annotations config app_spec g i in
      (
        subst₂ AreGood (omega (arith, length-append g.annotated (w ∷ [])))
            (sym (
              ap (λ ns. ns ++ names (values g.override_issuer_ingresses))
                (names-append g.annotated (w ∷ []))
              ∙ append_assoc (names g.annotated) (w.name ∷ []) _))
            (AreGood-insert (count_groups config app_spec g) (names g.annotated)
              (names (values g.override_issuer_ingresses)) good),
        named,
      )

  group_all-Good : (g : Groups) (is : List Item) → Good g → Good (group_all config app_spec g is)
  unfolding group_all group_item
  group_all-Good g [] good = good
  group_all-Good g (i ∷ is) good =
      group_all-Good (group_item config app_spec g i) is (group_by-Good g i i.annotations good)

  Good-IsDistinct : (g : Groups) → Good g → IsDistinct (names (ingresses_of config app_spec g))
  Good-IsDistinct g ((a, d), named) =
      let others = names-append g.annotated (values g.override_issuer_ingresses) in
      subst (λ ns. IsDistinct (g.default_ingress.name ∷ ns)) (sym others)
        (subst (λ n. IsFresh n (other_names g)) (sym named) (IsNumbered-default _ _ a), d)

-- No two of the ingresses that `_group_ingresses` returns have the same name.
pub group_ingresses-IsDistinct :
    (config : IngressConfig) (app_spec : AppSpec) (default_ingresses : List Item)
    (gs : List AnnotatedIngress)
    → group_ingresses config app_spec default_ingresses ≡ ok gs
    → IsDistinct (names gs)
unfolding group_ingresses
group_ingresses-IsDistinct config app_spec default_ingresses gs h =
    let (is, hi, e) = >>=-eq-ok (all_items config app_spec default_ingresses) _ h in
    subst (λ l. IsDistinct (names l)) (ok-injective e)
      (Good-IsDistinct config app_spec (group_all config app_spec (start config app_spec) is)
        (group_all-Good config app_spec (start config app_spec) is ((tt, tt), refl)))
