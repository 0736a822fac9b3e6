-- ===== src/Deployer/Kubernetes/RoleBinding/Owned.antt =====
-- Which role bindings fiaas_deploy_daemon/deployer/kubernetes/role_binding.py writes.
use fiaas_deploy_daemon.Base.{
  String, ◌≡◌, refl, sym, ap, ◌∙◌, ◌⊎◌, inl, inr, Bool, true, false, not, ◌&&◌, Option, none, some,
  List, [], ◌∷◌, ◌++◌, Bool-cases, All, All-append, All-map, Result, ok, raise, ok-injective,
  raise-ne-ok, Eff,
}
use mathlib.Core.Path.{subst}
use mathlib.Core.List.{append_assoc, append-nil}
use fiaas_deploy_daemon.Base.Effect
use fiaas_deploy_daemon.Base.Effect.{return}
use fiaas_deploy_daemon.Base.Dict.{Dict, merge_dicts}
use fiaas_deploy_daemon.Deployer.Spec.{AppSpec}
use fiaas_deploy_daemon.Deployer.Kubernetes.RoleBinding.{
  ObjectName, generated, RoleBinding, Write, deleted_binding, saved_binding, written,
  owned_by_fiaas, binds, find_role, replace_role, should_bind, clean, bound, bind_role,
  update_or_create, deploy_bindings,
}

-- Some element of a list has a property.
abbrev pub Some {ℓ} : {A : Type ℓ} → (A → Type 0) → List A → Type 0
Some P [] = ⊥
Some P (x ∷ xs) = P x ⊎ Some P xs

-- The name is that of a binding of the list which the program owns.
abbrev pub IsOwnedName : List RoleBinding → ObjectName → Type 0
IsOwnedName found name = Some (λ rb. (owned_by_fiaas rb ≡ true) × (rb.name ≡ name)) found

abbrev pub IsAllowed : List RoleBinding → Write → Type 0
IsAllowed found (deleted_binding rb) = IsOwnedName found rb.name
IsAllowed found (saved_binding rb) =
    ((prefix : String) × (rb.name ≡ generated prefix)) ⊎ IsOwnedName found rb.name

-- A computation that only adds writes of a kind, and returns only values of a kind.
module _ (P : Write → Type 0) where
  abbrev pub Adds : {A : Type 0} → (A → Type 0) → Eff (List Write) A → Type 0
  Adds {A = A} Q m =
      (log : List Write)
      → (writes : List Write) × (r : Result A) × (m log ≡ (r, log ++ writes))
        × All P writes
        × ((a : A) → r ≡ ok a → Q a)

  Adds-return : {A : Type 0} (Q : A → Type 0) (a : A) → Q a → Adds Q (return a)
  Adds-return Q a q log =
      ([], ok a, ap (λ l. (ok a, l)) (sym (append-nil log)), tt, λ b e. subst Q (ok-injective e) q)

  Adds-written :
      (w : Write) (answer : List Write → Result (Unit {0}))
      → P w
      → Adds (λ _. Unit) (written w answer)
  Adds-written w answer p log = (w ∷ [], answer log, refl, (p, tt), λ a e. tt)

  Adds-bind :
      {A B : Type 0} (Q : A → Type 0) (R : B → Type 0) (m : Eff (List Write) A)
      (f : A → Eff (List Write) B)
      → Adds Q m
      → ((a : A) → Q a → Adds R (f a))
      → Adds R (Effect.◌>>=◌ m f)
  Adds-bind {A = A} {B = B} Q R m f h g log = let (w, r, e, ps, q) = h log in from w r e ps q
    where
      from :
          (w : List Write) (r : Result A)
          → m log ≡ (r, log ++ w)
          → All P w
          → ((a : A) → r ≡ ok a → Q a)
          → (writes : List Write) × (s : Result B) × (Effect.◌>>=◌ m f log ≡ (s, log ++ writes))
            × All P writes
            × ((b : B) → s ≡ ok b → R b)
      from w (ok a) e ps q =
          let (w2, s, e2, ps2, q2) = g a (q a refl) (log ++ w) in
          (
            w ++ w2,
            s,
            rw e (e2 ∙ ap (λ l. (s, l)) (append_assoc log w w2)),
            All-append P w w2 ps ps2,
            q2,
          )
      from w (raise x) e ps q = (w, raise x, rw e refl, ps, λ b e'. absurd (raise-ne-ok x b e'))

and_right : (a b : Bool) → (a && b) ≡ true → b ≡ true
and_right true b h = h
and_right false b h = cc

-- Every owned binding of the list has a name that was owned at first.
abbrev pub IsKept : List RoleBinding → List RoleBinding → Type 0
IsKept found = All (λ rb. owned_by_fiaas rb ≡ true → IsOwnedName found rb.name)

IsKept-self : (found : List RoleBinding) → IsKept found found
IsKept-self [] = tt
IsKept-self (x ∷ xs) = (
  λ h. inl (h, refl),
  All-map (λ rb. owned_by_fiaas rb ≡ true → IsOwnedName xs rb.name)
      (λ rb. owned_by_fiaas rb ≡ true → IsOwnedName (x ∷ xs) rb.name) xs (λ rb k h. inr (k h))
      (IsKept-self xs),
)

module _ (found : List RoleBinding) where
  find_role-IsOwnedName :
      (role_kind role_name : String) (rbs : List RoleBinding) (rb : RoleBinding)
      → IsKept found rbs
      → find_role role_kind role_name rbs ≡ some rb
      → owned_by_fiaas rb ≡ true
      → IsOwnedName found rb.name
  unfolding find_role
  find_role-IsOwnedName kind name [] rb k e owned = cc
  find_role-IsOwnedName kind name (x ∷ xs) rb (k, ks) e owned =
      elim (Bool-cases (binds kind name x)) [
        | inl here ↦
            subst (λ (y : RoleBinding). owned_by_fiaas y ≡ true → IsOwnedName found y.name)
              (some-injective (rw here at e)) k owned
        | inr later ↦ find_role-IsOwnedName kind name xs rb ks (rw later at e) owned
      ]
    where
      some-injective : {a b : RoleBinding} → some a ≡ some b → a ≡ b
      some-injective e = cc

  replace_role-IsKept :
      (role_kind role_name : String) (new : RoleBinding) (rbs : List RoleBinding)
      → IsOwnedName found new.name
      → IsKept found rbs
      → IsKept found (replace_role role_kind role_name new rbs)
  unfolding replace_role
  replace_role-IsKept kind name new [] n k = tt
  replace_role-IsKept kind name new (x ∷ xs) n (k, ks) = elim (Bool-cases (binds kind name x)) [
    | inl here ↦ rw here ((λ _. n), ks)
    | inr later ↦ rw later (k, replace_role-IsKept kind name new xs n ks)
  ]

module _ (delete : RoleBinding → List Write → Result (Unit {0}))
    (save : RoleBinding → List Write → Result (Unit {0})) (list_of_roles : List String)
    (list_of_cluster_roles : List String) (found : List RoleBinding) where
  clean-Adds :
      (rbs : List RoleBinding)
      → IsKept found rbs
      → Adds
          (IsAllowed found)
          (IsKept found)
          (clean delete save list_of_roles list_of_cluster_roles rbs)
  unfolding clean
  clean-Adds [] k = Adds-return (IsAllowed found) (IsKept found) [] tt
  clean-Adds (rb ∷ rbs) (k, ks) =
      elim (Bool-cases (
        not (should_bind delete save list_of_roles list_of_cluster_roles rb)
        && owned_by_fiaas rb)) [
          | inl unwanted ↦ λ log. rw unwanted (
              Adds-bind (IsAllowed found) (λ _. Unit) (IsKept found)
                (written (deleted_binding rb) (delete rb))
                (λ _. clean delete save list_of_roles list_of_cluster_roles rbs)
                (Adds-written (IsAllowed found) (deleted_binding rb) (delete rb)
                  (k (and_right _ _ unwanted)))
                (λ _ _. clean-Adds rbs ks) log)
          | inr stays ↦ λ log. rw stays (
              Adds-bind (IsAllowed found) (IsKept found) (IsKept found)
                (clean delete save list_of_roles list_of_cluster_roles rbs)
                (λ left. return (rb ∷ left)) (clean-Adds rbs ks)
                (λ left kept. Adds-return (IsAllowed found) (IsKept found) (rb ∷ left) (k, kept))
                log)
        ]

  bind_role-Adds :
      (app_spec : AppSpec) (labels : Dict String) (kind name : String) (rbs : List RoleBinding)
      (o : Option RoleBinding)
      → IsKept found rbs
      → find_role kind name rbs ≡ o
      → Adds (IsAllowed found) (IsKept found) (
          bind_role delete save list_of_roles list_of_cluster_roles app_spec labels kind name rbs o)
  bind_role-Adds app_spec labels kind name rbs none k e =
      Adds-bind (IsAllowed found) (λ _. Unit) (IsKept found) _ _
        (Adds-written (IsAllowed found) _ _ (inl (_, refl)))
        (λ _ _. Adds-return (IsAllowed found) (IsKept found) rbs k)
  bind_role-Adds app_spec labels kind name rbs (some rb) k e =
      let new =
        bound delete save list_of_roles list_of_cluster_roles app_spec labels kind name rb.name in
      elim (Bool-cases (owned_by_fiaas rb)) [
        | inl owned ↦ λ log.
            let known = find_role-IsOwnedName found kind name rbs rb k e owned in
            rw owned (
              Adds-bind (IsAllowed found) (λ _. Unit) (IsKept found)
                (written (saved_binding new) (save new))
                (λ _. return (replace_role kind name new rbs))
                (Adds-written (IsAllowed found) (saved_binding new) (save new) (inr known))
                (λ _ _.
                  Adds-return (IsAllowed found) (IsKept found) (replace_role kind name new rbs)
                    (replace_role-IsKept found kind name new rbs known k))
                log)
        | inr foreign ↦ λ log. rw foreign (Adds-return (IsAllowed found) (IsKept found) rbs k log)
      ]

  update_or_create-Adds :
      (app_spec : AppSpec) (labels : Dict String) (kind : String) (roles : List String)
      (rbs : List RoleBinding)
      → IsKept found rbs
      → Adds (IsAllowed found) (IsKept found) (
          update_or_create delete save list_of_roles list_of_cluster_roles app_spec labels kind
            roles rbs)
  unfolding update_or_create
  update_or_create-Adds app_spec labels kind [] rbs k =
      Adds-return (IsAllowed found) (IsKept found) rbs k
  update_or_create-Adds app_spec labels kind (name ∷ names) rbs k =
      Adds-bind (IsAllowed found) (IsKept found) (IsKept found) _ _
        (bind_role-Adds app_spec labels kind name rbs (find_role kind name rbs) k refl)
        (λ next kept. update_or_create-Adds app_spec labels kind names next kept)

  deploy_bindings-Adds :
      (app_spec : AppSpec) (labels : Dict String)
      → Adds
          (IsAllowed found)
          (IsKept found)
          (deploy_bindings delete save list_of_roles list_of_cluster_roles app_spec labels found)
  unfolding deploy_bindings
  deploy_bindings-Adds app_spec labels =
      let custom_labels = merge_dicts (app_spec.labels.role_binding ∷ labels ∷ []) in
      Adds-bind (IsAllowed found) (IsKept found) (IsKept found) _ _
        (clean-Adds found (IsKept-self found))
        (λ left kept.
          Adds-bind (IsAllowed found) (IsKept found) (IsKept found) _ _
            (update_or_create-Adds app_spec custom_labels "Role" list_of_roles left kept)
            (λ next kept'.
              update_or_create-Adds app_spec custom_labels "ClusterRole" list_of_cluster_roles next
                kept'))

  -- Whatever the cluster answers, `RoleBindingDeployer.deploy` only adds writes of these kinds: it
  -- deletes or saves a binding under the name of one that was found and is owned by an Application of
  -- fiaas, or it makes a new one under a name that the cluster generates. So it leaves every binding
  -- alone whose name no owned one has.
  pub deploy_bindings-IsAllowed :
      (app_spec : AppSpec) (labels : Dict String) (log : List Write)
      → (writes : List Write) × (r : Result (List RoleBinding)) × (deploy_bindings delete save
            list_of_roles list_of_cluster_roles app_spec labels found log
          ≡ (r, log ++ writes))
        × All (IsAllowed found) writes
  deploy_bindings-IsAllowed app_spec labels log =
      let (writes, r, e, allowed, kept) = deploy_bindings-Adds app_spec labels log in
      (writes, r, e, allowed)
