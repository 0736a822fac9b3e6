-- ===== src/Bootstrap/Collected.antt =====
-- `StatusCollector` of fiaas_deploy_daemon/bootstrap/bootstrapper.py as a map from applications to
-- statuses.
use fiaas_deploy_daemon.PairDict.{
  same_key, find, put, same_key-eq, same_key_refl, same_key-sym, find-put,
}
use fiaas_deploy_daemon.Base.{
  String, ◌≡◌, refl, sym, ap, ◌∙◌, ◌↔◌, inl, inr, true, Option, none, some, List, [], ◌∷◌, arith,
  eq_iff, ◌==◌, if◌then◌else◌, Bool-cases, all,
}
use mathlib.Core.Path.{subst}
use fiaas_deploy_daemon.Bootstrap.{Statuses, store_status, is_success}

-- A call of `store_status`: the name and the namespace, and the status.
abbrev pub Call : Type 0
Call = (String × String) × String

-- The status that is collected for a name and a namespace.
abbrev pub status_at : Statuses → String × String → Option String
status_at = find

abbrev pub store_all : Statuses → List Call → Statuses
store_all statuses [] = statuses
store_all statuses (((n, ns), s) ∷ calls) = store_all (store_status statuses s n ns) calls

-- The abstract collector: a function, which each call changes at one key.
abbrev pub Map : Type 0
Map = String × String → Option String

abbrev pub put_all : Map → List Call → Map
put_all m [] = m
put_all m ((k, s) ∷ calls) = put_all (λ key. if same_key k key then some s else m key) calls

abbrev pub empty_map : Map
empty_map key = none

status_at-store_status :
    (statuses : Statuses) (s n ns : String) (key : String × String)
    → status_at (store_status statuses s n ns) key
      ≡ (if same_key (n, ns) key then some s else status_at statuses key)
unfolding store_status
status_at-store_status statuses s n ns key = find-put statuses (n, ns) s key

put_all-same :
    (calls : List Call) (m m' : Map)
    → ((key : String × String) → m key ≡ m' key)
    → (key : String × String) → put_all m calls key ≡ put_all m' calls key
put_all-same [] m m' h key = h key
put_all-same ((k, s) ∷ calls) m m' h key =
    put_all-same calls (λ x. if same_key k x then some s else m x)
      (λ x. if same_key k x then some s else m' x)
      (λ x. ap (λ o. if same_key k x then some s else o) (h x)) key

store_all-put_all :
    (statuses : Statuses) (calls : List Call) (key : String × String)
    → status_at (store_all statuses calls) key ≡ put_all (status_at statuses) calls key
store_all-put_all statuses [] key = refl
store_all-put_all statuses (((n, ns), s) ∷ calls) key =
    store_all-put_all (store_status statuses s n ns) calls key
    ∙ put_all-same calls (status_at (store_status statuses s n ns))
        (λ x. if same_key (n, ns) x then some s else status_at statuses x)
        (status_at-store_status statuses s n ns) key

-- No application is listed twice.
abbrev IsUnique : Statuses → Type 0
IsUnique [] = Unit
IsUnique ((k, _) ∷ rest) = (status_at rest k ≡ none) × IsUnique rest

put-IsUnique :
    (statuses : Statuses) (key : String × String) (s : String)
    → IsUnique statuses
    → IsUnique (put statuses key s)
unfolding put
put-IsUnique [] key s u = (refl, tt)
put-IsUnique ((k, t) ∷ rest) key s (fresh, u) = elim (Bool-cases (same_key k key)) [
  | inl same ↦ rw same (fresh, u)
  | inr differs ↦
      rw differs
        (find-put rest key s k ∙ rw (same_key-sym k key differs) fresh, put-IsUnique rest key s u)
]

store_status-IsUnique :
    (statuses : Statuses) (s n ns : String)
    → IsUnique statuses
    → IsUnique (store_status statuses s n ns)
unfolding store_status
store_status-IsUnique statuses s n ns = put-IsUnique statuses (n, ns) s

store_all-IsUnique :
    (statuses : Statuses) (calls : List Call)
    → IsUnique statuses
    → IsUnique (store_all statuses calls)
store_all-IsUnique statuses [] u = u
store_all-IsUnique statuses (((n, ns), s) ∷ calls) u =
    store_all-IsUnique (store_status statuses s n ns) calls
      (store_status-IsUnique statuses s n ns u)

-- Every application with a status has the status success.
abbrev pub AllSucceeded : Map → Type 0
AllSucceeded m = (key : String × String) (s : String) → m key ≡ some s → s ≡ "success"

all_success_iff :
    (statuses : Statuses)
    → IsUnique statuses
    → (all is_success statuses ≡ true) ↔ AllSucceeded (status_at statuses)
all_success_iff [] u = (λ _ key s h. cc, λ _. refl)
all_success_iff ((k, t) ∷ rest) (fresh, u) =
    let (down, up) = all_success_iff rest u in
    (
      λ h key s e. elim (Bool-cases (same_key k key)) [
        | inl same ↦
            let first : t == "success" ≡ true = ground (arith, h) in
            let is : some t ≡ some s = (rw same at e) in
            let done = (eq_iff t "success").0 first in cc
        | inr other ↦ down (ground (arith, h)) key s (rw other at e)
      ],
      λ h.
          let first = (eq_iff t "success").1 (h k t (rw (same_key_refl k) refl)) in
          let others = up (λ key s e. h key s (elim (Bool-cases (same_key k key)) [
            | inr other ↦ rw other e
            | inl same ↦
                let found =
                  subst (λ x. status_at rest x ≡ some s) (sym (same_key-eq k key same)) e in
                absurd (cc)
          ])) in
          rw (first, others) refl,
    )

-- The collected statuses after any calls of `store_status` are, for every name and namespace, those
-- of a map that each call changes at one key; and the test of the wait, that all collected statuses
-- are success, says that the last status of every application that has one is success.
pub store_all-Refines :
    (calls : List Call)
    → ((key : String × String) → status_at (store_all [] calls) key ≡ put_all empty_map calls key)
      × ((all is_success (store_all [] calls) ≡ true) ↔ AllSucceeded (put_all empty_map calls))
store_all-Refines calls =
    let same = store_all-put_all [] calls in
    let (down, up) = all_success_iff (store_all [] calls) (store_all-IsUnique [] calls tt) in
    (
      same,
      (λ h key s e. down h key s (same key ∙ e), λ h. up (λ key s e. h key s (sym (same key) ∙ e))),
    )
