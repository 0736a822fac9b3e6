-- ===== src/PairDict.antt =====
-- Python dicts whose keys are pairs of texts, in insertion order.
use fiaas_deploy_daemon.Base.{
  String, ◌≡◌, refl, sym, ap, ◌∙◌, inl, inr, Bool, true, false, ◌&&◌, Option, none, some, List, [],
  ◌∷◌, arith, eq_iff, eq_refl, ◌==◌, if◌then◌else◌, Bool-cases,
}
use mathlib.Core.Path.{subst}

abbrev pub same_key : String × String → String × String → Bool
same_key (n, ns) (m, ms) = n == m && ns == ms

module _ {V : Type 0} where
  -- `d.get(key)`
  abbrev pub find : List ((String × String) × V) → String × String → Option V
  find [] key = none
  find ((k, s) ∷ rest) key = if same_key k key then some s else find rest key

  -- `d[key] = v`
  unfoldable pub put :
      List ((String × String) × V) → String × String → V → List ((String × String) × V)
  put [] key v = (key, v) ∷ []
  put ((k, s) ∷ rest) key v = if same_key k key then (k, v) ∷ rest else (k, s) ∷ put rest key v

  -- `d.pop(key, None)`
  unfoldable pub drop :
      List ((String × String) × V) → String × String → List ((String × String) × V)
  drop [] key = []
  drop ((k, s) ∷ rest) key = if same_key k key then rest else (k, s) ∷ drop rest key

pub same_key-eq : (a b : String × String) → same_key a b ≡ true → a ≡ b
same_key-eq (n, ns) (m, ms) e =
    let same : n ≡ m = (eq_iff n m).0 (ground (arith, e)) in
    let same' : ns ≡ ms = (eq_iff ns ms).0 (ground (arith, e)) in λ i. (same i, same' i)

pub same_key_refl : (a : String × String) → same_key a a ≡ true
same_key_refl (n, ns) = rw (eq_refl n, eq_refl ns) refl

pub same_key-sym : (a b : String × String) → same_key a b ≡ false → same_key b a ≡ false
same_key-sym a b differs = elim (Bool-cases (same_key b a)) [
  | inr e ↦ e
  | inl e ↦
      let same = subst (λ x. same_key x b ≡ true) (same_key-eq b a e) (same_key_refl b) in
      absurd (cc)
]

if_same :
    {V : Type 0} (k l key : String × String) (s t : V) (other : Option V)
    → same_key k l ≡ true
    → (if same_key k key then some s else other)
      ≡ (if same_key l key then some s else (if same_key k key then some t else other))
if_same k l key s t other same =
    subst
      (λ l.
        (if same_key k key then some s else other)
        ≡ (if same_key l key then some s else (if same_key k key then some t else other)))
      (same_key-eq k l same)
      (elim (Bool-cases (same_key k key)) [ inl e ↦ rw e refl | inr e ↦ rw e refl ])

if_differs :
    {V : Type 0} (k l key : String × String) (s t : V) (other : Option V)
    → same_key k l ≡ false
    → (if same_key k key then some t else (if same_key l key then some s else other))
      ≡ (if same_key l key then some s else (if same_key k key then some t else other))
if_differs k l key s t other differs = elim (Bool-cases (same_key k key)) [
  | inr e ↦ rw e refl
  | inl e ↦ elim (Bool-cases (same_key l key)) [
    | inr e' ↦ rw (e, e') refl
    | inl e' ↦
        let same = subst (λ x. same_key k x ≡ true) (sym (same_key-eq l key e')) e in absurd (cc)
  ]
]

module _ {V : Type 0} where
  pub find-put :
      (d : List ((String × String) × V)) (k : String × String) (v : V) (key : String × String)
      → find (put d k v) key ≡ (if same_key k key then some v else find d key)
  unfolding put
  find-put [] k v key = refl
  find-put ((l, t) ∷ rest) k v key =
      let later = find-put rest k v key in
      elim (Bool-cases (same_key l k)) [
        | inl same ↦ rw same (if_same l k key v t (find rest key) same)
        | inr differs ↦ rw differs (
            ap (λ o. if same_key l key then some t else o) later
            ∙ if_differs l k key v t (find rest key) differs)
      ]

  pub find-drop_other :
      (d : List ((String × String) × V)) (k key : String × String)
      → same_key k key ≡ false
      → find (drop d k) key ≡ find d key
  unfolding drop
  find-drop_other [] k key h = refl
  find-drop_other ((l, t) ∷ rest) k key h = elim (Bool-cases (same_key l k)) [
    | inr differs ↦
        rw differs (ap (λ o. if same_key l key then some t else o) (find-drop_other rest k key h))
    | inl same ↦
        let other : same_key l key ≡ false =
          subst (λ x. same_key x key ≡ false) (sym (same_key-eq l k same)) h in
        rw (same, other) refl
  ]
