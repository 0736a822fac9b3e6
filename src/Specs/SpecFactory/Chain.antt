-- ===== src/Specs/SpecFactory/Chain.antt =====
-- How the chain of transformers of fiaas_deploy_daemon/specs/factory.py ends.
use fiaas_deploy_daemon.Base.{
  ◌≡◌, ℕ, suc, zero, ◌+◌, ◌<◌, refl, ap, ◌∙◌, inl, inr, Bool, true, false, some, List, [], ◌∷◌, map,
  arith, ltb, eqb, Bool-cases, Option-cases, any, All, invalid_configuration, Result, ok, raise,
  ok-injective, Result-cases,
}
use fiaas_deploy_daemon.Specs.Value.{
  number?, bool, str, null, seq, mapping, undefined, Value, num, Fields, lt_value, eq_value,
}
use fiaas_deploy_daemon.Specs.SpecFactory.{
  supported_versions, version_of, Transformer, Transformers, find_transformer, transform_loop,
  transform,
}

-- Every transformer gives a document of a higher version than the one that it is kept for, if it
-- gives one.
abbrev pub Raises : Transformers → Type 0
Raises =
    All (λ t.
      (c d : Fields) (s : Bool) → t.1 c s ≡ ok d → (n : ℕ) × (version_of d ≡ num n) × (t.0 < n))

-- A result of the chain: an exception, or a document whose version is not below the factory's.
abbrev pub Finished : ℕ → Result Fields → Type 0
Finished version (ok c) = lt_value (version_of c) (num version) ≡ ok false
Finished version (raise e) = Unit

find_transformer-Raises :
    (ts : Transformers) (v : Value) (n : ℕ) (t : Transformer)
    → number? v ≡ some n
    → Raises ts
    → find_transformer ts v ≡ ok t
    → (c d : Fields) (s : Bool) → t c s ≡ ok d
    → (m : ℕ) × (version_of d ≡ num m) × (n < m)
unfolding find_transformer eq_value
find_transformer-Raises [] v n t hv h e = cc
find_transformer-Raises ((k, u) ∷ ts) v n t hv (p, h) e = elim (Bool-cases (eq_value (num k) v)) [
  | inl same ↦ λ c d s e'.
      let (m, hm, lt) =
        p c d s (ap (λ (f : Transformer). f c s) (ok-injective (rw same at e)) ∙ e') in
      (m, hm, rw (same_number k n (rw hv at same)) at lt)
  | inr other ↦ find_transformer-Raises ts v n t hv h (rw other at e)
]
  where
    same_number : (k n : ℕ) → eqb k n ≡ true → k ≡ n
    same_number k n e = ground arith

pub lt_value-number :
    (v : Value) (n version : ℕ) → number? v ≡ some n → lt_value v (num version) ≡ ok (ltb n version)
lt_value-number (bool b) n version h = ground arith
lt_value-number (num k) n version h = ground arith
lt_value-number null n version h = cc
lt_value-number (str s) n version h = cc
lt_value-number (seq vs) n version h = cc
lt_value-number (mapping fs) n version h = cc
lt_value-number undefined n version h = cc

module _ (version : ℕ) (ts : Transformers) (raises : Raises ts) (s : Bool) where
  transform_loop-step :
      (fuel : ℕ) (c d : Fields) (t : Transformer) (n : ℕ)
      → number? (version_of c) ≡ some n
      → ltb n version ≡ true
      → find_transformer ts (version_of c) ≡ ok t
      → t c s ≡ ok d
      → transform_loop version ts (suc fuel) s c ≡ transform_loop version ts fuel s d
  unfolding transform_loop
  transform_loop-step fuel c d t n hv below found done =
      rw (lt_value-number _ n version hv, below, found, done, transform_loop)

  transform_loop-Finished :
      (fuel : ℕ) (c : Fields) (n : ℕ)
      → number? (version_of c) ≡ some n
      → version < n + fuel
      → 0 < fuel
      → (r : Result Fields) × (transform_loop version ts fuel s c ≡ some r) × Finished version r
  unfolding transform_loop
  transform_loop-Finished zero c n hv enough pos = absurd (omega arith)
  transform_loop-Finished (suc fuel) c n hv enough pos = elim (Bool-cases (ltb n version)) [
    | inr done ↦ (
      ok c,
      rw (lt_value-number _ n version hv, done, transform_loop),
      lt_value-number _ n version hv ∙ ap ok done,
    )
    | inl below ↦ elim (Result-cases (find_transformer ts (version_of c))) [
      | inr (e, missing) ↦
          (raise e, rw (lt_value-number _ n version hv, below, missing, transform_loop), tt)
      | inl (t, found) ↦ elim (Result-cases (t c s)) [
        | inr (e, failed) ↦
            (raise e, rw (lt_value-number _ n version hv, below, found, failed, transform_loop), tt)
        | inl (d, done) ↦
            let (m, hm, higher) = find_transformer-Raises ts _ n t hv raises found c d s done in
            let (r, hr, finished) =
              transform_loop-Finished fuel d m (rw hm) (ground arith) (ground arith) in
            (r, transform_loop-step fuel c d t n hv below found done ∙ hr, finished)
      ]
    ]
  ]

pub supported-number :
    (l : List Value) (v : Value)
    → All (λ w. (k : ℕ) × (w ≡ num k)) l
    → any (λ w. eq_value w v) l ≡ true
    → (n : ℕ) × (number? v ≡ some n)
unfolding eq_value
supported-number [] v a h = cc
supported-number (w ∷ l) v ((k, e), a) h = elim (Option-cases (number? v)) [
  | inr found ↦ found
  | inl missing ↦ supported-number l v a (rw (e, missing) at h)
]

pub versions-numbers :
    (ts : Transformers) → All (λ w. (k : ℕ) × (w ≡ num k)) (map (λ t. num t.0) ts)
versions-numbers [] = tt
versions-numbers (t ∷ ts) = ((t.0, refl), versions-numbers ts)

-- If every transformer raises the version of each document that it returns, then with fuel above the
-- factory's version `transform` ends on every document: by an exception, or with a document whose
-- version is a number that is not below the factory's.
pub transform-Finished :
    (version : ℕ) (ts : Transformers)
    → Raises ts
    → (fuel : ℕ) → version < fuel
    → (c : Fields) (s : Bool)
    → (r : Result Fields) × (transform version ts fuel c s ≡ some r) × Finished version r
unfolding transform
transform-Finished version ts raises fuel enough c s =
    elim (Bool-cases (any (λ w. eq_value w (version_of c)) (supported_versions version ts))) [
      | inr unsupported ↦ (raise invalid_configuration, rw unsupported, tt)
      | inl supported ↦
          let (n, hn) =
            supported-number (supported_versions version ts) (version_of c)
              ((version, refl), versions-numbers ts) supported in
          let (r, hr, finished) =
            transform_loop-Finished version ts raises s fuel c n hn (omega arith) (omega arith) in
          (r, rw supported hr, finished)
    ]
