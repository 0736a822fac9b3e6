-- ===== src/Specs/SpecFactory/Exact.antt =====
-- The version of what the chain of transformers of fiaas_deploy_daemon/specs/factory.py gives.
use fiaas_deploy_daemon.Base.{
  Error, Option, ◌≡◌, ◌≤◌, sym, ℕ, suc, zero, refl, ap, ◌∙◌, inl, inr, Bool, true, false, some, [],
  ◌∷◌, map, arith, ltb, eqb, Bool-cases, any, All, invalid_configuration, Result, ok, raise,
  ok-injective, Result-cases,
}
use fiaas_deploy_daemon.Specs.Value.{number?, Value, num, Fields, eq_value}
use fiaas_deploy_daemon.Specs.SpecFactory.{
  supported_versions, version_of, Transformer, Transformers, find_transformer, transform_loop,
  transform,
}
use fiaas_deploy_daemon.Specs.SpecFactory.Chain.{
  lt_value-number, supported-number, versions-numbers,
}

-- Every transformer gives documents of this version, if it gives one, and is kept for a version that is
-- not above it.
abbrev pub Reaches : ℕ → Transformers → Type 0
Reaches version = All (λ t.
    (t.0 ≤ version) × ((c d : Fields) (s : Bool) → t.1 c s ≡ ok d → version_of d ≡ num version))

find_transformer-Reaches :
    (version : ℕ) (ts : Transformers) (v : Value) (t : Transformer)
    → Reaches version ts
    → find_transformer ts v ≡ ok t
    → (c d : Fields) (s : Bool) → t c s ≡ ok d
    → version_of d ≡ num version
unfolding find_transformer eq_value
find_transformer-Reaches version [] v t h e = cc
find_transformer-Reaches version ((k, u) ∷ ts) v t ((low, p), h) e =
    elim (Bool-cases (eq_value (num k) v)) [
      | inl same ↦
          λ c d s e'. p c d s (ap (λ (f : Transformer). f c s) (ok-injective (rw same at e)) ∙ e')
      | inr other ↦ find_transformer-Reaches version ts v t h (rw other at e)
    ]

supported_versions-low :
    (version : ℕ) (ts : Transformers) (v : Value) (n : ℕ)
    → Reaches version ts
    → number? v ≡ some n
    → any (λ w. eq_value w v) (map (λ t. num t.0) ts) ≡ true
    → n ≤ version
unfolding eq_value
supported_versions-low version [] v n h hv e = cc
supported_versions-low version ((k, u) ∷ ts) v n ((low, p), h) hv e = elim (Bool-cases (eqb k n)) [
  | inl same ↦ ground arith
  | inr other ↦ supported_versions-low version ts v n h hv (rw (hv, other) at e)
]

some-raise :
    (e : Error) (d : Fields) → ◌≡◌ {A = Option (Result Fields)} (some (raise e)) (some (ok d)) → ⊥
some-raise e d h = cc

module _ (version : ℕ) (ts : Transformers) (reaches : Reaches version ts) (s : Bool) where
  transform_loop-Reaches :
      (fuel : ℕ) (c d : Fields) (n : ℕ)
      → number? (version_of c) ≡ some n
      → n ≤ version
      → transform_loop version ts fuel s c ≡ some (ok d)
      → number? (version_of d) ≡ some version
  unfolding transform_loop
  transform_loop-Reaches zero c d n hv low e = cc
  transform_loop-Reaches (suc fuel) c d n hv low e = elim (Bool-cases (ltb n version)) [
    | inr done ↦
        let same : c ≡ d =
          ok-injective
            (some-injective (rw (lt_value-number _ n version hv, done, transform_loop) at e)) in
        rw⁻¹ same (hv ∙ ap some (equal n version low done))
    | inl below ↦ elim (Result-cases (find_transformer ts (version_of c))) [
      | inr (e', missing) ↦ absurd (
          some-raise e' d
            (rw (lt_value-number _ n version hv, below, missing, transform_loop) at e))
      | inl (t, found) ↦ elim (Result-cases (t c s)) [
        | inr (e', failed) ↦ absurd (
            some-raise e' d
              (rw (lt_value-number _ n version hv, below, found, failed, transform_loop) at e))
        | inl (c', done) ↦
            transform_loop-Reaches fuel c' d version
              (ap number? (find_transformer-Reaches version ts _ t reaches found c c' s done))
              (omega arith)
              (sym (rw (lt_value-number _ n version hv, below, found, done, transform_loop)) ∙ e)
      ]
    ]
  ]
    where
      equal : (n version : ℕ) → n ≤ version → ltb n version ≡ false → n ≡ version
      equal n version low done = ground arith

      some-injective : {A : Type 0} {a b : A} → some a ≡ some b → a ≡ b
      some-injective e = cc

      some-raise :
          (e : Error) (d : Fields)
          → ◌≡◌ {A = Option (Result Fields)} (some (raise e)) (some (ok d))
          → ⊥
      some-raise e d h = cc

  pub transform-Reaches :
      (fuel : ℕ) (c d : Fields)
      → transform version ts fuel c s ≡ some (ok d)
      → number? (version_of d) ≡ some version
  unfolding transform eq_value
  transform-Reaches fuel c d e =
      elim (Bool-cases (any (λ w. eq_value w (version_of c)) (supported_versions version ts))) [
        | inr unsupported ↦
            absurd (some-raise invalid_configuration d (rw (unsupported, transform) at e))
        | inl supported ↦
            let (n, hn) =
              supported-number (supported_versions version ts) (version_of c)
                ((version, refl), versions-numbers ts) supported in
            transform_loop-Reaches fuel c d n hn (at_most n hn supported)
              (sym (rw (supported, transform)) ∙ e)
      ]
    where
      some-raise :
          (e : Error) (d : Fields)
          → ◌≡◌ {A = Option (Result Fields)} (some (raise e)) (some (ok d))
          → ⊥
      some-raise e d h = cc

      at_most :
          (n : ℕ)
          → number? (version_of c) ≡ some n
          → any (λ w. eq_value w (version_of c)) (supported_versions version ts) ≡ true
          → n ≤ version
      at_most n hn h = elim (Bool-cases (eqb version n)) [
        | inl same ↦ ground arith
        | inr other ↦
            supported_versions-low version ts (version_of c) n reaches hn (rw (hn, other) at h)
      ]
