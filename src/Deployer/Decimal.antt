-- ===== src/Deployer/Decimal.antt =====
-- Lemmas about `str(n)`, by which fiaas_deploy_daemon/deployer/kubernetes/ingress.py numbers names.
use fiaas_deploy_daemon.Base.{
  ℕ, suc, zero, ◌-◌, ◌≤◌, ◌<◌, String, ◌<>◌, ◌≡◌, refl, sym, ap, ◌∙◌, inl, inr, arith, ltb,
  Bool-cases,
}
use Prim.Native.Nat.{◌/◌, ◌%◌}
use Prim.Native.Char.{code}
use Prim.Native.String.{count}
use text.Mathlib.TextLemmas.{length-append, append_inj}
use fiaas_deploy_daemon.Deployer.Text.{digit, show_from, show}

digit_value : String → ℕ
digit_value String.[] = 0
digit_value (String.◌∷◌ c s) = code c - 48

digit_value-digit : (n : ℕ) → n < 10 → digit_value (digit n) ≡ n
unfolding digit_value digit
digit_value-digit zero h = refl
digit_value-digit (suc zero) h = refl
digit_value-digit (suc (suc zero)) h = refl
digit_value-digit (suc (suc (suc zero))) h = refl
digit_value-digit (suc (suc (suc (suc zero)))) h = refl
digit_value-digit (suc (suc (suc (suc (suc zero))))) h = refl
digit_value-digit (suc (suc (suc (suc (suc (suc zero)))))) h = refl
digit_value-digit (suc (suc (suc (suc (suc (suc (suc zero))))))) h = refl
digit_value-digit (suc (suc (suc (suc (suc (suc (suc (suc zero)))))))) h = refl
digit_value-digit (suc (suc (suc (suc (suc (suc (suc (suc (suc n))))))))) h = nine n (omega arith)
  where
    nine : (n : ℕ) → n < 1 → 9 ≡ suc (suc (suc (suc (suc (suc (suc (suc (suc n))))))))
    nine n h = omega arith

digit-injective : (n m : ℕ) → n < 10 → m < 10 → digit n ≡ digit m → n ≡ m
digit-injective n m hn hm e =
    sym (digit_value-digit n hn) ∙ ap digit_value e ∙ digit_value-digit m hm

count-digit : (n : ℕ) → count (digit n) ≡ 1
unfolding digit
count-digit zero = refl
count-digit (suc zero) = refl
count-digit (suc (suc zero)) = refl
count-digit (suc (suc (suc zero))) = refl
count-digit (suc (suc (suc (suc zero)))) = refl
count-digit (suc (suc (suc (suc (suc zero))))) = refl
count-digit (suc (suc (suc (suc (suc (suc zero)))))) = refl
count-digit (suc (suc (suc (suc (suc (suc (suc zero))))))) = refl
count-digit (suc (suc (suc (suc (suc (suc (suc (suc zero)))))))) = refl
count-digit n = refl

count-show_from : (fuel n : ℕ) → n < fuel → 1 ≤ count (show_from fuel n)
unfolding show_from
count-show_from zero n h = absurd (omega arith)
count-show_from (suc fuel) n h = elim (Bool-cases (ltb n 10)) [
  | inl small ↦ rw small (omega (arith, count-digit n))
  | inr big ↦ rw (big, length-append) (omega (arith, count-digit (n % 10)))
]

-- A text of one digit is none of several.
one_digit : (fuel m n : ℕ) → m / 10 < fuel → digit n ≡ show_from fuel (m / 10) <> digit (m % 10) → ⊥
one_digit fuel m n h e = omega (
  arith,
  ap count e,
  length-append (show_from fuel (m / 10)) (digit (m % 10)),
  count-show_from fuel (m / 10) h,
  count-digit n,
  count-digit (m % 10),
)

split :
    (fuel fuel' n m : ℕ)
    → show_from fuel (n / 10) <> digit (n % 10) ≡ show_from fuel' (m / 10) <> digit (m % 10)
    → (show_from fuel (n / 10) ≡ show_from fuel' (m / 10)) × (digit (n % 10) ≡ digit (m % 10))
split fuel fuel' n m e = append_inj e (
    omega (
      arith,
      ap count e,
      length-append (show_from fuel (n / 10)) (digit (n % 10)),
      length-append (show_from fuel' (m / 10)) (digit (m % 10)),
      count-digit (n % 10),
      count-digit (m % 10),
    ))

show_from-injective :
    (fuel fuel' n m : ℕ) → n < fuel → m < fuel' → show_from fuel n ≡ show_from fuel' m → n ≡ m
unfolding show_from
show_from-injective zero fuel' n m hn hm e = absurd (omega arith)
show_from-injective (suc fuel) zero n m hn hm e = absurd (omega arith)
show_from-injective (suc fuel) (suc fuel') n m hn hm e = elim (Bool-cases (ltb n 10)) [
  | inl n_small ↦ elim (Bool-cases (ltb m 10)) [
    | inl m_small ↦ digit-injective n m (ground arith) (ground arith) (rw (n_small, m_small) at e)
    | inr m_big ↦ absurd (one_digit fuel' m n (ground arith) (rw (n_small, m_big) at e))
  ]
  | inr n_big ↦ elim (Bool-cases (ltb m 10)) [
    | inl m_small ↦ absurd (one_digit fuel n m (ground arith) (sym (rw (n_big, m_small) at e)))
    | inr m_big ↦
        let (high, low) = split fuel fuel' n m (rw (n_big, m_big) at e) in
        let same : n / 10 ≡ m / 10 =
          show_from-injective fuel fuel' (n / 10) (m / 10) (ground arith) (ground arith) high in
        omega (arith, digit-injective (n % 10) (m % 10) (omega arith) (omega arith) low)
  ]
]

pub show-injective : (n m : ℕ) → show n ≡ show m → n ≡ m
unfolding show
show-injective n m e = show_from-injective (suc n) (suc m) n m (omega arith) (omega arith) e
