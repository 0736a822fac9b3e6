-- ===== src/Deployer/IntegerLaws.antt =====
-- That `int` reads what `str` writes, by which
-- fiaas_deploy_daemon/deployer/kubernetes/deployment/prometheus.py takes a port that is a number.
use text.Mathlib.TextLemmas.{nil-append}
use fiaas_deploy_daemon.Base.{
  ℕ, suc, zero, ◌+◌, ◌-◌, ◌≤◌, ◌<◌, String, ◌<>◌, ◌≡◌, refl, sym, ap, ◌∙◌, inl, inr, Bool, true,
  false, some, arith, ltb, leb, eqb, Bool-cases,
}
use Prim.Native.Nat.{◌/◌, ◌%◌, ◌*◌}
use Prim.Native.Char.{Char, code}
use text.Mathlib.TextLemmas.{append-nil, append_assoc, cons-append, nil-append}
use fiaas_deploy_daemon.Deployer.Text.{digit, show_from, show}
use fiaas_deploy_daemon.Deployer.Integer.{pos, is_space, read_digits, positive, int}

-- A digit is a text of one character between 0 and 9.
digit-one : (d : ℕ) → d < 10 → (c : Char) × (digit d ≡ String.◌∷◌ c String.[]) × (code c ≡ 48 + d)
unfolding digit
digit-one zero h = ("0", refl, refl)
digit-one (suc zero) h = ("1", refl, refl)
digit-one (suc (suc zero)) h = ("2", refl, refl)
digit-one (suc (suc (suc zero))) h = ("3", refl, refl)
digit-one (suc (suc (suc (suc zero)))) h = ("4", refl, refl)
digit-one (suc (suc (suc (suc (suc zero))))) h = ("5", refl, refl)
digit-one (suc (suc (suc (suc (suc (suc zero)))))) h = ("6", refl, refl)
digit-one (suc (suc (suc (suc (suc (suc (suc zero))))))) h = ("7", refl, refl)
digit-one (suc (suc (suc (suc (suc (suc (suc (suc zero)))))))) h = ("8", refl, refl)
digit-one (suc (suc (suc (suc (suc (suc (suc (suc (suc zero))))))))) h = ("9", refl, refl)
digit-one (suc (suc (suc (suc (suc (suc (suc (suc (suc (suc n)))))))))) h = absurd (omega arith)

digit-append :
    (d : ℕ) (t : String) (c : Char)
    → digit d ≡ String.◌∷◌ c String.[]
    → digit d <> t ≡ String.◌∷◌ c t
digit-append d t c e =
    ap (λ s. s <> t) e ∙ cons-append c String.[] t ∙ ap (String.◌∷◌ c) (nil-append t)

read_digits-digit :
    (d : ℕ) (behind : Bool) (value : ℕ) (t : String)
    → d < 10
    → read_digits behind value (digit d <> t) ≡ read_digits true (value * 10 + d) t
unfolding read_digits
read_digits-digit d behind value t h =
    let (c, one, same) = digit-one d h in
    let low : leb 48 (code c) ≡ true = ground (arith, same) in
    let high : leb (code c) 57 ≡ true = ground (arith, same) in
    let minus : code c - 48 ≡ d = omega (arith, same) in
    ap (read_digits behind value) (digit-append d t c one) ∙ rw (low, high, minus) refl

read-show_from :
    (fuel n : ℕ) (t : String)
    → n < fuel
    → read_digits false 0 (show_from fuel n <> t) ≡ read_digits true n t
unfolding show_from
read-show_from zero n t h = absurd (omega arith)
read-show_from (suc fuel) n t h = elim (Bool-cases (ltb n 10)) [
  | inl small ↦
      rw small (
        read_digits-digit n false 0 t (ground arith) ∙ ap (λ m. read_digits true m t) (omega arith))
  | inr big ↦ rw big (
      ap (read_digits false 0) (append_assoc (show_from fuel (n / 10)) (digit (n % 10)) t)
      ∙ read-show_from fuel (n / 10) (digit (n % 10) <> t) (ground arith)
      ∙ read_digits-digit (n % 10) true (n / 10) t (omega arith)
      ∙ ap (λ m. read_digits true m t) (omega arith))
]

StartsWithDigit : String → Type 0
StartsWithDigit s = (c : Char) × (t : String) × (s ≡ String.◌∷◌ c t) × (48 ≤ code c) × (code c < 58)

show_from-StartsWithDigit : (fuel n : ℕ) → n < fuel → StartsWithDigit (show_from fuel n)
unfolding show_from StartsWithDigit
show_from-StartsWithDigit zero n h = absurd (omega arith)
show_from-StartsWithDigit (suc fuel) n h = elim (Bool-cases (ltb n 10)) [
  | inl small ↦
      let (c, one, same) = digit-one n (ground arith) in
      rw small (c, String.[], one, omega (arith, same), ground (arith, same))
  | inr big ↦
      let (c, t, starts, low, high) = show_from-StartsWithDigit fuel (n / 10) (ground arith) in
      rw big (
        c,
        t <> digit (n % 10),
        ap (λ s. s <> digit (n % 10)) starts ∙ cons-append c t (digit (n % 10)),
        low,
        high,
      )
]

no_sign :
    (c : Char)
    → 48 ≤ code c
    → code c < 58
    → (is_space (code c) ≡ false) × (eqb (code c) 45 ≡ false) × (eqb (code c) 43 ≡ false)
unfolding is_space
no_sign c low high = (ground arith, ground arith, ground arith)

int-first :
    (c : Char) (t : String)
    → 48 ≤ code c
    → code c < 58
    → int (String.◌∷◌ c t) ≡ positive (read_digits false 0 (String.◌∷◌ c t))
unfolding int
int-first c t low high =
    let (space, minus, plus) = no_sign c low high in rw (space, minus, plus) refl

int-digit : (s : String) → StartsWithDigit s → int s ≡ positive (read_digits false 0 s)
unfolding StartsWithDigit
int-digit s (c, t, starts, low, high) =
    ap int starts ∙ int-first c t low high ∙ ap (λ x. positive (read_digits false 0 x)) (sym starts)

-- `int` of the text that `str` makes of a number is that number.
pub int-show : (n : ℕ) → int (show n) ≡ some (pos n)
unfolding show positive read_digits
int-show n =
    int-digit (show_from (suc n) n) (show_from-StartsWithDigit (suc n) n (omega arith))
    ∙ ap (λ s. positive (read_digits false 0 s)) (sym (append-nil (show_from (suc n) n)))
    ∙ ap positive (read-show_from (suc n) n String.[] (omega arith))
