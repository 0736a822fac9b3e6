-- ===== src/Base/Outcome.antt =====
-- Python's exceptions, as the error case of a result, and computations that change a state and may
-- raise: what was done before a raise stays done.
use Prim.Native.Nat.{ℕ}
use mathlib.Core.Path.{◌≡◌, refl, ap}
use mathlib.Core.Bool.{Bool, true, false}
use mathlib.Core.Logic.{◌⊎◌, inl, inr}

-- The exception classes that the program raises or catches. Messages are left out, but for the
-- status code of a `k8s.client.ClientError`.
pub data Error : Type 0 where
  invalid_configuration value_error key_error index_error type_error attribute_error : Error
  runtime_error yaml_error retry_error not_found : Error
  client_error : ℕ → Error
  upsert_conflict : Error

-- What a call gives: its value, or the exception that it raised.
pub data Result {ℓ} (A : Type ℓ) : Type ℓ where
  ok : A → Result A
  raise : Error → Result A

-- `if not test: raise error`
abbrev pub guard : Bool → Error → Result (Unit {0})
guard false error = raise error
guard true error = ok tt

-- What follows a call runs only if the call did not raise.
infixl 5 ◌>>=◌ ◌>>◌
abbrev pub ◌>>=◌ {ℓ κ} : {A : Type ℓ} {B : Type κ} → Result A → (A → Result B) → Result B
raise error >>= next = raise error
ok value >>= next = next value

abbrev pub ◌>>◌ {ℓ} : {B : Type ℓ} → Result (Unit {0}) → Result B → Result B
raise error >> next = raise error
ok _ >> next = next

-- What a successful chain went through first.
module _ {ℓ κ} {A : Type ℓ} {B : Type κ} where
  pub >>=-eq-ok :
      (first : Result A) (next : A → Result B) {last : B}
      → first >>= next ≡ ok last
      → (value : A) × (first ≡ ok value) × (next value ≡ ok last)
  >>=-eq-ok (raise error) next e = cc
  >>=-eq-ok (ok value) next e = (value, refl, e)

-- A computation over a state: its result, or the exception, and the state that it leaves.
abbrev pub Eff : Type 0 → Type 0 → Type 0
Eff S A = S → Result A × S

pub ok-injective {ℓ} : {A : Type ℓ} {a b : A} → ok a ≡ ok b → a ≡ b
ok-injective e = cc

pub guard-eq-ok {ℓ} :
    {B : Type ℓ} (b : Bool) (e : Error) (k : Result B) {r : B}
    → (guard b e >> k) ≡ ok r
    → (b ≡ true) × (k ≡ ok r)
guard-eq-ok true e k h = (refl, h)
guard-eq-ok false e k h = cc

pub raise-ne-ok {ℓ} : {A : Type ℓ} (e : Error) (a : A) → raise e ≡ ok a → ⊥
raise-ne-ok e a h = cc

pub Result-cases {ℓ} :
    {A : Type ℓ} (r : Result A) → ((a : A) × (r ≡ ok a)) ⊎ ((e : Error) × (r ≡ raise e))
Result-cases (ok a) = inl (a, refl)
Result-cases (raise e) = inr (e, refl)

-- What raised in a chain whose last step does not raise.
pub >>=-ok-eq-raise {ℓ κ} :
    {A : Type ℓ} {B : Type κ} (first : Result A) (f : A → B) (e : Error)
    → first >>= (λ a. ok (f a)) ≡ raise e
    → first ≡ raise e
>>=-ok-eq-raise (ok a) f e h = cc
>>=-ok-eq-raise (raise d) f e h = cc

pub raise-injective {ℓ} :
    {A : Type ℓ} {d e : Error} → ◌≡◌ {A = Result A} (raise d) (raise e) → d ≡ e
raise-injective h = cc

-- A chain raises at its first step or behind it.
pub >>=-eq-raise {ℓ κ} :
    {A : Type ℓ} {B : Type κ} (first : Result A) (next : A → Result B) (e : Error)
    → first >>= next ≡ raise e
    → (first ≡ raise e) ⊎ ((a : A) × (first ≡ ok a) × (next a ≡ raise e))
>>=-eq-raise (ok a) next e h = inr (a, refl, h)
>>=-eq-raise (raise d) next e h = inl (ap raise (raise-injective h))
