-- ===== src/Base/Effect.antt =====
-- Computations over a state that may raise: sequencing, `try`, and loops over a list. What was done
-- before an exception stays done.
use mathlib.Core.Bool.{Bool, true, false}
use mathlib.Core.List.{List, [], ◌∷◌}
use fiaas_deploy_daemon.Base.Outcome.{Error, Result, ok, raise, Eff}

module _ {S : Type 0} where
  abbrev pub bind_from {ℓ κ} :
      {A : Type ℓ} {B : Type κ} → Result A × S → (A → S → Result B × S) → Result B × S
  bind_from (ok a, s) f = f a s
  bind_from (raise e, s) f = (raise e, s)

  infixl 5 ◌>>=◌ ◌>>◌
  abbrev pub ◌>>=◌ : {A B : Type 0} → Eff S A → (A → Eff S B) → Eff S B
  ◌>>=◌ m f s = bind_from (m s) f

  abbrev pub ◌>>◌ : {B : Type 0} → Eff S (Unit {0}) → Eff S B → Eff S B
  ◌>>◌ m k s = bind_from (m s) (λ _. k)

  abbrev pub return : {A : Type 0} → A → Eff S A
  return a s = (ok a, s)

  abbrev pub throw : {A : Type 0} → Error → Eff S A
  throw e s = (raise e, s)

  -- A computation that only reads.
  abbrev pub lift : {A : Type 0} → Result A → Eff S A
  lift r s = (r, s)

  abbrev handle_from : {A : Type 0} → Result A × S → (Error → Eff S A) → Result A × S
  handle_from (ok a, s) h = (ok a, s)
  handle_from (raise e, s) h = h e s

  -- `try: m` with the `except` clauses `h`.
  abbrev pub try_catch : {A : Type 0} → Eff S A → (Error → Eff S A) → Eff S A
  try_catch m h s = handle_from (m s) h

  -- `for x in xs: f(x)`
  unfoldable pub for_each : {A : Type 0} → List A → (A → Eff S (Unit {0})) → Eff S (Unit {0})
  for_each [] f s = (ok tt, s)
  for_each (x ∷ xs) f s = bind_from (f x s) (λ _. for_each xs f)

  -- `if b: m`
  abbrev pub when : Bool → Eff S (Unit {0}) → Eff S (Unit {0})
  when true m s = m s
  when false m s = (ok tt, s)
