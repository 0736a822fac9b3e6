-- ===== src/Deployer/Text.antt =====
-- Python's text operations that the deployers use: `str(n)` of a number, `endswith`, slices from the
-- start, and the part behind the last colon.
use fiaas_deploy_daemon.Base.{
  ℕ, suc, zero, ◌-◌, ◌≤◌, String, ◌<>◌, ◌≡◌, refl, Bool, ◌||◌, Option, none, some, arith, ◌==◌, ltb,
  eqb, if◌then◌else◌,
}
use Prim.Native.Nat.{◌/◌, ◌%◌}
use Prim.Native.Char.{code}
use Prim.Native.String.{count}
use text.Mathlib.TextLemmas.{length-nil, length-cons}

-- `s.endswith(t)`
unfoldable pub ends_with : String → String → Bool
ends_with String.[] t = "" == t
ends_with (String.◌∷◌ c s) t = String.◌∷◌ c s == t || ends_with s t

-- `s[:n]`
unfoldable pub take_text : ℕ → String → String
take_text zero s = String.[]
take_text (suc n) String.[] = String.[]
take_text (suc n) (String.◌∷◌ c s) = String.◌∷◌ c (take_text n s)

-- `s[:-n]`, for n > 0
unfoldable pub drop_last : ℕ → String → String
unfolding take_text
drop_last n s = take_text (count s - n) s

-- What stands behind the last colon of a text that has one.
unfoldable pub after_colon : String → Option String
after_colon String.[] = none
after_colon (String.◌∷◌ c s) = elim (after_colon s) [
  | some v ↦ some v
  | none ↦ if eqb (code c) 58 then some s else none
]

-- A decimal digit.
unfoldable pub digit : ℕ → String
digit zero = "0"
digit (suc zero) = "1"
digit (suc (suc zero)) = "2"
digit (suc (suc (suc zero))) = "3"
digit (suc (suc (suc (suc zero)))) = "4"
digit (suc (suc (suc (suc (suc zero))))) = "5"
digit (suc (suc (suc (suc (suc (suc zero)))))) = "6"
digit (suc (suc (suc (suc (suc (suc (suc zero))))))) = "7"
digit (suc (suc (suc (suc (suc (suc (suc (suc zero)))))))) = "8"
digit n = "9"

-- `str(n)`; a number has fewer digits than n + 1.
unfoldable pub show_from : ℕ → ℕ → String
unfolding digit
show_from zero n = ""
show_from (suc fuel) n =
    let high = show_from fuel (n / 10) in if ltb n 10 then digit n else high <> digit (n % 10)

unfoldable pub show : ℕ → String
unfolding show_from
show n = show_from (suc n) n

show_runs : (show 0 ≡ "0") × (show 10 ≡ "10") × (show 2047 ≡ "2047")
unfolding show
show_runs = (refl, refl, refl)

pub count-take_text : (n : ℕ) (s : String) → count (take_text n s) ≤ n
unfolding take_text
count-take_text zero s = rw length-nil (omega arith)
count-take_text (suc n) String.[] = rw length-nil (omega arith)
count-take_text (suc n) (String.◌∷◌ c s) = rw length-cons (omega (arith, count-take_text n s))
