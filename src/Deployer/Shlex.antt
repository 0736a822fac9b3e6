-- ===== src/Deployer/Shlex.antt =====
-- `shlex.split` of Python's standard library, with which
-- fiaas_deploy_daemon/deployer/kubernetes/deployment/deployer.py splits the command of a check.
use fiaas_deploy_daemon.Base.{
  ℕ, String, ◌<>◌, ◌≡◌, refl, inl, inr, Bool, ◌&&◌, ◌||◌, List, [], ◌∷◌, eqb, if◌then◌else◌,
  Bool-cases, Error, value_error, Result, ok, raise, ◌>>=◌, >>=-ok-eq-raise,
}
use fiaas_deploy_daemon.Base.{Error}
use fiaas_deploy_daemon.Base.{
  ℕ, String, ◌<>◌, ◌≡◌, refl, Bool, ◌&&◌, ◌||◌, List, [], ◌∷◌, eqb, if◌then◌else◌, value_error,
  Result, ok, raise, ◌>>=◌,
}
use Prim.Native.Char.{code}

-- Where the lexer is: between words, in a word, in quotes of a code, or behind a backslash, with
-- where it goes back to.
pub data Mode : Type 0 where
  between inside : Mode
  quoted : ℕ → Mode
  escaped : Mode → Mode

is_blank : ℕ → Bool
is_blank n = eqb n 32 || eqb n 9 || eqb n 13 || eqb n 10

is_quote : ℕ → Bool
is_quote n = eqb n 34 || eqb n 39

-- The code of the backslash.
abbrev backslash : ℕ
backslash = 92

-- What a character in a word or between words does, where no word ends.
enter : ℕ → Mode → Mode
unfolding is_quote
enter n back = if is_quote n then quoted n else (if eqb n backslash then escaped back else inside)

-- What is put in the token by it.
entered : ℕ → String → String
unfolding is_quote
entered n c = if is_quote n || eqb n backslash then "" else c

-- What is put in the token by a character behind a backslash.
unescaped : Mode → ℕ → String → String
unescaped (quoted q) n c = if eqb n backslash || eqb n q then c else "\\" <> c
unescaped _ n c = c

-- What the end of the text means in a mode, with the token read so far.
at_end : Mode → String → Result (List String)
at_end between token = ok []
at_end inside token = ok (token ∷ [])
at_end (quoted q) token = raise value_error
at_end (escaped m) token = raise value_error

-- One character, where `rest` reads what follows it.
advance : (Mode → String → Result (List String)) → ℕ → String → Mode → String → Result (List String)
unfolding is_blank enter entered unescaped
advance rest n c between token =
    if is_blank n then rest between "" else rest (enter n inside) (entered n c)
advance rest n c inside token =
    if is_blank n
    then rest between "" >>= (λ words. ok (token ∷ words))
    else rest (enter n inside) (token <> entered n c)
advance rest n c (quoted q) token =
    if eqb n q
    then rest inside token
    else (if eqb n backslash && eqb q 34
        then rest (escaped (quoted q)) token
        else rest (quoted q) (token <> c))
advance rest n c (escaped m) token = rest m (token <> unescaped m n c)

split_from : String → Mode → String → Result (List String)
unfolding at_end advance
split_from String.[] m token = at_end m token
split_from (String.◌∷◌ c s) m token =
    advance (split_from s) (code c) (String.◌∷◌ c String.[]) m token

-- `shlex.split(s)`
unfoldable pub shlex_split : String → Result (List String)
unfolding split_from
shlex_split s = split_from s between ""

-- Mismatched quotes are the only reason to raise.
advance-errors :
    (rest : Mode → String → Result (List String)) (n : ℕ) (c : String) (m : Mode) (token : String)
    (e : Error)
    → ((m : Mode) (token : String) → rest m token ≡ raise e → e ≡ value_error)
    → advance rest n c m token ≡ raise e
    → e ≡ value_error
unfolding advance
advance-errors rest n c between token e h k = elim (Bool-cases (is_blank n)) [
  | inl blank ↦ h between "" (rw blank at k)
  | inr other ↦ h (enter n inside) (entered n c) (rw other at k)
]
advance-errors rest n c inside token e h k = elim (Bool-cases (is_blank n)) [
  | inl blank ↦
      h between "" (>>=-ok-eq-raise (rest between "") (λ words. token ∷ words) e (rw blank at k))
  | inr other ↦ h (enter n inside) (token <> entered n c) (rw other at k)
]
advance-errors rest n c (quoted q) token e h k = elim (Bool-cases (eqb n q)) [
  | inl closed ↦ h inside token (rw closed at k)
  | inr open' ↦ elim (Bool-cases (eqb n backslash && eqb q 34)) [
    | inl behind ↦ h (escaped (quoted q)) token (rw (open', behind) at k)
    | inr more ↦ h (quoted q) (token <> c) (rw (open', more) at k)
  ]
]
advance-errors rest n c (escaped m) token e h k = h m (token <> unescaped m n c) k

split_from-errors :
    (s : String) (m : Mode) (token : String) (e : Error)
    → split_from s m token ≡ raise e
    → e ≡ value_error
unfolding split_from at_end
split_from-errors String.[] between token e h = cc
split_from-errors String.[] inside token e h = cc
split_from-errors String.[] (quoted q) token e h = cc
split_from-errors String.[] (escaped m) token e h = cc
split_from-errors (String.◌∷◌ c s) m token e h =
    advance-errors (split_from s) (code c) (String.◌∷◌ c String.[]) m token e
      (λ m t. split_from-errors s m t e) h

pub shlex_split-errors : (s : String) (e : Error) → shlex_split s ≡ raise e → e ≡ value_error
unfolding shlex_split
shlex_split-errors s e h = split_from-errors s between "" e h

shlex_split_runs :
    (shlex_split "cat  /tmp/'a b'" ≡ ok ("cat" ∷ "/tmp/a b" ∷ []))
    × (shlex_split "sh -c \"echo \\\"x\\\"\" '' a\\ b"
        ≡ ok ("sh" ∷ "-c" ∷ "echo \"x\"" ∷ "" ∷ "a b" ∷ []))
    × (shlex_split "echo 'x" ≡ raise value_error)
unfolding shlex_split
shlex_split_runs = (refl, refl, refl)
