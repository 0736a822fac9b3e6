-- ===== src/Deployer/Integer.antt =====
-- Python's `int(s)` of a text and `str(i)` of an integer, for the digits of ASCII.
use fiaas_deploy_daemon.Base.{◌≡◌, refl, ◌*◌}
use fiaas_deploy_daemon.Base.{
  ℕ, suc, zero, ◌+◌, ◌-◌, String, ◌<>◌, ◌≡◌, refl, Bool, true, false, ◌&&◌, ◌||◌, Option, none,
  some, leb, eqb, if◌then◌else◌,
}
use Prim.Native.Char.{code}
use fiaas_deploy_daemon.Deployer.Text.{show}

pub data ℤ : Type 0 where
  pos negsuc : ℕ → ℤ

unfoldable pub show_int : ℤ → String
unfolding show
show_int (pos n) = show n
show_int (negsuc n) = "-" <> show (suc n)

-- The white space of ASCII.
unfoldable pub is_space : ℕ → Bool
is_space n = eqb n 32 || leb 9 n && leb n 13 || leb 28 n && leb n 31

unfoldable pub all_spaces : String → Bool
unfolding is_space
all_spaces String.[] = true
all_spaces (String.◌∷◌ c s) = is_space (code c) && all_spaces s

-- Digits from here, behind a digit or not; single underscores may stand between digits.
unfoldable pub read_digits : Bool → ℕ → String → Option ℕ
unfolding all_spaces
read_digits true value String.[] = some value
read_digits false value String.[] = none
read_digits behind value (String.◌∷◌ c s) =
    let more = read_digits true (value * 10 + (code c - 48)) s in
    let split = read_digits false value s in
    if leb 48 (code c) && leb (code c) 57
    then more
    else (if behind
        then (if eqb (code c) 95
            then split
            else (if all_spaces (String.◌∷◌ c s) then some value else none))
        else none)

unfoldable pub negated : Option ℕ → Option ℤ
negated none = none
negated (some zero) = some (pos zero)
negated (some (suc n)) = some (negsuc n)

unfoldable pub positive : Option ℕ → Option ℤ
positive none = none
positive (some n) = some (pos n)

-- `int(s)`, which raises ValueError where there is no value.
unfoldable pub int : String → Option ℤ
unfolding is_space read_digits negated positive
int String.[] = none
int (String.◌∷◌ c s) =
    let stripped = int s in
    if is_space (code c)
    then stripped
    else (if eqb (code c) 45
        then negated (read_digits false 0 s)
        else (if eqb (code c) 43
            then positive (read_digits false 0 s)
            else positive (read_digits false 0 (String.◌∷◌ c s))))

int_runs :
    (int "8080" ≡ some (pos 8080))
    × (int " -1_0 " ≡ some (negsuc 9))
    × (int "+7" ≡ some (pos 7))
    × (int "http" ≡ none)
    × (int "1_" ≡ none)
    × (int "" ≡ none)
unfolding int
int_runs = (refl, refl, refl, refl, refl, refl)
