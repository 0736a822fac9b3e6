-- ===== src/Config/HostPairs.antt =====
-- What `_parse_ingress_host_pairs` of fiaas_deploy_daemon/config.py reads from the text of pairs.
use fiaas_deploy_daemon.Base.{
  String, ◌<>◌, ◌≡◌, refl, sym, ap, ◌∙◌, inl, inr, Bool, false, ◌||◌, some, List, [], ◌∷◌, map,
  arith, eq_iff, eq_refl, ◌==◌, eqb, Bool-cases, contains, All,
}
use Prim.Native.Char.{code}
use text.Mathlib.TextLemmas.{nil-append, cons-append}
use fiaas_deploy_daemon.Base.Dict.{Dict, get, insert, get-insert}
use fiaas_deploy_daemon.Config.{split_once, add_pair, parse_pairs, parse_ingress_host_pairs}

abbrev pub Pair : Type 0
Pair = String × String

-- `host1=host2`
abbrev pub pair_text : Pair → String
pair_text (host1, host2) = host1 <> ("=" <> host2)

abbrev pub has_sign : String → Bool
has_sign String.[] = false
has_sign (String.◌∷◌ c s) = eqb (code c) 61 || has_sign s

abbrev pub hosts_of : List Pair → List String
hosts_of [] = []
hosts_of ((host1, host2) ∷ pairs) = host1 ∷ host2 ∷ hosts_of pairs

-- No host stands in two of the pairs, and no first host has the sign in it.
abbrev pub AreApart : List Pair → Type 0
AreApart [] = Unit
AreApart ((host1, host2) ∷ pairs) =
    (contains (hosts_of pairs) host1 ≡ false)
    × (contains (hosts_of pairs) host2 ≡ false)
    × (has_sign host1 ≡ false)
    × AreApart pairs

split_once-pair :
    (host1 host2 : String)
    → has_sign host1 ≡ false
    → split_once (host1 <> ("=" <> host2)) ≡ some (host1, host2)
unfolding split_once
split_once-pair String.[] host2 h =
    ap split_once (
      nil-append ("=" <> host2) ∙ cons-append "=" "" host2 ∙ ap (String.◌∷◌ "=") (nil-append host2))
split_once-pair (String.◌∷◌ c s) host2 h =
    let other : eqb (code c) 61 ≡ false = ground (arith, h) in
    ap split_once (cons-append c s ("=" <> host2))
    ∙ rw (other, split_once-pair s host2 (ground (arith, h))) refl

abbrev put_pairs : Dict String → List Pair → Dict String
put_pairs d [] = d
put_pairs d (pair ∷ pairs) = put_pairs (add_pair d pair) pairs

parse_pairs-texts :
    (d : Dict String) (pairs : List Pair)
    → AreApart pairs
    → parse_pairs d (map pair_text pairs) ≡ some (put_pairs d pairs)
parse_pairs-texts d [] h = refl
parse_pairs-texts d ((host1, host2) ∷ pairs) (_, _, plain, apart) =
    rw (parse_pairs, split_once-pair host1 host2 plain)
      (parse_pairs-texts (add_pair d (host1, host2)) pairs apart)

add_pair-other :
    (d : Dict String) (host1 host2 k : String)
    → host1 == k ≡ false
    → host2 == k ≡ false
    → get (add_pair d (host1, host2)) k ≡ get d k
add_pair-other d host1 host2 k e e' =
    get-insert (insert d host1 host2) host2 k host1 ∙ rw e' (get-insert d host1 k host2 ∙ rw e refl)

put_pairs-other :
    (d : Dict String) (pairs : List Pair) (k : String)
    → contains (hosts_of pairs) k ≡ false
    → get (put_pairs d pairs) k ≡ get d k
put_pairs-other d [] k h = refl
put_pairs-other d ((host1, host2) ∷ pairs) k h =
    put_pairs-other (add_pair d (host1, host2)) pairs k (ground (arith, h))
    ∙ add_pair-other d host1 host2 k (ground (arith, h)) (ground (arith, h))

-- Each host of the pair leads to the other one.
abbrev pub LeadsBothWays : Dict String → Pair → Type 0
LeadsBothWays host_pairs (host1, host2) =
    (get host_pairs host1 ≡ some host2) × (get host_pairs host2 ≡ some host1)

add_pair-LeadsBothWays :
    (d : Dict String) (host1 host2 : String)
    → LeadsBothWays (add_pair d (host1, host2)) (host1, host2)
add_pair-LeadsBothWays d host1 host2 = (
  get-insert (insert d host1 host2) host2 host1 host1 ∙ elim (Bool-cases (host2 == host1)) [
    | inl same ↦ rw same (ap some (sym ((eq_iff host2 host1).0 same)))
    | inr differs ↦ rw differs (get-insert d host1 host1 host2 ∙ rw eq_refl refl)
  ],
  get-insert (insert d host1 host2) host2 host2 host1 ∙ rw eq_refl refl,
)

put_pairs-LeadsBothWays :
    (d : Dict String) (pairs : List Pair)
    → AreApart pairs
    → All (LeadsBothWays (put_pairs d pairs)) pairs
put_pairs-LeadsBothWays d [] h = tt
put_pairs-LeadsBothWays d ((host1, host2) ∷ pairs) (apart1, apart2, plain, apart) =
    let (to, back) = add_pair-LeadsBothWays d host1 host2 in
    (
      (
        put_pairs-other (add_pair d (host1, host2)) pairs host1 apart1 ∙ to,
        put_pairs-other (add_pair d (host1, host2)) pairs host2 apart2 ∙ back,
      ),
      put_pairs-LeadsBothWays (add_pair d (host1, host2)) pairs apart,
    )

-- The texts `host1=host2` of any list of pairs are parsed, and each host then leads to the other one
-- of its pair, in both directions, if no host stands in two pairs and no first host has the sign in
-- it.
pub parse_ingress_host_pairs-LeadsBothWays :
    (pairs : List Pair)
    → AreApart pairs
    → (host_pairs : Dict String) × (parse_ingress_host_pairs (map pair_text pairs)
        ≡ some host_pairs)
      × All (LeadsBothWays host_pairs) pairs
unfolding parse_ingress_host_pairs
parse_ingress_host_pairs-LeadsBothWays pairs apart =
    (put_pairs [] pairs, parse_pairs-texts [] pairs apart, put_pairs-LeadsBothWays [] pairs apart)
