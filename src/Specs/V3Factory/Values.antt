-- ===== src/Specs/V3Factory/Values.antt =====
-- Reading a document over its defaults, as fiaas_deploy_daemon/specs/v3/factory.py does it.
use mathlib.Core.Path.{subst}
use fiaas_deploy_daemon.Base.{
  ◌≡◌, All, ok-injective, >>=-eq-ok, String, Bool, not, List, [], ◌∷◌, eqb, Result, ok, ◌>>=◌,
}
use fiaas_deploy_daemon.Base.Dict.{Dict}
use fiaas_deploy_daemon.Specs.Value.{Value, truthy}
use fiaas_deploy_daemon.Specs.Lookup.{Lookup, leaf, get_key, len_lookup, items_lookup, raw}

-- What a field holds after `field = lookup[key]`. A mapping or a list would be kept as the object that
-- reads it, and is kept as its raw value here; the defaults at these fields are scalars or empty.
unfoldable pub stored : Lookup → Result Value
unfolding raw
stored (leaf v) = ok v
stored l = raw l

unfoldable pub get_value : Lookup → String → Result Value
unfolding get_key stored
get_value l k = do m ← get_key l k; stored m

-- `if lookup:`, by its length.
unfoldable pub lookup_truthy : Lookup → Result Bool
unfolding len_lookup
lookup_truthy (leaf v) = ok (truthy v)
lookup_truthy l = do n ← len_lookup l; ok (not (eqb n 0))

stored_items : List (String × Lookup) → Result (Dict Value)
unfolding stored
stored_items [] = ok []
stored_items ((k, l) ∷ kvs) = do v ← stored l; rest ← stored_items kvs; ok ((k, v) ∷ rest)

-- `dict(lookup[key])`
unfoldable pub dict_of : Lookup → String → Result (Dict Value)
unfolding get_key items_lookup stored_items
dict_of l key = do m ← get_key l key; kvs ← items_lookup m; stored_items kvs

-- A list comprehension whose body may raise.
module _ {A B : Type 0} where
  abbrev pub map_result : (A → Result B) → List A → Result (List B)
  map_result f [] = ok []
  map_result f (x ∷ xs) = do y ← f x; ys ← map_result f xs; ok (y ∷ ys)

-- What holds of each result of the body holds of the whole list.
pub map_result-All :
    {A B : Type 0} (P : B → Type 0) (f : A → Result B) (xs : List A) (ys : List B)
    → ((x : A) (y : B) → f x ≡ ok y → P y)
    → map_result f xs ≡ ok ys
    → All P ys
map_result-All P f [] ys h e = subst (All P) (ok-injective e) tt
map_result-All P f (x ∷ xs) ys h e =
    let (y, hy, e1) = >>=-eq-ok (f x) _ e in
    let (rest, hr, e2) = >>=-eq-ok (map_result f xs) _ e1 in
    subst (All P) (ok-injective e2) (h x y hy, map_result-All P f xs rest h hr)
