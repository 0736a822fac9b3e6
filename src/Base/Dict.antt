-- ===== src/Base/Dict.antt =====
-- Python dicts with text keys, in insertion order: `dict.get`, item assignment, `dict.update` and
-- `merge_dicts` of fiaas_deploy_daemon/tools.py.
mod Tests
use Prim.Native.String.{String}
use mathlib.Core.Path.{◌≡◌, refl, ◌∙◌}
use mathlib.Core.Option.{Option, none, some}
use mathlib.Core.List.{List, [], ◌∷◌}
use native.Mathlib.Omega.{arith}
use text.Mathlib.Text.{◌==◌}
use text.Mathlib.TextEquality.{eq_iff}
use fiaas_deploy_daemon.Base.Booleans.{if◌then◌else◌}

abbrev pub Dict {ℓ} : Type ℓ → Type ℓ
Dict V = List (String × V)

module _ {ℓ} {V : Type ℓ} where
  unfoldable pub get : Dict V → String → Option V
  get [] k = none
  get ((j, v) ∷ m) k = if j == k then some v else get m k

  -- `d[k] = v`: a key that is there keeps its place.
  unfoldable pub insert : Dict V → String → V → Dict V
  insert [] k v = (k, v) ∷ []
  insert ((j, w) ∷ m) k v = if j == k then (j, v) ∷ m else (j, w) ∷ insert m k v

  -- `d.update(e)`
  unfoldable pub update : Dict V → Dict V → Dict V
  unfolding insert
  update d [] = d
  update d ((k, v) ∷ e) = update (insert d k v) e

  abbrev merge_from : Dict V → List (Dict V) → Dict V
  merge_from result [] = result
  merge_from result (d ∷ args) = merge_from (update result d) args

  unfoldable pub merge_dicts : List (Dict V) → Dict V
  unfolding update
  merge_dicts args = merge_from [] args

  pub get-insert :
      (d : Dict V) (k j : String) (v : V)
      → get (insert d k v) j ≡ (if k == j then some v else get d j)
  unfolding get insert
  get-insert [] k j v = refl
  get-insert ((i, w) ∷ m) k j v =
      ground (arith, eq_iff k j, eq_iff i k, eq_iff i j, get-insert m k j v)

  -- No key is listed twice, as in every dict.
  abbrev pub NodupKeys : Dict V → Type ℓ
  NodupKeys [] = Unit
  NodupKeys ((k, _) ∷ m) = (get m k ≡ none) × NodupKeys m

  pub insert-NodupKeys : (d : Dict V) (k : String) (v : V) → NodupKeys d → NodupKeys (insert d k v)
  unfolding insert get
  insert-NodupKeys [] k v u = (refl, tt)
  insert-NodupKeys ((j, w) ∷ m) k v (fresh, u) =
      ground (arith, eq_iff j k, eq_iff k j, get-insert m k j v, insert-NodupKeys m k v u)

  pub update-NodupKeys : (d e : Dict V) → NodupKeys d → NodupKeys (update d e)
  unfolding update
  update-NodupKeys d [] u = u
  update-NodupKeys d ((k, v) ∷ e) u = update-NodupKeys (insert d k v) e (insert-NodupKeys d k v u)

  pub merge_dicts-NodupKeys : (args : List (Dict V)) → NodupKeys (merge_dicts args)
  unfolding merge_dicts
  merge_dicts-NodupKeys args = from [] args tt
    where
      from : (d : Dict V) (l : List (Dict V)) → NodupKeys d → NodupKeys (merge_from d l)
      from d [] u = u
      from d (e ∷ l) u = from (update d e) l (update-NodupKeys d e u)

  -- The value in the second dict if it has one, else the one in the first.
  pub get-update :
      (d e : Dict V) (k : String)
      → NodupKeys e
      → get (update d e) k ≡ elim (get e k) [ none ↦ get d k | some v ↦ some v ]
  unfolding update get
  get-update d [] k u = refl
  get-update d ((j, v) ∷ e) k (fresh, u) =
      get-update (insert d j v) e k u ∙ ground (arith, eq_iff j k, get-insert d j k v)

  -- `merge_dicts` of two dicts with no key twice has, at every key, the value of the second dict where
  -- it has one, and what the first has there otherwise.
  pub get-merge_two :
      (d e : Dict V) (k : String)
      → NodupKeys d
      → NodupKeys e
      → get (merge_dicts (d ∷ e ∷ [])) k ≡ elim (get e k) [ none ↦ get d k | some v ↦ some v ]
  unfolding merge_dicts get
  get-merge_two d e k u w = get-update (update [] d) e k w ∙ ground (arith, get-update [] d k u)
