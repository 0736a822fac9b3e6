-- ===== src/Specs/Lookup.antt =====
-- fiaas_deploy_daemon/specs/lookup.py: a configuration read over its defaults. The exceptions are
-- those of Python. An absent configuration is `null`.
pub mod Laws
use fiaas_deploy_daemon.Base.{
  ℕ, suc, zero, ◌+◌, ◌-◌, String, Bool, true, false, not, ◌&&◌, Option, none, some, List, [], ◌∷◌,
  if◌then◌else◌, Result, ok, raise, ltb, leb, Error, type_error, index_error, invalid_configuration,
  length, ◌>>=◌, ◌>>◌, guard, map, attribute_error,
}
use fiaas_deploy_daemon.Specs.Value.{
  Value, null, seq, mapping, Items, nil, cons, Fields, end, field, items, fields, get_or_null,
  get_item, truthy, dict_keys, is_null, is_mapping, is_seq, py_len, at, dict_get, nth,
}

-- What indexing gives: a plain value, a `LookupMapping` or a `_LookupList`, each with its
-- configuration and its defaults.
pub data Lookup : Type 0 where
  leaf : Value → Lookup
  lookup_mapping : Value → Fields → Lookup
  lookup_list : Value → Items → Lookup

-- `_Lookup.__init__`, with defaults that are a dict.
unfoldable pub make_mapping : Value → Fields → Result Lookup
make_mapping config defaults = do
  guard (not (truthy config && truthy (mapping defaults) && not (is_mapping config)))
      invalid_configuration
  ok (lookup_mapping config defaults)

-- `_Lookup.__init__`, with defaults that are a list.
unfoldable pub make_list : Value → Items → Result Lookup
make_list config defaults = do
  guard (not (truthy config && truthy (seq defaults) && not (is_seq config))) invalid_configuration
  ok (lookup_list config defaults)

-- The body of `_Lookup.__getitem__`, from the two values that it reads.
unfoldable pub choose : Value → Value → Result Lookup
unfolding make_list make_mapping
choose config_value (seq defaults) = make_list config_value defaults
choose config_value (mapping defaults) = make_mapping config_value defaults
choose config_value default_value =
    ok (leaf (if is_null config_value then default_value else config_value))

-- `_LookupList._get_value`
list_value : Value → ℕ → Result Value
list_value col idx = do n ← py_len col; if leb n idx then ok null else at col idx

-- `get_config_value` at a key
unfoldable pub get_config_value : Lookup → String → Result Value
get_config_value (lookup_mapping config defaults) key =
    if truthy config then dict_get config key else ok null
get_config_value (lookup_list config defaults) key = raise type_error
get_config_value (leaf v) key = raise attribute_error

-- `lookup[key]`
unfoldable pub get_key : Lookup → String → Result Lookup
unfolding choose get_config_value
get_key (lookup_mapping config defaults) key = do
  config_value ← get_config_value (lookup_mapping config defaults) key
  choose config_value (get_or_null defaults key)
get_key (leaf (mapping fs)) key = do v ← get_item fs key; ok (leaf v)
get_key (leaf v) key = raise type_error
get_key (lookup_list config defaults) key = raise type_error

-- The bounds that `_LookupList.__getitem__` tests.
pub list_len : Value → Items → Result ℕ
list_len config defaults = if is_null config then ok (length (items defaults)) else py_len config

-- `lookup[idx]` at a number
unfoldable pub get_index : Lookup → ℕ → Result Lookup
unfolding choose list_value list_len
get_index (lookup_list config defaults) idx = do
  n ← list_len config defaults
  guard (not (leb n idx)) index_error
  config_value ← (if truthy config then list_value config idx else ok null)
  default_value ← list_value (seq defaults) 0
  choose config_value default_value
get_index (lookup_mapping config defaults) idx = raise type_error
get_index (leaf v) idx = raise type_error

-- `_len`, one higher, so that its -1 for `None` is 0.
unfoldable pub len_plus_one : Value → Result ℕ
len_plus_one v = if is_null v then ok 0 else (do n ← py_len v; ok (n + 1))

-- `len(lookup)`
unfoldable pub len_lookup : Lookup → Result ℕ
unfolding list_len len_plus_one
len_lookup (lookup_list config defaults) = list_len config defaults
len_lookup (lookup_mapping config defaults) = do
  d ← len_plus_one (mapping defaults)
  c ← len_plus_one config
  ok ((if ltb c d then d else c) - 1)
len_lookup (leaf v) = py_len v

-- `iter(lookup)` of a mapping: the keys of the defaults if there are more of them, and those of the
-- configuration otherwise.
unfoldable pub keys_lookup : Lookup → Result (List String)
unfolding len_plus_one
keys_lookup (lookup_mapping config defaults) = do
  d ← len_plus_one (mapping defaults)
  c ← len_plus_one config
  if ltb c d then ok (map (λ kv. kv.0) (fields defaults)) else dict_keys config
keys_lookup _ = raise type_error

-- The keys and their values, `lookup.items()`.
abbrev items_from : Lookup → List String → Result (List (String × Lookup))
items_from l [] = ok []
items_from l (k ∷ ks) = do v ← get_key l k; rest ← items_from l ks; ok ((k, v) ∷ rest)

unfoldable pub items_lookup : Lookup → Result (List (String × Lookup))
unfolding keys_lookup get_key
items_lookup l = do ks ← keys_lookup l; items_from l ks

-- `for element in lookup`: a `Sequence` is indexed from 0 up, until an `IndexError`.
elements_from : ℕ → ℕ → Lookup → Result (List Lookup)
unfolding get_index
elements_from zero i l = raise index_error
elements_from (suc fuel) i l =
    let rest = elements_from fuel (suc i) l in
    elim (get_index l i) [
      | ok v ↦ (do vs ← rest; ok (v ∷ vs))
      | raise index_error ↦ ok []
      | raise e ↦ raise e
    ]

-- The fuel is one round for each element and one for the end.
unfoldable pub elements : Lookup → Result (List Lookup)
unfolding elements_from len_lookup
elements l = do n ← len_lookup l; elements_from (suc n) 0 l

-- `lookup.raw()`
unfoldable pub raw : Lookup → Result Value
raw (lookup_mapping config defaults) = ok (if truthy config then config else mapping defaults)
raw (lookup_list config defaults) = ok (if truthy config then config else seq defaults)
raw (leaf v) = raise attribute_error

-- A lookup as a value, where the program stores what it read. A mapping or a list is stored as the
-- object that reads it, which is `none` here.
unfoldable pub plain : Lookup → Option Value
plain (leaf v) = some v
plain _ = none
