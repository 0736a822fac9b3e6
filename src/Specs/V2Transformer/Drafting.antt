-- ===== src/Specs/V2Transformer/Drafting.antt =====
-- The dict that fiaas_deploy_daemon/specs/v2/transformer.py builds, before `_flatten`: its entries are
-- dicts of the program, plain values, and lookups, which `_flatten` turns into dicts.
use fiaas_deploy_daemon.Specs.Value.{is_null, seq, Value, mapping, Fields, end, field}
use fiaas_deploy_daemon.Specs.Lookup.{
  lookup_list, get_config_value, lookup_mapping, Lookup, leaf, get_key, keys_lookup, raw, choose,
}
use fiaas_deploy_daemon.Base.{
  String, List, [], ◌∷◌, ◌==◌, if◌then◌else◌, type_error, Result, ok, raise, ◌>>=◌,
}

mutual
  pub data Draft : Type 0 where
    read : Lookup → Draft
    given : Value → Draft
    dict : Drafts → Draft

  pub data Drafts : Type 0 where
    no_drafts : Drafts
    draft : String → Draft → Drafts → Drafts

-- `d[key] = value`
unfoldable pub set_draft : Drafts → String → Draft → Drafts
set_draft no_drafts k w = draft k w no_drafts
set_draft (draft j v ds) k w = if j == k then draft j w ds else draft j v (set_draft ds k w)

-- `d[key]` where the entry is a dict of the program, which is put there first if the key is absent.
-- An entry of another kind has no item that could be set.
unfoldable pub sub_drafts : Drafts → String → Result Drafts
sub_drafts no_drafts k = ok no_drafts
sub_drafts (draft j v ds) k =
    if j == k then (elim v [ dict es ↦ ok es | _ ↦ raise type_error ]) else sub_drafts ds k

-- `_set`, for the keys before the last one and the last one.
unfoldable pub set_path : Drafts → List String → String → Draft → Result Drafts
unfolding set_draft sub_drafts
set_path ds [] last w = ok (set_draft ds last w)
set_path ds (k ∷ keys) last w = do
  es ← sub_drafts ds k
  changed ← set_path es keys last w
  ok (set_draft ds k (dict changed))

-- `_get`
unfoldable pub get_path : Lookup → List String → Result Lookup
unfolding get_key
get_path l [] = ok l
get_path l (k ∷ keys) = do m ← get_key l k; get_path m keys

-- `d.update(e)`
unfoldable pub update_drafts : Drafts → List (String × Draft) → Drafts
unfolding set_draft
update_drafts ds [] = ds
update_drafts ds ((k, w) ∷ es) = update_drafts (set_draft ds k w) es

unfoldable pub from_drafts : List (String × Draft) → Drafts
from_drafts [] = no_drafts
from_drafts ((k, d) ∷ kds) = draft k d (from_drafts kds)

-- The value at each key of a lookup, flattened: `readers` has, for each key of the defaults, how the
-- configuration's value there is read over the default; there is no default at other keys.
read_at : List (String × (Value → Result Value)) → String → Value → Result Value
read_at [] k c = ok c
read_at ((j, reader) ∷ rs) k c = if j == k then reader c else read_at rs k c

flatten_keys : List (String × (Value → Result Value)) → Lookup → List String → Result Fields
unfolding read_at get_config_value
flatten_keys readers l [] = ok end
flatten_keys readers l (k ∷ ks) = do
  c ← get_config_value l k
  v ← read_at readers k c
  fs ← flatten_keys readers l ks
  ok (field k v fs)

-- `_flatten` of what a lookup has at a key, from the default and the configuration's value there: a
-- mapping becomes a dict of what it reads at each of its keys. The recursion is on the default.
unfoldable mutual
  unfolding choose keys_lookup flatten_keys

  flatten_over : Value → Value → Result Value
  flatten_over (mapping ds) c =
      let rs = readers ds in
      (do l ← choose c (mapping ds); ks ← keys_lookup l; fs ← flatten_keys rs l ks; ok (mapping fs))
  flatten_over (seq ds) c = do l ← choose c (seq ds); raw l
  flatten_over d c = ok (if is_null c then d else c)

  pub readers : Fields → List (String × (Value → Result Value))
  readers end = []
  readers (field k d ds) = (k, flatten_over d) ∷ readers ds

-- `_flatten` of a lookup. A list stays the object that reads it; none is stored by the program.
unfoldable pub flatten_lookup : Lookup → Result Value
unfolding keys_lookup flatten_keys
flatten_lookup (leaf v) = ok v
flatten_lookup (lookup_mapping c ds) = do
  ks ← keys_lookup (lookup_mapping c ds)
  fs ← flatten_keys (readers ds) (lookup_mapping c ds) ks
  ok (mapping fs)
flatten_lookup (lookup_list c ds) = raw (lookup_list c ds)

-- `_flatten` of the dict of the program.
unfoldable mutual
  unfolding flatten_lookup

  pub flatten : Draft → Result Value
  flatten (read l) = flatten_lookup l
  flatten (given v) = ok v
  flatten (dict ds) = do fs ← flatten_drafts ds; ok (mapping fs)

  pub flatten_drafts : Drafts → Result Fields
  flatten_drafts no_drafts = ok end
  flatten_drafts (draft k d ds) = do v ← flatten d; fs ← flatten_drafts ds; ok (field k v fs)
