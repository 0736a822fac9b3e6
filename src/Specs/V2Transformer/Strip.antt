-- ===== src/Specs/V2Transformer/Strip.antt =====
-- `_strip_v3_defaults` and `_remove_intersect` of fiaas_deploy_daemon/specs/v2/transformer.py. The dicts
-- are changed in place; what `_flatten` returns shares no dict, so a changed dict is set back.
use fiaas_deploy_daemon.Base.{
  String, Bool, true, false, List, [], ◌∷◌, ◌==◌, if◌then◌else◌, Error, key_error, type_error,
  Result, ok, raise, ◌>>=◌,
}
use fiaas_deploy_daemon.Specs.Value.{
  Value, seq, mapping, nil, cons, Fields, end, field, get_or_null, get_item, truthy, set_item,
  eq_value, is_undefined,
}
use fiaas_deploy_daemon.Specs.Defaults.{v3_defaults}

-- `value[key]`
unfoldable pub item : Value → String → Result Value
item (mapping fs) k = get_item fs k
item _ k = raise type_error

-- `del d[key]`
unfoldable pub remove_item : Fields → String → Fields
remove_item end k = end
remove_item (field j v fs) k = if j == k then fs else field j v (remove_item fs k)

-- What `_remove_intersect` keeps of an entry: it drops a value that is false, zero or empty.
unfoldable pub kept : String → Value → Fields → Fields
kept k v rest = if truthy v then field k v rest else rest

-- What becomes of an entry, from what the other dict has at its key: it is dropped where that is equal.
unfoldable pub entry : String → Value → (Value → Value) → Result Value → Fields → Fields
unfolding kept eq_value
entry k v shrunk (raise _) rest = kept k v rest
entry k v shrunk (ok w) rest = if eq_value w v then rest else kept k (shrunk w) rest

-- `_remove_intersect`, and what it leaves of a value that is not equal to the other dict's: a dict, or
-- a list of one dict, of which the other dict has one at that key too, loses what both have.
unfoldable mutual
  unfolding entry

  pub remove_intersect : Fields → Fields → Fields
  remove_intersect end gs = end
  remove_intersect (field k v fs) gs =
      let rest = remove_intersect fs gs in
      let shrunk : Value → Value = shrink v in entry k v shrunk (get_item gs k) rest

  pub shrink : Value → Value → Value
  shrink (mapping fs) w = elim w [ mapping gs ↦ mapping (remove_intersect fs gs) | _ ↦ mapping fs ]
  shrink (seq (cons (mapping fs) nil)) w =
      let left = remove_intersect fs in
      elim w [
        | seq (cons (mapping gs) nil) ↦
            seq (elim (left gs) [ end ↦ nil | field k v hs ↦ cons (mapping (field k v hs)) nil ])
        | _ ↦ seq (cons (mapping fs) nil)
      ]
  shrink v w = v

-- The pairs of a requirement type and a resource, in the order of the loops.
abbrev pub resource_paths : List (String × String)
resource_paths =
    ("limits", "cpu") ∷ ("limits", "memory") ∷ ("requests", "cpu") ∷ ("requests", "memory") ∷ []

unfoldable pub is_key_error : Error → Bool
is_key_error key_error = true
is_key_error _ = false

-- What the `except` clause makes of a step: a missing key ends the steps, and the document stays as
-- it is by then.
unfoldable pub unless_missing : Result Value → Fields → (Value → Result Fields) → Result Fields
unfolding is_key_error
unless_missing (ok v) app_config next = next v
unless_missing (raise e) app_config next = if is_key_error e then ok app_config else raise e

-- What is done with a dict, where a value is one.
unfoldable pub in_mapping : Value → Fields → (Fields → Fields) → Fields
in_mapping (mapping rs) app_config change = change rs
in_mapping _ app_config change = app_config

-- `del app_config["resources"][requirement_type][resource]`
unfoldable pub remove_resource : Fields → String → String → Fields
unfolding remove_item in_mapping
remove_resource app_config requirement_type resource =
    in_mapping (get_or_null app_config "resources") app_config (λ rs.
      in_mapping (get_or_null rs requirement_type) app_config (λ r.
        set_item app_config "resources"
          (mapping (set_item rs requirement_type (mapping (remove_item r resource))))))

-- The `try` of `_strip_v3_defaults`, from the pairs of the loops on.
unfoldable pub without_undefined : List (String × String) → Fields → Result Fields
unfolding item remove_item remove_resource unless_missing
without_undefined [] app_config =
    unless_missing (get_item app_config "resources") app_config
      (λ rs. ok (if truthy rs then app_config else remove_item app_config "resources"))
without_undefined ((requirement_type, resource) ∷ pairs) app_config =
    let removed = without_undefined pairs (remove_resource app_config requirement_type resource) in
    let left = without_undefined pairs app_config in
    let value = (do
      rs ← get_item app_config "resources"
      r ← item rs requirement_type
      item r resource) in
    unless_missing value app_config (λ v. if is_undefined v then removed else left)

-- `dict(entries)` with the entries of a dict behind one that is there.
unfoldable pub add_items : Fields → Fields → Fields
add_items fs end = fs
add_items fs (field k v gs) = add_items (set_item fs k v) gs

-- `_strip_v3_defaults`
unfoldable pub strip_v3_defaults : Fields → Result Fields
unfolding without_undefined remove_intersect add_items
strip_v3_defaults app_config = do
  left ← without_undefined resource_paths app_config
  version ← get_item left "version"
  ok (add_items (field "version" version end) (remove_intersect left v3_defaults))
