-- ===== src/Specs/Value.antt =====
-- The values of a parsed fiaas.yml document, as Python sees them. Texts are the only keys, and
-- there are no floats and no negative numbers. `undefined` is the object
-- RESOURCE_UNDEFINED_UGLYHACK of fiaas_deploy_daemon/specs/v2/transformer.py.
use Prim.Native.String.{compare}
use Prim.Native.Nat.{Ordering}
use fiaas_deploy_daemon.Base.{
  ℕ, suc, zero, String, Bool, true, false, not, ◌&&◌, Option, none, some, List, [], ◌∷◌, ◌==◌,
  if◌then◌else◌, Result, ok, raise, ltb, eqb, type_error, index_error, key_error, length,
  attribute_error, map,
}

mutual
  pub data Value : Type 0 where
    null : Value
    bool : Bool → Value
    num : ℕ → Value
    str : String → Value
    seq : Items → Value
    mapping : Fields → Value
    undefined : Value

  pub data Items : Type 0 where
    nil : Items
    cons : Value → Items → Items

  pub data Fields : Type 0 where
    end : Fields
    field : String → Value → Fields → Fields

abbrev pub items : Items → List Value
items nil = []
items (cons v vs) = v ∷ items vs

abbrev pub from_items : List Value → Items
from_items [] = nil
from_items (v ∷ vs) = cons v (from_items vs)

abbrev pub fields : Fields → List (String × Value)
fields end = []
fields (field k v fs) = (k, v) ∷ fields fs

abbrev pub from_fields : List (String × Value) → Fields
from_fields [] = end
from_fields ((k, v) ∷ fs) = field k v (from_fields fs)

-- `d.get(key)`
abbrev pub get_or_null : Fields → String → Value
get_or_null end k = null
get_or_null (field j v fs) k = if j == k then v else get_or_null fs k

-- `d[key]`
abbrev pub get_item : Fields → String → Result Value
get_item end k = raise key_error
get_item (field j v fs) k = if j == k then ok v else get_item fs k

-- `d[key] = value`
abbrev pub set_item : Fields → String → Value → Fields
set_item end k w = field k w end
set_item (field j v fs) k w = if j == k then field j w fs else field j v (set_item fs k w)

-- The truth of a value in a condition.
abbrev pub truthy : Value → Bool
truthy null = false
truthy (bool b) = b
truthy (num n) = not (eqb n 0)
truthy (str s) = not (s == "")
truthy (seq nil) = false
truthy (seq (cons _ _)) = true
truthy (mapping end) = false
truthy (mapping (field _ _ _)) = true
truthy undefined = true

abbrev pub is_null : Value → Bool
is_null null = true
is_null _ = false

abbrev pub is_mapping : Value → Bool
is_mapping (mapping _) = true
is_mapping _ = false

abbrev pub is_seq : Value → Bool
is_seq (seq _) = true
is_seq _ = false

abbrev pub is_undefined : Value → Bool
is_undefined undefined = true
is_undefined _ = false

abbrev pub chars : String → List Value
chars String.[] = []
chars (String.◌∷◌ c s) = str (String.◌∷◌ c String.[]) ∷ chars s

-- `len(value)`
abbrev pub py_len : Value → Result ℕ
py_len (str s) = ok (length (chars s))
py_len (seq vs) = ok (length (items vs))
py_len (mapping fs) = ok (length (fields fs))
py_len _ = raise type_error

abbrev pub nth : List Value → ℕ → Result Value
nth [] i = raise index_error
nth (v ∷ vs) zero = ok v
nth (v ∷ vs) (suc i) = nth vs i

-- `value[idx]` at a number; every key of a dict is a text.
abbrev pub at : Value → ℕ → Result Value
at (str s) i = nth (chars s) i
at (seq vs) i = nth (items vs) i
at (mapping fs) i = raise key_error
at _ i = raise type_error

-- `value.get(key)`
abbrev pub dict_get : Value → String → Result Value
dict_get (mapping fs) k = ok (get_or_null fs k)
dict_get _ k = raise attribute_error

-- `iter(value)` where the keys are then read from the value: a list or a text with an element fails
-- at the first of them.
abbrev pub dict_keys : Value → Result (List String)
dict_keys (mapping fs) = ok (map (λ kv. kv.0) (fields fs))
dict_keys (seq nil) = ok []
dict_keys (str s) = if s == "" then ok [] else raise attribute_error
dict_keys (seq (cons _ _)) = raise attribute_error
dict_keys _ = raise type_error

abbrev pub number? : Value → Option ℕ
number? (bool b) = some (if b then 1 else 0)
number? (num n) = some n
number? _ = none

abbrev lt_number : Option ℕ → Option ℕ → Result Bool
lt_number (some a) (some b) = ok (ltb a b)
lt_number _ _ = raise type_error

-- `a < b`. Lists and texts are not compared by the program with a default of this type.
abbrev pub lt_value : Value → Value → Result Bool
lt_value (str s) (str t) = ok (elim (compare s t) [ Ordering.lt ↦ true | _ ↦ false ])
lt_value v w = lt_number (number? v) (number? w)

abbrev eq_number : Option ℕ → Option ℕ → Bool
eq_number (some a) (some b) = eqb a b
eq_number _ _ = false

-- `a == b`. Two dicts are equal if they have as many entries and each of the first is in the
-- second.
unfoldable mutual
  pub eq_value : Value → Value → Bool
  eq_value null w = is_null w
  eq_value (bool b) w = eq_number (some (if b then 1 else 0)) (number? w)
  eq_value (num n) w = eq_number (some n) (number? w)
  eq_value (str s) w = elim w [ str t ↦ s == t | _ ↦ false ]
  eq_value (seq vs) w = elim w [ seq ws ↦ eq_items vs ws | _ ↦ false ]
  eq_value (mapping fs) w = elim w [
    | mapping gs ↦ eqb (length (fields fs)) (length (fields gs)) && in_fields fs gs
    | _ ↦ false
  ]
  eq_value undefined w = is_undefined w

  eq_items : Items → Items → Bool
  eq_items nil ws = elim ws [ nil ↦ true | cons _ _ ↦ false ]
  eq_items (cons v vs) ws = elim ws [ nil ↦ false | cons w rest ↦ eq_value v w && eq_items vs rest ]

  in_fields : Fields → Fields → Bool
  in_fields end gs = true
  in_fields (field k v fs) gs =
      (elim (get_item gs k) [ ok w ↦ eq_value v w | _ ↦ false ]) && in_fields fs gs
