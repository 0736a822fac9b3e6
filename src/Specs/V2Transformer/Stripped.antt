-- ===== src/Specs/V2Transformer/Stripped.antt =====
-- That `_strip_v3_defaults` of fiaas_deploy_daemon/specs/v2/transformer.py keeps the version of a document.
use mathlib.Core.Path.{subst}
use fiaas_deploy_daemon.Specs.SpecFactory.{version_of}
use fiaas_deploy_daemon.Base.{
  arith, ◌>>=◌, if◌then◌else◌, String, ◌≡◌, refl, sym, ◌∙◌, inl, inr, false, List, [], ◌∷◌, eq_iff,
  ◌==◌, Bool-cases, Result, ok, raise, >>=-eq-ok, ok-injective, raise-ne-ok,
}
use fiaas_deploy_daemon.Specs.V2Transformer.Strip.{
  resource_paths, strip_v3_defaults, item, entry, remove_intersect, kept, without_undefined,
  remove_resource, remove_item, unless_missing, add_items, shrink, in_mapping, is_key_error,
}
use fiaas_deploy_daemon.Specs.Defaults.{v3_defaults}
use fiaas_deploy_daemon.Specs.Value.{
  get_or_null, Value, null, bool, num, str, seq, mapping, undefined, Fields, end, field, get_item,
  truthy, set_item, eq_value, is_undefined,
}

abbrev pub NoVersion : Fields → Type 0
NoVersion end = Unit
NoVersion (field k v fs) = (k == "version" ≡ false) × NoVersion fs

abbrev pub IsCurrent : Fields → Type 0
IsCurrent end = ⊥
IsCurrent (field k v fs) = (k ≡ "version") × (v ≡ num 3) × NoVersion fs

pub IsCurrent-version : (fs : Fields) → IsCurrent fs → version_of fs ≡ num 3
IsCurrent-version end u = absurd u
IsCurrent-version (field k v fs) (hk, hv, u) = rw (hk, hv)

set_item-NoVersion :
    (fs : Fields) (k : String) (w : Value)
    → (k == "version") ≡ false
    → NoVersion fs
    → NoVersion (set_item fs k w)
set_item-NoVersion end k w other u = (other, tt)
set_item-NoVersion (field j v fs) k w other (h, u) = elim (Bool-cases (j == k)) [
  | inl e ↦ rw e (h, u)
  | inr e ↦ rw e (h, set_item-NoVersion fs k w other u)
]

set_item-IsCurrent :
    (fs : Fields) (k : String) (w : Value)
    → (k == "version") ≡ false
    → IsCurrent fs
    → IsCurrent (set_item fs k w)
set_item-IsCurrent end k w other u = absurd u
set_item-IsCurrent (field j v fs) k w other (h, hv, u) =
    let apart : (j == k) ≡ false = ground (arith, eq_iff j k, eq_iff k "version", h, other) in
    rw apart (h, hv, set_item-NoVersion fs k w other u)

remove_item-NoVersion : (fs : Fields) (k : String) → NoVersion fs → NoVersion (remove_item fs k)
unfolding remove_item
remove_item-NoVersion end k u = tt
remove_item-NoVersion (field j v fs) k (h, u) = elim (Bool-cases (j == k)) [
  | inl e ↦ rw e u
  | inr e ↦ rw e (h, remove_item-NoVersion fs k u)
]

remove_item-IsCurrent :
    (fs : Fields) (k : String)
    → (k == "version") ≡ false
    → IsCurrent fs
    → IsCurrent (remove_item fs k)
unfolding remove_item
remove_item-IsCurrent end k other u = absurd u
remove_item-IsCurrent (field j v fs) k other (h, hv, u) =
    let apart : (j == k) ≡ false = ground (arith, eq_iff j k, eq_iff k "version", h, other) in
    rw apart (h, hv, remove_item-NoVersion fs k u)

in_mapping-IsCurrent :
    (v : Value) (fs : Fields) (f : Fields → Fields)
    → IsCurrent fs
    → ((gs : Fields) → IsCurrent (f gs))
    → IsCurrent (in_mapping v fs f)
unfolding in_mapping
in_mapping-IsCurrent null fs f u h = u
in_mapping-IsCurrent (bool b) fs f u h = u
in_mapping-IsCurrent (num n) fs f u h = u
in_mapping-IsCurrent (str s) fs f u h = u
in_mapping-IsCurrent (seq vs) fs f u h = u
in_mapping-IsCurrent (mapping gs) fs f u h = h gs
in_mapping-IsCurrent undefined fs f u h = u

remove_resource-IsCurrent :
    (fs : Fields) (t r : String) → IsCurrent fs → IsCurrent (remove_resource fs t r)
unfolding remove_resource
remove_resource-IsCurrent fs t r u =
    let changed : Fields → Fields → Fields =
      (λ rs gs. set_item fs "resources" (mapping (set_item rs t (mapping (remove_item gs r))))) in
    in_mapping-IsCurrent (get_or_null fs "resources") fs
      (λ rs. in_mapping (get_or_null rs t) fs (changed rs)) u
      (λ rs. in_mapping-IsCurrent (get_or_null rs t) fs (changed rs) u (λ gs.
        set_item-IsCurrent fs "resources" (mapping (set_item rs t (mapping (remove_item gs r))))
          refl u))

unless_missing-IsCurrent :
    (v : Result Value) (fs gs : Fields) (next : Value → Result Fields)
    → IsCurrent fs
    → ((w : Value) → next w ≡ ok gs → IsCurrent gs)
    → unless_missing v fs next ≡ ok gs
    → IsCurrent gs
unfolding unless_missing
unless_missing-IsCurrent (ok v) fs gs next u h e = h v e
unless_missing-IsCurrent (raise d) fs gs next u h e = elim (Bool-cases (is_key_error d)) [
  | inl t ↦ subst IsCurrent (ok-injective (rw t at e)) u
  | inr f ↦ absurd (raise-ne-ok d gs (rw f at e))
]

without_undefined-IsCurrent :
    (pairs : List (String × String)) (fs gs : Fields)
    → IsCurrent fs
    → without_undefined pairs fs ≡ ok gs
    → IsCurrent gs
unfolding without_undefined
without_undefined-IsCurrent [] fs gs u e =
    unless_missing-IsCurrent (get_item fs "resources") fs gs
      (λ rs. ok (if truthy rs then fs else remove_item fs "resources")) u
      (λ rs h. elim (Bool-cases (truthy rs)) [
        | inl t ↦ subst IsCurrent (ok-injective (rw t at h)) u
        | inr f ↦
            subst IsCurrent (ok-injective (rw f at h)) (remove_item-IsCurrent fs "resources" refl u)
      ])
      e
without_undefined-IsCurrent ((t, r) ∷ pairs) fs gs u e =
    unless_missing-IsCurrent (get_item fs "resources" >>= (λ rs. item rs t >>= (λ x. item x r))) fs
      gs
      (λ v.
        if is_undefined v
        then without_undefined pairs (remove_resource fs t r)
        else without_undefined pairs fs)
      u
      (λ v h. elim (Bool-cases (is_undefined v)) [
        | inl b ↦
            without_undefined-IsCurrent pairs (remove_resource fs t r) gs
              (remove_resource-IsCurrent fs t r u) (rw b at h)
        | inr b ↦ without_undefined-IsCurrent pairs fs gs u (rw b at h)
      ])
      e

kept-NoVersion :
    (k : String) (v : Value) (fs : Fields)
    → (k == "version") ≡ false
    → NoVersion fs
    → NoVersion (kept k v fs)
unfolding kept
kept-NoVersion k v fs h u = elim (Bool-cases (truthy v)) [ inl e ↦ rw e (h, u) | inr e ↦ rw e u ]

entry-NoVersion :
    (k : String) (v : Value) (f : Value → Value) (r : Result Value) (fs : Fields)
    → (k == "version") ≡ false
    → NoVersion fs
    → NoVersion (entry k v f r fs)
unfolding entry
entry-NoVersion k v f (raise e) fs h u = kept-NoVersion k v fs h u
entry-NoVersion k v f (ok w) fs h u = elim (Bool-cases (eq_value w v)) [
  | inl same ↦ rw same u
  | inr other ↦ rw other (kept-NoVersion k (f w) fs h u)
]

remove_intersect-NoVersion : (fs gs : Fields) → NoVersion fs → NoVersion (remove_intersect fs gs)
unfolding remove_intersect
remove_intersect-NoVersion end gs u = tt
remove_intersect-NoVersion (field k v fs) gs (h, u) =
    entry-NoVersion k v (shrink v) (get_item gs k) (remove_intersect fs gs) h
      (remove_intersect-NoVersion fs gs u)

add_items-IsCurrent : (fs gs : Fields) → IsCurrent fs → NoVersion gs → IsCurrent (add_items fs gs)
unfolding add_items
add_items-IsCurrent fs end u w = u
add_items-IsCurrent fs (field k v gs) u (h, w) =
    add_items-IsCurrent (set_item fs k v) gs (set_item-IsCurrent fs k v h u) w

stripped-IsCurrent :
    (left : Fields) (v : Value)
    → IsCurrent left
    → get_item left "version" ≡ ok v
    → IsCurrent (add_items (field "version" v end) (remove_intersect left v3_defaults))
unfolding remove_intersect entry eq_value
stripped-IsCurrent end v u h = absurd u
stripped-IsCurrent (field k w rest) v (hk, hw, u) h =
    let three : v ≡ num 3 = ok-injective (sym (rw hk at h)) ∙ hw in
    rw (hk, hw)
      (add_items-IsCurrent (field "version" v end) (remove_intersect rest v3_defaults)
        (refl, three, tt) (remove_intersect-NoVersion rest v3_defaults u))

pub strip_v3_defaults-IsCurrent :
    (fs gs : Fields) → IsCurrent fs → strip_v3_defaults fs ≡ ok gs → IsCurrent gs
unfolding strip_v3_defaults
strip_v3_defaults-IsCurrent fs gs u e =
    let (left, hl, e1) = >>=-eq-ok (without_undefined resource_paths fs) _ e in
    let (version, hv, e2) = >>=-eq-ok (get_item left "version") _ e1 in
    subst IsCurrent (ok-injective e2)
      (stripped-IsCurrent left version (without_undefined-IsCurrent resource_paths fs left u hl) hv)
