-- ===== src/Specs/Lookup/Laws.antt =====
-- Reading along a path of keys with fiaas_deploy_daemon/specs/lookup.py.
use fiaas_deploy_daemon.Base.{◌≡◌, refl, String, List, [], ◌∷◌, if◌then◌else◌, Result, ok, ◌>>=◌}
use fiaas_deploy_daemon.Specs.Value.{
  Value, null, bool, num, str, seq, mapping, undefined, Fields, get_or_null, is_null,
}
use fiaas_deploy_daemon.Specs.Lookup.{Lookup, leaf, lookup_mapping, choose, get_key}

-- `lookup[k1][k2]…`
abbrev pub get_path : Lookup → List String → Result Lookup
get_path l [] = ok l
get_path l (k ∷ ks) = do m ← get_key l k; get_path m ks

-- What a document holds at a path, `null` where it has nothing.
abbrev pub value_at : Value → List String → Value
value_at v [] = v
value_at (mapping fs) (k ∷ ks) = value_at (get_or_null fs k) ks
value_at _ (k ∷ ks) = null

abbrev pub IsScalar : Value → Type 0
IsScalar (seq _) = ⊥
IsScalar (mapping _) = ⊥
IsScalar _ = Unit

abbrev pub IsMappingOrNull : Value → Type 0
IsMappingOrNull null = Unit
IsMappingOrNull (mapping _) = Unit
IsMappingOrNull _ = ⊥

-- Along the path the defaults are dicts, up to a scalar, and the configuration has a dict or nothing
-- wherever the defaults have a dict.
abbrev pub Agrees : Value → Value → List String → Type 0
Agrees config default_value [] = IsScalar default_value
Agrees config (mapping defaults) (k ∷ ks) =
    IsMappingOrNull config × Agrees (value_at config (k ∷ [])) (get_or_null defaults k) ks
Agrees config _ (k ∷ ks) = ⊥

abbrev pub overlay : Value → Value → Value
overlay config default_value = if is_null config then default_value else config

choose-scalar : (c d : Value) → IsScalar d → choose c d ≡ ok (leaf (overlay c d))
unfolding choose
choose-scalar c null h = refl
choose-scalar c (bool b) h = refl
choose-scalar c (num n) h = refl
choose-scalar c (str s) h = refl
choose-scalar c undefined h = refl
choose-scalar c (seq vs) h = absurd h
choose-scalar c (mapping fs) h = absurd h

choose-mapping :
    (c : Value) (ds : Fields) → IsMappingOrNull c → choose c (mapping ds) ≡ ok (lookup_mapping c ds)
unfolding choose
choose-mapping null ds h = refl
choose-mapping (mapping Fields.end) ds h = refl
choose-mapping (mapping (Fields.field k v fs)) Fields.end h = refl
choose-mapping (mapping (Fields.field k v fs)) (Fields.field _ _ _) h = refl
choose-mapping (bool b) ds h = absurd h
choose-mapping (num n) ds h = absurd h
choose-mapping (str s) ds h = absurd h
choose-mapping (seq vs) ds h = absurd h
choose-mapping undefined ds h = absurd h

get_key-mapping :
    (c : Value) (ds : Fields) (k : String)
    → IsMappingOrNull c
    → get_key (lookup_mapping c ds) k ≡ choose (value_at c (k ∷ [])) (get_or_null ds k)
unfolding get_key
get_key-mapping null ds k h = refl
get_key-mapping (mapping Fields.end) ds k h = refl
get_key-mapping (mapping (Fields.field j v fs)) ds k h = refl
get_key-mapping (bool b) ds k h = absurd h
get_key-mapping (num n) ds k h = absurd h
get_key-mapping (str s) ds k h = absurd h
get_key-mapping (seq vs) ds k h = absurd h
get_key-mapping undefined ds k h = absurd h

value_at-null : (ks : List String) → value_at null ks ≡ null
value_at-null [] = refl
value_at-null (k ∷ ks) = refl

value_at-cons :
    (c : Value) (k : String) (ks : List String)
    → IsMappingOrNull c
    → value_at (value_at c (k ∷ [])) ks ≡ value_at c (k ∷ ks)
value_at-cons null k ks m = value_at-null ks
value_at-cons (mapping fs) k ks m = refl
value_at-cons (bool b) k ks m = absurd m
value_at-cons (num n) k ks m = absurd m
value_at-cons (str s) k ks m = absurd m
value_at-cons (seq vs) k ks m = absurd m
value_at-cons undefined k ks m = absurd m

choose-get_path :
    (ks : List String) (c d : Value)
    → Agrees c d ks
    → (choose c d >>= λ l. get_path l ks) ≡ ok (leaf (overlay (value_at c ks) (value_at d ks)))
choose-get_path [] c d h = rw (choose-scalar c d h)
choose-get_path (k ∷ ks) c (mapping ds) (m, h) =
    rw (choose-mapping c ds m, get_key-mapping c ds k m, ← value_at-cons c k ks m)
      (choose-get_path ks (value_at c (k ∷ [])) (get_or_null ds k) h)
choose-get_path (k ∷ ks) c null h = absurd h
choose-get_path (k ∷ ks) c (bool b) h = absurd h
choose-get_path (k ∷ ks) c (num b) h = absurd h
choose-get_path (k ∷ ks) c (str b) h = absurd h
choose-get_path (k ∷ ks) c (seq b) h = absurd h
choose-get_path (k ∷ ks) c undefined h = absurd h

-- Read along a path of keys that leads to a scalar default, where the configuration has a dict or
-- nothing wherever the defaults have a dict on that path, a lookup gives the configuration's value
-- at the path if it is present and not null, and the default at the path otherwise.
pub get_path-overlay :
    (config : Value) (defaults : Fields) (k : String) (ks : List String)
    → Agrees config (mapping defaults) (k ∷ ks)
    → get_path (lookup_mapping config defaults) (k ∷ ks)
      ≡ ok (leaf (overlay (value_at config (k ∷ ks)) (value_at (mapping defaults) (k ∷ ks))))
get_path-overlay config defaults k ks (m, h) =
    rw (get_key-mapping config defaults k m, ← value_at-cons config k ks m)
      (choose-get_path ks _ (get_or_null defaults k) h)
