-- ===== src/Specs/V2Transformer/Version.antt =====
-- The version of what fiaas_deploy_daemon/specs/v2/transformer.py makes of a document.
use mathlib.Core.Path.{subst}
use fiaas_deploy_daemon.Base.{
  String, ◌≡◌, refl, inl, inr, false, List, [], ◌∷◌, arith, eq_iff, ◌==◌, Bool-cases, All, ok,
  >>=-eq-ok, ok-injective,
}
use fiaas_deploy_daemon.Specs.Value.{Value, num, mapping, Fields, truthy}
use fiaas_deploy_daemon.Specs.Lookup.{Lookup, make_mapping, get_key, elements}
use fiaas_deploy_daemon.Specs.Defaults.{v2_defaults}
use fiaas_deploy_daemon.Specs.V3Factory.Values.{get_value}
use fiaas_deploy_daemon.Specs.V2Transformer.Drafting.{
  Draft, read, given, dict, Drafts, no_drafts, draft, set_draft, set_path, sub_drafts, get_path,
  update_drafts,
}
use fiaas_deploy_daemon.Specs.V2Transformer.{
  new_config, first_config, copy_values, copy_mapping, set_minimum, set_requirements, ports_config,
  both_checks, port_entries, resource_requirement,
}

-- No entry has the key version.
abbrev pub Unversioned : Drafts → Type 0
Unversioned no_drafts = Unit
Unversioned (draft k d ds) = (k == "version" ≡ false) × Unversioned ds

-- The first entry is the version, which is 3, and no other is.
abbrev pub IsVersion3 : Drafts → Type 0
IsVersion3 no_drafts = ⊥
IsVersion3 (draft k d ds) = (k ≡ "version") × (d ≡ given (num 3)) × Unversioned ds

set_draft-Unversioned :
    (ds : Drafts) (k : String) (w : Draft)
    → (k == "version") ≡ false
    → Unversioned ds
    → Unversioned (set_draft ds k w)
unfolding set_draft
set_draft-Unversioned no_drafts k w other u = (other, tt)
set_draft-Unversioned (draft j v ds) k w other (h, u) = elim (Bool-cases (j == k)) [
  | inl e ↦ rw e (h, u)
  | inr e ↦ rw e (h, set_draft-Unversioned ds k w other u)
]

set_draft-IsVersion3 :
    (ds : Drafts) (k : String) (w : Draft)
    → (k == "version") ≡ false
    → IsVersion3 ds
    → IsVersion3 (set_draft ds k w)
unfolding set_draft
set_draft-IsVersion3 no_drafts k w other u = absurd u
set_draft-IsVersion3 (draft j v ds) k w other (h, hv, u) =
    let apart : (j == k) ≡ false = ground (arith, eq_iff j k, eq_iff k "version", h, other) in
    rw apart (h, hv, set_draft-Unversioned ds k w other u)

-- `_set` sets an entry at its first key.
abbrev first_key : List String → String → String
first_key [] last = last
first_key (k ∷ keys) last = k

set_path-IsVersion3 :
    (ds r : Drafts) (keys : List String) (last : String) (w : Draft)
    → (first_key keys last == "version") ≡ false
    → IsVersion3 ds
    → set_path ds keys last w ≡ ok r
    → IsVersion3 r
unfolding set_path
set_path-IsVersion3 ds r [] last w other u e =
    subst IsVersion3 (ok-injective e) (set_draft-IsVersion3 ds last w other u)
set_path-IsVersion3 ds r (k ∷ keys) last w other u e =
    let (es, he, e1) = >>=-eq-ok (sub_drafts ds k) _ e in
    let (changed, hc, e2) = >>=-eq-ok (set_path es keys last w) _ e1 in
    subst IsVersion3 (ok-injective e2) (set_draft-IsVersion3 ds k (dict changed) other u)

copy_values-IsVersion3 :
    (ms : List (List String × (List String × String))) (l : Lookup) (ds r : Drafts)
    → All (λ m. (first_key m.1.0 m.1.1 == "version") ≡ false) ms
    → IsVersion3 ds
    → copy_values ms l ds ≡ ok r
    → IsVersion3 r
unfolding copy_values
copy_values-IsVersion3 [] l ds r others u e = subst IsVersion3 (ok-injective e) u
copy_values-IsVersion3 ((old, (keys, last)) ∷ ms) l ds r (other, others) u e =
    let (value, hv, e1) = >>=-eq-ok (get_path l old) _ e in
    let (changed, hc, e2) = >>=-eq-ok (set_path ds keys last (read value)) _ e1 in
    copy_values-IsVersion3 ms l changed r others
      (set_path-IsVersion3 ds changed keys last (read value) other u hc) e2

set_minimum-IsVersion3 :
    (l : Lookup) (ds r : Drafts) → IsVersion3 ds → set_minimum l ds ≡ ok r → IsVersion3 r
unfolding set_minimum
set_minimum-IsVersion3 l ds r u e =
    let (autoscaler, ha, e1) = >>=-eq-ok (get_key l "autoscaler") _ e in
    let (enabled, he, e2) = >>=-eq-ok (get_value autoscaler "enabled") _ e1 in
    elim (Bool-cases (truthy enabled)) [
      | inl t ↦
          let (least, hl, e3) = >>=-eq-ok (get_key autoscaler "min_replicas") _ (rw t at e2) in
          set_path-IsVersion3 ds r ("replicas" ∷ []) "minimum" (read least) refl u e3
      | inr f ↦ subst IsVersion3 (ok-injective (rw f at e2)) u
    ]

set_requirements-IsVersion3 :
    (types : List String) (l : Lookup) (ds r : Drafts)
    → IsVersion3 ds
    → set_requirements types l ds ≡ ok r
    → IsVersion3 r
unfolding set_requirements
set_requirements-IsVersion3 [] l ds r u e = subst IsVersion3 (ok-injective e) u
set_requirements-IsVersion3 (t ∷ types) l ds r u e =
    let (requirement, hr, e1) = >>=-eq-ok (get_path l ("resources" ∷ t ∷ [])) _ e in
    let (resources, hs, e2) = >>=-eq-ok (resource_requirement requirement) _ e1 in
    let (changed, hc, e3) = >>=-eq-ok (set_path ds ("resources" ∷ []) t resources) _ e2 in
    set_requirements-IsVersion3 types l changed r
      (set_path-IsVersion3 ds changed ("resources" ∷ []) t resources refl u hc) e3

update_drafts-IsVersion3 :
    (ds : Drafts) (es : List (String × Draft))
    → All (λ kd. (kd.0 == "version") ≡ false) es
    → IsVersion3 ds
    → IsVersion3 (update_drafts ds es)
unfolding update_drafts
update_drafts-IsVersion3 ds [] others u = u
update_drafts-IsVersion3 ds ((k, d) ∷ es) (other, others) u =
    update_drafts-IsVersion3 (set_draft ds k d) es others (set_draft-IsVersion3 ds k d other u)

first_config-IsVersion3 :
    (l : Lookup) (liveness readiness : Draft) (r : Drafts)
    → first_config l liveness readiness ≡ ok r
    → IsVersion3 r
unfolding first_config
first_config-IsVersion3 l liveness readiness r e =
    let (replicas, hr, e1) = >>=-eq-ok (get_key l "replicas") _ e in
    let (threshold, ht, e2) =
      >>=-eq-ok (get_path l ("autoscaler" ∷ "cpu_threshold_percentage" ∷ [])) _ e1 in
    subst IsVersion3 (ok-injective e2) (refl, refl, (refl, (refl, tt)))

ports_config-keys :
    (l : Lookup) (host : Value) (es : List (String × Draft))
    → ports_config l host ≡ ok es
    → All (λ kd. (kd.0 == "version") ≡ false) es
unfolding ports_config
ports_config-keys l host es e =
    let (ports, hp, e1) = >>=-eq-ok (elements l) _ e in
    let (entries, he, e2) = >>=-eq-ok (port_entries ports) _ e1 in
    subst (All (λ kd. (kd.0 == "version") ≡ false)) (ok-injective e2) (refl, (refl, tt))

pub new_config-IsVersion3 : (c : Fields) (r : Drafts) → new_config c ≡ ok r → IsVersion3 r
unfolding new_config
new_config-IsVersion3 c r e =
    let (l, hl, e1) = >>=-eq-ok (make_mapping (mapping c) v2_defaults) _ e in
    let (checks, hc, e2) = >>=-eq-ok (both_checks l) _ e1 in
    let (first, hf, e3) = >>=-eq-ok (first_config l checks.0 checks.1) _ e2 in
    let (copied, hd, e4) = >>=-eq-ok (copy_values copy_mapping l first) _ e3 in
    let (scaled, hs, e5) = >>=-eq-ok (set_minimum l copied) _ e4 in
    let u : IsVersion3 scaled =
      set_minimum-IsVersion3 l copied scaled
        (copy_values-IsVersion3 copy_mapping l first copied (refl, (refl, tt))
          (first_config-IsVersion3 l checks.0 checks.1 first hf) hd)
        hs in
    let (limited, hm, e6) =
      >>=-eq-ok
        (set_requirements ("limits" ∷ "requests" ∷ []) l
          (set_draft scaled "resources" (dict no_drafts)))
        _ e5 in
    let (ports, hp, e7) = >>=-eq-ok (get_key l "ports") _ e6 in
    let (host, hh, e8) = >>=-eq-ok (get_value l "host") _ e7 in
    let (entries, hn, e9) = >>=-eq-ok (ports_config ports host) _ e8 in
    subst IsVersion3 (ok-injective e9) (
      update_drafts-IsVersion3 limited entries (ports_config-keys ports host entries hn) (
        set_requirements-IsVersion3 ("limits" ∷ "requests" ∷ []) l
          (set_draft scaled "resources" (dict no_drafts)) limited
          (set_draft-IsVersion3 scaled "resources" (dict no_drafts) refl u) hm))
