-- ===== src/Specs/V3Factory/Ports.antt =====
-- The ports that the ingress items of fiaas_deploy_daemon/specs/v3/factory.py name.
use fiaas_deploy_daemon.Base.{
  ◌≡◌, refl, ap, ◌⊎◌, inl, inr, true, List, [], ◌∷◌, ltb, Bool-cases, length, any, All, type_error,
  ok, >>=-eq-ok, ok-injective, guard-eq-ok,
}
use mathlib.Core.Path.{subst}
use fiaas_deploy_daemon.Base.{raise-ne-ok}
use fiaas_deploy_daemon.Specs.V3Factory.Values.{map_result-All}
use fiaas_deploy_daemon.Specs.V3Factory.IngressItems.{path_mapping, ingress_item, ingress_items}
use fiaas_deploy_daemon.Specs.Models.{IngressPathMappingSpec, IngressItemSpec}
use fiaas_deploy_daemon.Specs.Lookup.{get_key, elements}
use fiaas_deploy_daemon.Base.{ltb, length}
use fiaas_deploy_daemon.Specs.Value.{Value, str, eq_value, truthy}
use fiaas_deploy_daemon.Specs.Lookup.{Lookup, get_key, elements}
use fiaas_deploy_daemon.Specs.Models.{IngressPathMappingSpec, IngressItemSpec}
use fiaas_deploy_daemon.Specs.V3Factory.Values.{get_value, map_result}
use fiaas_deploy_daemon.Specs.V3Factory.IngressItems.{
  put_port, http_ports_from, port_get, resolve_port_number, path_mapping, ingress_item,
  ingress_items, hashable,
}

-- The list has a port whose protocol is HTTP and whose number is `q`.
pub data HasHttpPort (q : Value) : List Lookup → Type 0 where
  here :
      {p : Lookup} {ps : List Lookup} (protocol : Value)
      → get_value p "protocol" ≡ ok protocol
      → eq_value protocol (str "http") ≡ true
      → get_value p "port" ≡ ok q
      → HasHttpPort q (p ∷ ps)
  there : {p : Lookup} {ps : List Lookup} → HasHttpPort q ps → HasHttpPort q (p ∷ ps)

put_port-All :
    (P : Value × Value → Type 0) (k q : Value) (m : List (Value × Value))
    → ((j : Value) → P (j, q))
    → All P m
    → All P (put_port k q m)
unfolding put_port
put_port-All P k q [] hq h = (hq k, tt)
put_port-All P k q ((j, r) ∷ m) hq (p, h) = elim (Bool-cases (eq_value j k)) [
  | inl e ↦ rw e (hq j, h)
  | inr e ↦ rw e (p, put_port-All P k q m hq h)
]

http_ports_from-All :
    (P : Value × Value → Type 0) (ps : List Lookup) (m r : List (Value × Value))
    → ((j q : Value) → HasHttpPort q ps → P (j, q))
    → All P m
    → http_ports_from m ps ≡ ok r
    → All P r
unfolding http_ports_from
http_ports_from-All P [] m r f h e = subst (All P) (ok-injective e) h
http_ports_from-All P (p ∷ ps) m r f h e =
    let (protocol, hp, e1) = >>=-eq-ok (get_value p "protocol") _ e in
    elim (Bool-cases (eq_value protocol (str "http"))) [
      | inl http ↦
          let (next, hn, e2) = >>=-eq-ok _ _ (rw http at e1) in
          let (name, hname, e3) = >>=-eq-ok (get_value p "name") _ hn in
          let (port, hport, e4) = >>=-eq-ok (get_value p "port") _ e3 in
          let (hashes, e5) = guard-eq-ok (hashable name) type_error _ e4 in
          http_ports_from-All P ps next r (λ j q d. f j q (there d))
            (subst (All P) (ok-injective e5)
              (put_port-All P name port m (λ j. f j port (here protocol hp http hport)) h))
            e2
      | inr other ↦ http_ports_from-All P ps m r (λ j q d. f j q (there d)) h (rw other at e1)
    ]

-- A number that `resolve_port_number` may give: that of a listed HTTP port, up to Python's equality.
abbrev pub IsHttpPort : List Lookup → Value → Type 0
IsHttpPort ps v = (q : Value) × HasHttpPort q ps × ((q ≡ v) ⊎ (eq_value q v ≡ true))

module _ (ps : List Lookup) where
  port_get-IsHttpPort :
      (m : List (Value × Value)) (k : Value)
      → All (λ kp. HasHttpPort kp.1 ps) m
      → truthy (port_get m k) ≡ true
      → IsHttpPort ps (port_get m k)
  unfolding port_get
  port_get-IsHttpPort [] k h t = cc
  port_get-IsHttpPort ((j, q) ∷ m) k (p, h) t = elim (Bool-cases (eq_value j k)) [
    | inl e ↦ rw e (q, p, inl refl)
    | inr e ↦ rw e (port_get-IsHttpPort m k h (rw e at t))
  ]

  any-IsHttpPort :
      (m : List (Value × Value)) (k : Value)
      → All (λ kp. HasHttpPort kp.1 ps) m
      → any (λ kp. eq_value kp.1 k) m ≡ true
      → IsHttpPort ps k
  any-IsHttpPort [] k h t = cc
  any-IsHttpPort ((j, q) ∷ m) k (p, h) t = elim (Bool-cases (eq_value q k)) [
    | inl e ↦ (q, p, inr e)
    | inr e ↦ any-IsHttpPort m k h (rw e at t)
  ]

  resolve-IsHttpPort :
      (m : List (Value × Value)) (k v : Value)
      → All (λ kp. HasHttpPort kp.1 ps) m
      → resolve_port_number m k ≡ ok v
      → IsHttpPort ps v
  unfolding resolve_port_number
  resolve-IsHttpPort m k v h e =
      let (hashes, e1) = guard-eq-ok (hashable k) type_error _ e in
      elim (Bool-cases (truthy (port_get m k))) [
        | inl t ↦ subst (IsHttpPort ps) (ok-injective (rw t at e1)) (port_get-IsHttpPort m k h t)
        | inr f ↦ elim (Bool-cases (any (λ kp. eq_value kp.1 k) m)) [
          | inl t ↦ subst (IsHttpPort ps) (ok-injective (rw (f, t) at e1)) (any-IsHttpPort m k h t)
          | inr none_equal ↦ absurd (raise-ne-ok _ _ (rw (f, none_equal) at e1))
        ]
      ]

  path_mapping-IsHttpPort :
      (m : List (Value × Value)) (l : Lookup) (pm : IngressPathMappingSpec Value Value)
      → All (λ kp. HasHttpPort kp.1 ps) m
      → path_mapping m l ≡ ok pm
      → IsHttpPort ps pm.port
  unfolding path_mapping
  path_mapping-IsHttpPort m l pm h e =
      let (path, hp, e1) = >>=-eq-ok (get_value l "path") _ e in
      let (wanted, hw, e2) = >>=-eq-ok (get_value l "port") _ e1 in
      let (port, hr, e3) = >>=-eq-ok (resolve_port_number m wanted) _ e2 in
      subst (IsHttpPort ps)
        (ap (λ (x : IngressPathMappingSpec Value Value). x.port) (ok-injective e3))
        (resolve-IsHttpPort m wanted port h hr)

  abbrev pub HasHttpPorts : IngressItemSpec Value Value Value Value → Type 0
  HasHttpPorts item = All (λ pm. IsHttpPort ps pm.port) item.pathmappings

  ingress_item-HasHttpPorts :
      (m : List (Value × Value)) (l : Lookup) (item : IngressItemSpec Value Value Value Value)
      → All (λ kp. HasHttpPort kp.1 ps) m
      → ingress_item m l ≡ ok item
      → HasHttpPorts item
  unfolding ingress_item
  ingress_item-HasHttpPorts m l item h e =
      let (host, hh, e1) = >>=-eq-ok (get_value l "host") _ e in
      let (p, hp, e2) = >>=-eq-ok (get_key l "paths") _ e1 in
      let (annotations, ha, e3) = >>=-eq-ok (get_value l "annotations") _ e2 in
      let (paths, hs, e4) = >>=-eq-ok (elements p) _ e3 in
      let (pms, hm, e5) = >>=-eq-ok (map_result (path_mapping m) paths) _ e4 in
      subst HasHttpPorts (ok-injective e5) (
        map_result-All (λ pm. IsHttpPort ps pm.port) (path_mapping m) paths pms
          (λ x y hy. path_mapping-IsHttpPort m x y h hy) hm)

-- In the result of a successful `_ingress_items`, every path leads to the number of a port that the
-- document's port list declares with the protocol http, whether the document gave that port by name
-- or by number.
pub ingress_items-HasHttpPorts :
    (ingress ports : Lookup) (ps : List Lookup)
    (items : List (IngressItemSpec Value Value Value Value))
    → elements ports ≡ ok ps
    → ingress_items ingress ports ≡ ok items
    → All (HasHttpPorts ps) items
unfolding ingress_items
ingress_items-HasHttpPorts ingress ports ps items hps e =
    let (m, hm, e1) = >>=-eq-ok (http_ports_from [] ps) _ (rw hps at e) in
    let known = http_ports_from-All (λ kp. HasHttpPort kp.1 ps) ps [] m (λ j q d. d) tt hm in
    elim (Bool-cases (ltb 0 (length m))) [
      | inl some_port ↦
          let (is, hi, e2) = >>=-eq-ok (elements ingress) _ (rw some_port at e1) in
          map_result-All (HasHttpPorts ps) (ingress_item m) is items
            (λ x y hy. ingress_item-HasHttpPorts ps m x y known hy) e2
      | inr no_port ↦ subst (All (HasHttpPorts ps)) (ok-injective (rw no_port at e1)) tt
    ]
