-- ===== src/Deployer/Kubernetes/Service/Merged.antt =====
-- The ports that `_merge_ports` of fiaas_deploy_daemon/deployer/kubernetes/service.py makes.
use fiaas_deploy_daemon.Base.{
  String, ◌≡◌, refl, ap, ◌≢◌, ◌⊎◌, inl, inr, false, none, some, List, [], ◌∷◌, ◌++◌, arith, eq_iff,
  ◌==◌, Bool-cases, All,
}
use fiaas_deploy_daemon.Deployer.Kubernetes.Service.{
  ServicePort, existing_port, keep_node_port, merge_ports,
}

abbrev pub IsUnnamed : List ServicePort → String → Type 0
IsUnnamed ports name = All (λ (p : ServicePort). p.name ≢ name) ports

-- The port is in the list under the name, and none behind it has the name.
abbrev pub IsLast : List ServicePort → String → ServicePort → Type 0
IsLast ports name q =
    (before : List ServicePort) × (after : List ServicePort) × (ports ≡ before ++ (q ∷ after))
    × (q.name ≡ name)
    × IsUnnamed after name

-- A merged port, against the wanted one and the existing ones.
abbrev pub IsMerged : List ServicePort → ServicePort → ServicePort → Type 0
IsMerged existing wanted merged =
    (merged.name ≡ wanted.name)
    × (merged.port ≡ wanted.port)
    × (merged.target_port ≡ wanted.target_port)
    × ((IsUnnamed existing wanted.name × (merged.node_port ≡ wanted.node_port))
        ⊎ ((q : ServicePort) × IsLast existing wanted.name q × (merged.node_port ≡ q.node_port)))

abbrev pub AllPairs :
    (ServicePort → ServicePort → Type 0) → List ServicePort → List ServicePort → Type 0
AllPairs P [] [] = Unit
AllPairs P (x ∷ xs) (y ∷ ys) = P x y × AllPairs P xs ys
AllPairs P _ _ = ⊥

-- What is found under a name.
abbrev Finds : List ServicePort → String → Type 0
Finds ports name =
    (IsUnnamed ports name × (existing_port ports name ≡ none))
    ⊎ ((q : ServicePort) × IsLast ports name q × (existing_port ports name ≡ some q))

existing_port-Finds : (ports : List ServicePort) (name : String) → Finds ports name
unfolding existing_port
existing_port-Finds [] name = inl (tt, refl)
existing_port-Finds (p ∷ ports) name = elim (existing_port-Finds ports name) [
  | inr (q, (before, after, split, same, unnamed), later) ↦
      inr (q, (p ∷ before, after, ap (λ l. p ∷ l) split, same, unnamed), rw later refl)
  | inl (unnamed, later) ↦ elim (Bool-cases (p.name == name)) [
    | inl same ↦
        inr (p, ([], ports, refl, (eq_iff p.name name).0 same, unnamed), rw (later, same) refl)
    | inr differs ↦ inl ((differ p.name name differs, unnamed), rw (later, differs) refl)
  ]
]
  where
    differ : (a b : String) → (a == b) ≡ false → a ≢ b
    differ a b h same = ground (arith, eq_iff a b)

keep_node_port-IsMerged :
    (existing : List ServicePort) (p : ServicePort)
    → IsMerged existing p (keep_node_port (existing_port existing p.name) p)
keep_node_port-IsMerged existing p = elim (existing_port-Finds existing p.name) [
  | inl (unnamed, e) ↦ rw e (refl, refl, refl, inl (unnamed, refl))
  | inr (q, last, e) ↦ rw e (refl, refl, refl, inr (q, last, refl))
]

-- Merging the ports of a service with those of the existing one keeps their number and order, and of
-- each its name, its port and its target port. Its node port is that of the last of the existing
-- ports that have its name, and stays as it is where none has it.
pub merge_ports-IsMerged :
    (existing wanted : List ServicePort)
    → AllPairs (IsMerged existing) wanted (merge_ports existing wanted)
unfolding merge_ports
merge_ports-IsMerged existing [] = tt
merge_ports-IsMerged existing (p ∷ ps) =
    (keep_node_port-IsMerged existing p, merge_ports-IsMerged existing ps)
