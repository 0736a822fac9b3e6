-- ===== src/Specs/V3Factory/Health.antt =====
-- Which checks a specification has, in fiaas_deploy_daemon/specs/v3/factory.py.
use fiaas_deploy_daemon.Base.{
  ℕ, ◌+◌, ◌≡◌, refl, sym, ap, ◌∙◌, ◌⊎◌, inl, inr, false, Option, none, some, arith, eqb, Bool-cases,
  invalid_configuration, Result, ok, ◌>>=◌, >>=-eq-ok, ok-injective, guard-eq-ok,
}
use mathlib.Core.Path.{subst}
use fiaas_deploy_daemon.Specs.Value.{Value, str, eq_value, truthy}
use fiaas_deploy_daemon.Specs.Lookup.{Lookup, get_key, get_index, get_config_value, len_lookup}
use fiaas_deploy_daemon.Specs.Models.{ExecCheckSpec, HttpCheckSpec, TcpCheckSpec, CheckSpec}
use fiaas_deploy_daemon.Specs.V3Factory.Values.{get_value}
use fiaas_deploy_daemon.Specs.V3Factory.Checks.{
  Checks, exec_check_spec, http_check_spec, tcp_check_spec, first_port?, check_of_port,
  choose_check, check_spec,
}

abbrev is_set {ℓ} : {A : Type ℓ} → Option A → ℕ
is_set none = 0
is_set (some _) = 1

-- How many of the three alternatives a check has.
abbrev pub set_count : CheckSpec Value Value Value → ℕ
set_count s = is_set s.execute + is_set s.http + is_set s.tcp

abbrev count_checks : Checks → ℕ
count_checks c = is_set c.0 + is_set c.1 + is_set c.2

-- There is exactly one port, and its protocol is neither http nor tcp.
abbrev pub HasOddPort : Lookup → Type 0
HasOddPort ports =
    (p : Lookup) × (protocol : Value) × (len_lookup ports ≡ ok 1)
    × (get_index ports 0 ≡ ok p)
    × (get_value p "protocol" ≡ ok protocol)
    × (eq_value protocol (str "http") ≡ false)
    × (eq_value protocol (str "tcp") ≡ false)

abbrev pub IsOne : Lookup → ℕ → Type 0
IsOne ports n = (n ≡ 1) ⊎ ((n ≡ 0) × HasOddPort ports)

abbrev Fine : Lookup → Checks → Type 0
Fine ports c = IsOne ports (count_checks c)

abbrev only_exec : ExecCheckSpec Value → Checks
only_exec c = (some c, none, none)

abbrev only_http : HttpCheckSpec Value Value → Checks
only_http c = (none, some c, none)

abbrev only_tcp : TcpCheckSpec Value → Checks
only_tcp c = (none, none, some c)

-- A chain that reads something, builds one check and sets it.
chain-one :
    {A B : Type 0} (m : Result A) (f : A → Result B) (g : B → Checks) {c : Checks}
    → ((b : B) → count_checks (g b) ≡ 1)
    → (m >>= λ a. f a >>= λ b. ok (g b)) ≡ ok c
    → count_checks c ≡ 1
chain-one m f g one e =
    let (a, ha, e1) = >>=-eq-ok m _ e in
    let (b, hb, e2) = >>=-eq-ok (f a) _ e1 in
    subst (λ c. count_checks c ≡ 1) (ok-injective e2) (one b)

module _ (check ports : Lookup) (c : Checks) where
  check_of_port-IsOne : check_of_port check ports ≡ ok c → IsOne ports (count_checks c)
  unfolding check_of_port
  check_of_port-IsOne e =
      let (n, hn, e1) = >>=-eq-ok (len_lookup ports) _ e in
      let (one, e2) = guard-eq-ok (eqb n 1) invalid_configuration _ e1 in
      let (p, hp, e3) = >>=-eq-ok (get_index ports 0) _ e2 in
      let (protocol, hpr, e4) = >>=-eq-ok (get_value p "protocol") _ e3 in
      elim (Bool-cases (eq_value protocol (str "http"))) [
        | inl http ↦ inl (
            chain-one (get_key check "http") (λ x. http_check_spec x (some p)) only_http (λ b. refl)
              (rw http at e4))
        | inr not_http ↦ elim (Bool-cases (eq_value protocol (str "tcp"))) [
          | inl tcp ↦ inl (
              chain-one (get_key check "tcp") (λ x. tcp_check_spec x (some p)) only_tcp (λ b. refl)
                (rw (not_http, tcp) at e4))
          | inr not_tcp ↦
              let length_one : len_lookup ports ≡ ok 1 = hn ∙ ap ok (ground arith) in
              inr (
                ap count_checks (sym (ok-injective (rw (not_http, not_tcp) at e4))),
                (p, protocol, length_one, hp, hpr, not_http, not_tcp),
              )
        ]
      ]

  choose_check-IsOne : choose_check check ports ≡ ok c → IsOne ports (count_checks c)
  unfolding choose_check
  choose_check-IsOne e =
      let (first, hf, e1) = >>=-eq-ok (first_port? ports) _ e in
      let (execute, hx, e2) = >>=-eq-ok (get_config_value check "execute") _ e1 in
      elim (Bool-cases (truthy execute)) [
        | inl yes_exec ↦ inl (
            chain-one (get_key check "execute") exec_check_spec only_exec (λ b. refl)
              (rw yes_exec at e2))
        | inr no_exec ↦
            let (http, hh, e3) = >>=-eq-ok (get_config_value check "http") _ (rw no_exec at e2) in
            elim (Bool-cases (truthy http)) [
              | inl yes_http ↦ inl (
                  chain-one (get_key check "http") (λ x. http_check_spec x first) only_http
                    (λ b. refl) (rw yes_http at e3))
              | inr no_http ↦
                  let (tcp, ht, e4) =
                    >>=-eq-ok (get_config_value check "tcp") _ (rw no_http at e3) in
                  elim (Bool-cases (truthy tcp)) [
                    | inl yes_tcp ↦ inl (
                        chain-one (get_key check "tcp") (λ x. tcp_check_spec x first) only_tcp
                          (λ b. refl) (rw yes_tcp at e4))
                    | inr no_tcp ↦ check_of_port-IsOne (rw no_tcp at e4)
                  ]
            ]
      ]

-- A check that `_check_spec` returns has exactly one of the three alternatives execute, http and tcp
-- set, or it has none, and then the list of ports holds exactly one, with a protocol that is neither
-- http nor tcp.
pub check_spec-IsOne :
    (check ports : Lookup) (s : CheckSpec Value Value Value)
    → check_spec check ports ≡ ok s
    → IsOne ports (set_count s)
unfolding check_spec
check_spec-IsOne check ports s e =
    let (c, hc, e1) = >>=-eq-ok (choose_check check ports) _ e in
    let (a1, h1, e2) = >>=-eq-ok (get_value check "initial_delay_seconds") _ e1 in
    let (a2, h2, e3) = >>=-eq-ok (get_value check "period_seconds") _ e2 in
    let (a3, h3, e4) = >>=-eq-ok (get_value check "success_threshold") _ e3 in
    let (a4, h4, e5) = >>=-eq-ok (get_value check "failure_threshold") _ e4 in
    let (a5, h5, e6) = >>=-eq-ok (get_value check "timeout_seconds") _ e5 in
    subst (λ (x : CheckSpec Value Value Value). IsOne ports (set_count x)) (ok-injective e6)
      (choose_check-IsOne check ports c hc)
