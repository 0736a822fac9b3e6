-- ===== src/Specs/V3Factory/Replicas.antt =====
-- The autoscaler record that fiaas_deploy_daemon/specs/v3/factory.py derives from `replicas`.
use fiaas_deploy_daemon.Base.{
  ℕ, ◌≤◌, ◌<◌, ◌≡◌, refl, ◌↔◌, ◌⊎◌, inl, inr, true, not, arith, ltb, if◌then◌else◌, Bool-cases, ok,
  >>=-eq-ok,
}
use mathlib.Core.Path.{subst}
use fiaas_deploy_daemon.Base.{ok-injective}
use fiaas_deploy_daemon.Specs.Value.{Value, num, eq_value}
use fiaas_deploy_daemon.Specs.Lookup.{Lookup}
use fiaas_deploy_daemon.Specs.Models.{AutoscalerSpec}
use fiaas_deploy_daemon.Specs.V3Factory.Values.{get_value}
use fiaas_deploy_daemon.Specs.V3Factory.Simple.{autoscaler_spec}

-- The limits that a specification holds for the wanted minimum `n` and maximum `m`.
abbrev pub IsClamped : ℕ → ℕ → AutoscalerSpec Value → Type 0
IsClamped n m s =
    (k : ℕ) × (s.min_replicas ≡ num k)
    × (s.max_replicas ≡ num m)
    × (k ≤ n)
    × (k ≤ m)
    × ((k ≡ n) ⊎ (k ≡ m))
    × ((s.enabled ≡ true) ↔ (k < m))

clamp_IsClamped :
    (n m : ℕ) (v : Value)
    → IsClamped n m (
        let minimum = (if ltb m n then num m else num n) in
        record {
          enabled = not (eq_value minimum (num m));
          min_replicas = minimum;
          max_replicas = num m;
          cpu_threshold_percentage = v;
        })
unfolding eq_value
clamp_IsClamped n m v = elim (Bool-cases (ltb m n)) [
  | inl e ↦ rw e (m, refl, refl, ground arith, ground arith, inr refl, ground arith)
  | inr e ↦ rw e (n, refl, refl, ground arith, ground arith, inl refl, ground arith)
]

-- Where the minimum and the maximum number of replicas are read as numbers, a successful
-- `_autoscaler_spec` keeps the maximum, takes the smaller of the two as the minimum, and enables the
-- autoscaler exactly when that minimum lies below the maximum.
pub autoscaler_spec-IsClamped :
    (replicas : Lookup) (n m : ℕ) (s : AutoscalerSpec Value)
    → get_value replicas "minimum" ≡ ok (num n)
    → get_value replicas "maximum" ≡ ok (num m)
    → autoscaler_spec replicas ≡ ok s
    → IsClamped n m s
unfolding autoscaler_spec
autoscaler_spec-IsClamped replicas n m s hn hm h =
    let (v, hv, e) =
      >>=-eq-ok (get_value replicas "cpu_threshold_percentage") _ (rw (hm, hn) at h) in
    subst (IsClamped n m) (ok-injective e) (clamp_IsClamped n m v)
