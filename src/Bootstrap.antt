-- ===== src/Bootstrap.antt =====
-- fiaas_deploy_daemon/bootstrap/bootstrapper.py: the statuses that are collected while all
-- applications are deployed, and the wait until all of them have succeeded. Times are whole seconds.
mod Tests
pub mod Run
pub mod Collected
use mathlib.Core.Path.{subst}
use fiaas_deploy_daemon.PairDict.{put}
use fiaas_deploy_daemon.Base.{
  ℕ, suc, zero, ◌+◌, ◌-◌, ◌≤◌, ◌<◌, String, ◌<>◌, ◌≡◌, refl, sym, ap, ◌∙◌, ◌≢◌, ◌↔◌, ◌⊎◌, inl, inr,
  Bool, true, false, not, ◌&&◌, ◌||◌, Option, none, some, List, [], ◌∷◌, ◌++◌, map, arith, eq_iff,
  eq_refl, ◌==◌, ltb, leb, eqb, if◌then◌else◌, Bool-cases, Option-cases, leb→le, leb-false→lt,
  length, any, all, filter, contains, All, All-append, All-map, Error, invalid_configuration,
  value_error, key_error, index_error, type_error, attribute_error, runtime_error, yaml_error,
  retry_error, not_found, client_error, upsert_conflict, Result, ok, raise, ◌>>=◌, ◌>>◌, guard,
  >>=-eq-ok, ok-injective, guard-eq-ok, raise-ne-ok, Result-cases, Eff,
}

-- `StatusCollector`: the last status of each application, by its name and its namespace.
abbrev pub Statuses : Type 0
Statuses = List ((String × String) × String)

-- `StatusCollector.store_status`
unfoldable pub store_status : Statuses → String → String → String → Statuses
unfolding put
store_status statuses status app_name namespace = put statuses (app_name, namespace) status

abbrev pub is_success : (String × String) × String → Bool
is_success entry = entry.1 == "success"

-- The clock and the collected statuses, at the beginning of each round of the wait.
module _ (time : ℕ → ℕ) (statuses : ℕ → Statuses) where
  -- The loop of `_wait_for_readiness` from a round on, with fuel; `none` means that the fuel ran out.
  wait_from : ℕ → ℕ → ℕ → Option Bool
  wait_from zero i deadline = none
  wait_from (suc fuel) i deadline =
      let rest = wait_from fuel (suc i) deadline in
      if ltb (time i) deadline
      then (if all is_success (statuses i) then some true else rest)
      else some false

  -- `_wait_for_readiness`, from the start at `time 0`; the clock of the first test is `time 1`.
  unfoldable pub wait_for_readiness : ℕ → ℕ → Option Bool
  unfolding wait_from
  wait_for_readiness fuel timeout_seconds = wait_from fuel 1 (time 0 + timeout_seconds)

  -- In some round before the deadline all statuses were success, and in none of the rounds before.
  abbrev pub IsReadyIn : ℕ → ℕ → ℕ → Type 0
  IsReadyIn first deadline i =
      (first ≤ i)
      × (time i < deadline)
      × (all is_success (statuses i) ≡ true)
      × ((j : ℕ) → first ≤ j → j < i → all is_success (statuses j) ≡ false)

  -- The deadline passed with no such round.
  abbrev pub IsLateIn : ℕ → ℕ → ℕ → Type 0
  IsLateIn first deadline i =
      (first ≤ i)
      × (deadline ≤ time i)
      × ((j : ℕ) → first ≤ j → j < i → all is_success (statuses j) ≡ false)

  abbrev pub Waited : ℕ → ℕ → Option Bool → Type 0
  Waited first deadline r =
      ((i : ℕ) × (r ≡ some true) × IsReadyIn first deadline i)
      ⊎ ((i : ℕ) × (r ≡ some false) × IsLateIn first deadline i)

  -- A round that was no success joins the rounds after it.
  fails_from :
      (first i : ℕ)
      → all is_success (statuses first) ≡ false
      → ((j : ℕ) → suc first ≤ j → j < i → all is_success (statuses j) ≡ false)
      → (j : ℕ) → first ≤ j
      → j < i
      → all is_success (statuses j) ≡ false
  fails_from first i fails before j le lt = elim (Bool-cases (eqb first j)) [
    | inl same ↦ subst (λ k. all is_success (statuses k) ≡ false) (eqb→eq first j same) fails
    | inr differs ↦ before j (next first j le differs) lt
  ]
    where
      eqb→eq : (a b : ℕ) → eqb a b ≡ true → a ≡ b
      eqb→eq a b e = ground arith

      next : (a b : ℕ) → a ≤ b → eqb a b ≡ false → suc a ≤ b
      next a b le e = ground arith

  Waited-step :
      (first deadline : ℕ) (r : Option Bool)
      → all is_success (statuses first) ≡ false
      → Waited (suc first) deadline r
      → Waited first deadline r
  Waited-step first deadline r fails (inl (i, e, (le, lt, good, before))) =
      inl (i, e, (omega (arith, le), lt, good, fails_from first i fails before))
  Waited-step first deadline r fails (inr (i, e, (le, late, before))) =
      inr (i, e, (omega (arith, le), late, fails_from first i fails before))

  ltb→lt : (a b : ℕ) → ltb a b ≡ true → a < b
  ltb→lt a b e = ground arith

  ltb-false→le : (a b : ℕ) → ltb a b ≡ false → b ≤ a
  ltb-false→le a b e = ground arith

  none_between : (first j : ℕ) → first ≤ j → j < first → all is_success (statuses j) ≡ false
  none_between first j le lt = absurd (omega (arith, le, lt))

  -- One round, by what the rounds after it give where it is neither late nor a success.
  round-Waited :
      (first deadline : ℕ) (r : Option Bool)
      → (time first < deadline → all is_success (statuses first) ≡ false → Waited first deadline r)
      → Waited first deadline (
          if ltb (time first) deadline
          then (if all is_success (statuses first) then some true else r)
          else some false)
  round-Waited first deadline r later = elim (Bool-cases (ltb (time first) deadline)) [
    | inr late ↦
        rw late (inr (first, refl, (omega arith, ltb-false→le _ _ late, none_between first)))
    | inl early ↦ elim (Bool-cases (all is_success (statuses first))) [
      | inl good ↦
          rw (early, good)
            (inl (first, refl, (omega arith, ltb→lt _ _ early, good, none_between first)))
      | inr fails ↦ rw (early, fails) (later (ltb→lt _ _ early) fails)
    ]
  ]

  wait_from-Waited :
      ((i : ℕ) → time (suc i) < time (suc (suc i)))
      → (fuel first deadline : ℕ) → deadline ≤ time (suc first) + fuel
      → Waited (suc first) deadline (wait_from (suc fuel) (suc first) deadline)
  unfolding wait_from
  wait_from-Waited runs zero first deadline enough =
      round-Waited (suc first) deadline none (λ lt fails. absurd (omega (arith, lt, enough)))
  wait_from-Waited runs (suc fuel) first deadline enough =
      round-Waited (suc first) deadline (wait_from (suc fuel) (suc (suc first)) deadline)
        (λ lt fails.
          Waited-step (suc first) deadline _ fails
            (wait_from-Waited runs fuel (suc first) deadline (omega (arith, enough, runs first))))

  -- If the clock does not run backwards before the first test and goes on from round to round, then
  -- with fuel for one round more than there are seconds `_wait_for_readiness` ends: with True in the
  -- first round whose collected statuses are all success, if its time is before the deadline, and
  -- otherwise with False in a round at or after the deadline, no round before it having been a success.
  pub wait_for_readiness-Waited :
      time 0 ≤ time 1
      → ((i : ℕ) → time (suc i) < time (suc (suc i)))
      → (timeout_seconds : ℕ)
      → Waited 1
          (time 0 + timeout_seconds)
          (wait_for_readiness (suc timeout_seconds) timeout_seconds)
  unfolding wait_for_readiness
  wait_for_readiness-Waited starts runs timeout_seconds =
      wait_from-Waited runs timeout_seconds 0 (time 0 + timeout_seconds) (omega (arith, starts))
