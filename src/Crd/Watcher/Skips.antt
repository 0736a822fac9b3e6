-- ===== src/Crd/Watcher/Skips.antt =====
-- Which applications `_deploy` of fiaas_deploy_daemon/crd/watcher.py skips.
use fiaas_deploy_daemon.Base.{
  ℕ, eqb, ◌&&◌, ◌==◌, eq_iff, ◌↔◌, arith, String, ◌≡◌, refl, sym, ap, ◌∙◌, inl, inr, Bool, true,
  false, Option, none, some, Bool-cases, Error, Result, ok, raise, Result-cases, ◌<>◌, ◌≢◌, ◌⊎◌,
  not_found, client_error,
}
use fiaas_deploy_daemon.Deployer.Spec.{AppSpec}
use fiaas_deploy_daemon.Deployer.Lifecycle.{Status, Subject, Log}
use fiaas_deploy_daemon.Crd.Watcher.{Application, skip_status_event, already_deployed, create_name}

-- The application's status is of its present generation and of this deployment.
abbrev pub IsOwnStatus : Application → String → Type 0
IsOwnStatus app id =
    (app.observed_generation ≡ app.generation) × (app.status_deployment_id ≡ some id)

own_status_iff :
    (observed present : ℕ) (status : Option String) (id : String)
    → ((eqb observed present && (elim status [ none ↦ false | some s ↦ id == s ])) ≡ true)
      ↔ ((observed ≡ present) × (status ≡ some id))
own_status_iff observed present none id = (λ h. ground arith, λ (_, h). absurd (cc))
own_status_iff observed present (some s) id = (
  λ h. (ground arith, ap some (sym ((eq_iff id s).0 (ground arith)))),
  λ (same, h). ground (arith, eq_iff id s, the_text s id h),
)
  where
    the_text : (a b : String) → some a ≡ some b → a ≡ b
    the_text a b h = cc

pub skip_status_event-IsOwnStatus :
    (app : Application) (id : String) → (skip_status_event app id ≡ true) ↔ IsOwnStatus app id
unfolding skip_status_event
skip_status_event-IsOwnStatus app id =
    own_status_iff app.observed_generation app.generation app.status_deployment_id id

module _ (send : Status → Subject → Log → Result (Unit {0})) (suffix : String → String)
    (get_status : String → String → Result (Option String))
    (spec_factory : Application → String → Result AppSpec) (app : Application) where
  -- What the cluster answers to the question for the status of a deployment of the application.
  abbrev pub status_answer : String → Result (Option String)
  status_answer id = get_status (app.application <> ("-" <> suffix id)) app.namespace

  abbrev pub HasSucceeded : String → Type 0
  HasSucceeded id = status_answer id ≡ ok (some "SUCCESS")

  -- The deployment has no status, or a status of another result than success.
  abbrev pub IsNew : String → Type 0
  IsNew id =
      (status_answer id ≡ raise not_found)
      ⊎ ((result : Option String) × (status_answer id ≡ ok result) × (result ≢ some "SUCCESS"))

  abbrev pub deployed_before : String → Result Bool
  deployed_before id =
      already_deployed send suffix get_status spec_factory app.application app.namespace id

  abbrev pub KnowsStatus : String → Type 0
  KnowsStatus id =
      (HasSucceeded id × (deployed_before id ≡ ok true))
      ⊎ ((IsNew id × (deployed_before id ≡ ok false))
          ⊎ ((e : Error) × (status_answer id ≡ raise e)
              × (e ≢ not_found)
              × (deployed_before id ≡ raise e)))

  already_deployed-result :
      (id : String) (result : Option String) → status_answer id ≡ ok result → KnowsStatus id
  unfolding already_deployed create_name
  already_deployed-result id none h =
      inr (inl (inr (none, h, λ same. cc), rw (already_deployed, h) refl))
  already_deployed-result id (some s) h = elim (Bool-cases (s == "SUCCESS")) [
    | inl same ↦ inl (
      h ∙ ap (λ (t : String). ok (some t)) ((eq_iff s "SUCCESS").0 same),
      rw (already_deployed, h, same) refl,
    )
    | inr differs ↦
        inr (inl (inr (some s, h, other s differs), rw (already_deployed, h, differs) refl))
  ]
    where
      other : (s : String) → (s == "SUCCESS") ≡ false → some s ≢ some "SUCCESS"
      other s differs same = ground (arith, eq_iff s "SUCCESS", the_text s same)
        where
          the_text : (s : String) → some s ≡ some "SUCCESS" → s ≡ "SUCCESS"
          the_text s h = cc

  already_deployed-raise : (id : String) (e : Error) → status_answer id ≡ raise e → KnowsStatus id
  unfolding already_deployed create_name
  already_deployed-raise id not_found h = inr (inl (inl h, rw (already_deployed, h) refl))
  already_deployed-raise id (client_error n) h =
      inr (inr (client_error n, h, (λ same. cc), rw (already_deployed, h) refl))
  already_deployed-raise id e h = inr (inr (e, h, (λ same. cc), rw (already_deployed, h) refl))

  pub already_deployed-KnowsStatus : (id : String) → KnowsStatus id
  already_deployed-KnowsStatus id = elim (Result-cases (status_answer id)) [
    | inl (result, h) ↦ already_deployed-result id result h
    | inr (e, h) ↦ already_deployed-raise id e h
  ]
