-- ===== src/Crd/Watcher/Laws.antt =====
-- Theorems about `CrdWatcher` of fiaas_deploy_daemon/crd/watcher.py.
use mathlib.Core.List.{append_assoc, append-nil}
use fiaas_deploy_daemon.Base.{
  ◌≢◌, not_found, String, ◌≡◌, refl, sym, ap, ◌∙◌, inl, inr, Bool, true, false, Option, none, some,
  [], ◌∷◌, ◌++◌, Bool-cases, Option-cases, Error, value_error, Result, ok, raise, Result-cases,
}
use fiaas_deploy_daemon.Crd.Watcher.Skips.{
  IsOwnStatus, skip_status_event-IsOwnStatus, status_answer, IsNew, deployed_before, KnowsStatus,
  already_deployed-KnowsStatus,
}
use fiaas_deploy_daemon.Deployer.Spec.{AppSpec}
use fiaas_deploy_daemon.Deployer.Lifecycle.{Status, Subject, Log, signal, queued, change, initiate}
use fiaas_deploy_daemon.Crd.Watcher.{
  Application, deployment_id_of, skip_status_event, skip_update_of_deleted_application, repository,
  is_invalid, put_or_fail, start_deploy, deploy_with_id, deploy,
}

-- The subject of a deployment of the application.
abbrev pub subject_of : Application → String → Subject
subject_of app deployment_id = record {
  uid = app.uid;
  app_name = app.application;
  namespace = app.namespace;
  deployment_id = deployment_id;
  repository = repository app;
  labels = app.additional_labels_status;
  annotations = app.additional_annotations_status;
}

module _ (send : Status → Subject → Log → Result (Unit {0})) (suffix : String → String)
    (get_status : String → String → Result (Option String))
    (spec_factory : Application → String → Result AppSpec) (app : Application) where
  abbrev pub answer : String → Result (Option String)
  answer id = status_answer send suffix get_status spec_factory app id

  -- The application has the deployment id, and its status is not of this deployment.
  abbrev pub IsLabelled : String → Type 0
  IsLabelled id = (deployment_id_of app ≡ some id) × ¬ IsOwnStatus app id

  -- The deployment is not skipped.
  abbrev pub IsDue : String → Type 0
  IsDue id =
      IsLabelled id
      × (app.marked_for_deletion ≡ false)
      × IsNew send suffix get_status spec_factory app id

  abbrev pub initiated : String → Log
  initiated id = signal Status.initiated (subject_of app id) ∷ []

  module _ (log : Log) where
    -- The deployment is not skipped, and that it is initiated was signalled.
    abbrev pub IsInitiated : String → Type 0
    IsInitiated id = IsDue id × (send Status.initiated (subject_of app id) log ≡ ok tt)

    -- What `_deploy` adds to the log, its result, and why.
    pub data Outcome : Log → Result (Unit {0}) → Type 0 where
      unlabelled : deployment_id_of app ≡ none → Outcome [] (raise value_error)
      own_status :
          (id : String) → deployment_id_of app ≡ some id → IsOwnStatus app id → Outcome [] (ok tt)
      going_away :
          (id : String) → IsLabelled id → app.marked_for_deletion ≡ true → Outcome [] (ok tt)
      already :
          (id : String)
          → IsLabelled id
          → app.marked_for_deletion ≡ false
          → answer id ≡ ok (some "SUCCESS")
          → Outcome [] (ok tt)
      unknown :
          (id : String) (e : Error)
          → IsLabelled id
          → app.marked_for_deletion ≡ false
          → answer id ≡ raise e
          → e ≢ not_found
          → Outcome [] (raise e)
      uninitiated :
          (id : String) (e : Error)
          → IsDue id
          → send Status.initiated (subject_of app id) log ≡ raise e
          → Outcome (initiated id) (raise e)
      accepted :
          (id : String) (app_spec : AppSpec)
          → IsInitiated id
          → spec_factory app id ≡ ok app_spec
          → Outcome (initiated id ++ (queued app_spec (subject_of app id) ∷ [])) (ok tt)
      rejected :
          (id : String) (e : Error)
          → IsInitiated id
          → spec_factory app id ≡ raise e
          → is_invalid e ≡ true
          → Outcome
              (initiated id ++ (signal Status.failed (subject_of app id) ∷ []))
              (send Status.failed (subject_of app id) (log ++ initiated id))
      crashed :
          (id : String) (e : Error)
          → IsInitiated id
          → spec_factory app id ≡ raise e
          → is_invalid e ≡ false
          → Outcome (initiated id) (raise e)

    abbrev pub EndsIn : Result (Unit {0}) × Log → Type 0
    EndsIn done =
        (events : Log) × (r : Result (Unit {0})) × (done ≡ (r, log ++ events)) × Outcome events r

    nothing_done :
        (r : Result (Unit {0})) (done : Result (Unit {0}) × Log)
        → done ≡ (r, log)
        → Outcome [] r
        → EndsIn done
    nothing_done r done e outcome =
        ([], r, e ∙ ap (λ (l : Log). (r, l)) (sym (append-nil log)), outcome)

    start_deploy-EndsIn :
        (id : String)
        → IsDue id
        → EndsIn (start_deploy send suffix get_status spec_factory app id log)
    unfolding start_deploy initiate put_or_fail change
    start_deploy-EndsIn id due =
        elim (Result-cases (send Status.initiated (subject_of app id) log)) [
          | inr (e, h) ↦ (_, _, rw h, uninitiated id e due h)
          | inl (_, h) ↦ elim (Result-cases (spec_factory app id)) [
            | inl (app_spec, made) ↦
                (_, _, rw (h, made) (simp append_assoc), accepted id app_spec (due, h) made)
            | inr (e, failed) ↦ elim (Bool-cases (is_invalid e)) [
              | inl invalid ↦ (
                _,
                _,
                rw (h, failed, invalid) (simp append_assoc),
                rejected id e (due, h) failed invalid,
              )
              | inr fatal ↦ (_, _, rw (h, failed, fatal), crashed id e (due, h) failed fatal)
            ]
          ]
        ]

    deploy_with_id-start_deploy :
        (id : String)
        → skip_status_event app id ≡ false
        → app.marked_for_deletion ≡ false
        → deployed_before send suffix get_status spec_factory app id ≡ ok false
        → deploy_with_id send suffix get_status spec_factory app id log
          ≡ start_deploy send suffix get_status spec_factory app id log
    unfolding deploy_with_id skip_update_of_deleted_application
    deploy_with_id-start_deploy id not_own stays not_done = rw (not_own, stays, not_done) refl

    deploy_new :
        (id : String)
        → skip_status_event app id ≡ false
        → app.marked_for_deletion ≡ false
        → IsLabelled id
        → KnowsStatus send suffix get_status spec_factory app id
        → EndsIn (deploy_with_id send suffix get_status spec_factory app id log)
    unfolding deploy_with_id skip_update_of_deleted_application
    deploy_new id not_own stays labelled (inl (succeeded, h)) =
        nothing_done (ok tt) _ (rw (not_own, stays, h) refl) (already id labelled stays succeeded)
    deploy_new id not_own stays labelled (inr (inr (e, answered, other, h))) =
        nothing_done (raise e) _ (rw (not_own, stays, h) refl)
          (unknown id e labelled stays answered other)
    deploy_new id not_own stays labelled (inr (inl (new, h))) =
        let (events, r, e, outcome) = start_deploy-EndsIn id (labelled, stays, new) in
        (events, r, deploy_with_id-start_deploy id not_own stays h ∙ e, outcome)

    not-IsOwnStatus : (id : String) → skip_status_event app id ≡ false → ¬ IsOwnStatus app id
    not-IsOwnStatus id h own = apart ((skip_status_event-IsOwnStatus app id).1 own) h
      where
        apart : {b : Bool} → b ≡ true → b ≡ false → ⊥
        apart e f = cc

    deploy_with_id-EndsIn :
        (id : String)
        → deployment_id_of app ≡ some id
        → EndsIn (deploy_with_id send suffix get_status spec_factory app id log)
    unfolding deploy_with_id skip_update_of_deleted_application
    deploy_with_id-EndsIn id labelled = elim (Bool-cases (skip_status_event app id)) [
      | inl own ↦
          nothing_done (ok tt) _ (rw own refl)
            (own_status id labelled ((skip_status_event-IsOwnStatus app id).0 own))
      | inr not_own ↦ elim (Bool-cases app.marked_for_deletion) [
        | inl gone ↦
            nothing_done (ok tt) _ (rw (not_own, gone) refl)
              (going_away id (labelled, not-IsOwnStatus id not_own) gone)
        | inr stays ↦
            deploy_new id not_own stays (labelled, not-IsOwnStatus id not_own)
              (already_deployed-KnowsStatus send suffix get_status spec_factory app id)
      ]
    ]

    -- Whatever the rest of the program answers, `_deploy` ends in one of these ways. With no
    -- deployment id it raises ValueError and does nothing. It does nothing where the status of the
    -- application is of its present generation and of this very deployment, for an application that
    -- is marked for deletion, for a deployment whose status is SUCCESS, and where asking for that
    -- status raised another exception than NotFound, which is passed on. Otherwise it signals once
    -- that the deployment is initiated; and if that raises nothing, it either queues the
    -- specification once, or signals failure once where the specification is invalid, or passes on
    -- another exception of the factory.
    pub deploy-EndsIn : EndsIn (deploy send suffix get_status spec_factory app log)
    unfolding deploy
    deploy-EndsIn = elim (Option-cases (deployment_id_of app)) [
      | inl none_there ↦
          nothing_done (raise value_error) _ (rw none_there refl) (unlabelled none_there)
      | inr (id, labelled) ↦
          let (events, r, e, outcome) = deploy_with_id-EndsIn id labelled in
          (events, r, rw labelled e, outcome)
    ]
