-- ===== src/Bootstrap/Run/Queued.antt =====
-- Which deployments `run` of fiaas_deploy_daemon/bootstrap/bootstrapper.py puts into the queue.
use fiaas_deploy_daemon.Base.{
  String, ◌≡◌, refl, sym, ap, ◌∙◌, inl, inr, Bool, Option, none, some, List, [], ◌∷◌, ◌++◌, map,
  Bool-cases, value_error, Result, ok, raise, Eff,
}
use mathlib.Core.Path.{subst}
use mathlib.Core.List.{append-nil, append_assoc}
use fiaas_deploy_daemon.Base.Effect.{bind_from, for_each, throw}
use fiaas_deploy_daemon.Deployer.Spec.{AppSpec}
use fiaas_deploy_daemon.Deployer.Lifecycle.{
  Status, Subject, Event, Log, signal, count_request, count_error, count_success, deployed,
  scheduled, queued, change, initiate, given,
}
use fiaas_deploy_daemon.Crd.Watcher.{Application, deployment_id_of, is_invalid}
use fiaas_deploy_daemon.Bootstrap.Run.{
  State, on_log, store, signalled, bootstrap_subject, queue_or_fail, bootstrap_with_id, bootstrap,
  bootstrap_all,
}

-- The name of the application, if the event puts a deployment into the queue.
abbrev queued_by : Event → List String
queued_by (queued app_spec subject) = subject.app_name ∷ []
queued_by (signal _ _) = []
queued_by (count_request _) = []
queued_by (count_error _) = []
queued_by (count_success _) = []
queued_by (deployed _) = []
queued_by (scheduled _ _) = []

abbrev names_of : Log → List String
names_of [] = []
names_of (e ∷ log) = queued_by e ++ names_of log

-- The names of the applications whose deployments were put into the queue, in order.
abbrev pub queued_names : State → List String
queued_names st = names_of st.0

names_of-append : (log : Log) (e : Event) → names_of (log ++ (e ∷ [])) ≡ names_of log ++ queued_by e
names_of-append [] e = append-nil (queued_by e)
names_of-append (d ∷ log) e =
    ap (λ l. queued_by d ++ l) (names_of-append log e)
    ∙ sym (append_assoc (queued_by d) (names_of log) (queued_by e))

-- The names are added to the queue if nothing was raised, and otherwise none is.
abbrev Queues : {A : Type 0} → List String → State → Result A × State → Type 0
Queues names before (ok _, after) = queued_names after ≡ queued_names before ++ names
Queues names before (raise _, after) = queued_names after ≡ queued_names before

Queues-from :
    {A : Type 0} (names : List String) (before middle : State) (x : Result A × State)
    → queued_names middle ≡ queued_names before
    → Queues names middle x
    → Queues names before x
Queues-from names before middle (ok a, after) e h = h ∙ ap (λ l. l ++ names) e
Queues-from names before middle (raise d, after) e h = h ∙ e

abbrev Returns : {A : Type 0} → (A → Type 0) → Result A × State → Type 0
Returns P (ok a, after) = P a
Returns P (raise _, after) = Unit

Queues-bind :
    {A B : Type 0} (P : A → Type 0) (names : List String) (before : State) (x : Result A × State)
    (f : A → Eff State B)
    → Queues [] before x
    → Returns P x
    → ((a : A) (middle : State) → P a → Queues names middle (f a middle))
    → Queues names before (bind_from x f)
Queues-bind P names before (ok a, middle) f h p k =
    Queues-from names before middle (f a middle) (h ∙ append-nil (queued_names before))
      (k a middle p)
Queues-bind P names before (raise e, middle) f h p k = h

Returns-bind :
    {A B : Type 0} (P : A → Type 0) (Q : B → Type 0) (x : Result A × State) (f : A → Eff State B)
    → Returns P x
    → ((a : A) (middle : State) → P a → Returns Q (f a middle))
    → Returns Q (bind_from x f)
Returns-bind P Q (ok a, middle) f p k = k a middle p
Returns-bind P Q (raise e, middle) f p k = tt

Returns-any : {A : Type 0} (x : Result A × State) → Returns (λ _. Unit {0}) x
Returns-any (ok a, after) = tt
Returns-any (raise e, after) = tt

Queues-store :
    (status : String) (subject : Subject) (st : State) → Queues [] st (store status subject st)
unfolding store
Queues-store status subject st = sym (append-nil (queued_names st))

-- Logging a signal puts nothing into the queue, whatever the receivers answer.
Queues-signal :
    {A : Type 0} (r : Result A) (status : Status) (subject : Subject) (st : State)
    → Queues [] st (r, (st.0 ++ (signal status subject ∷ []), st.1))
Queues-signal (ok a) status subject st = names_of-append st.0 (signal status subject)
Queues-signal (raise e) status subject st =
    names_of-append st.0 (signal status subject) ∙ append-nil (queued_names st)

-- What `initiate` returns is the subject that it was given.
given-Returns :
    (send : Status → Subject → Log → Result (Unit {0})) (subject : Subject) (r : Result (Unit {0}))
    (after : State)
    → Returns (λ (x : Subject). x.app_name ≡ subject.app_name) (given send subject r, after)
given-Returns send subject (ok u) after = refl
given-Returns send subject (raise e) after = tt

module _ (send : Status → Subject → Log → Result (Unit {0})) (store_first : Bool)
    (spec_factory : Application → String → Result AppSpec) where
  signalled-Queues :
      {A : Type 0} (P : A → Type 0) (status : String) (subject : Subject) (m : Eff Log A)
      (st : State)
      → ((t : State) → Queues [] t (on_log m t))
      → ((t : State) → Returns P (on_log m t))
      → Queues [] st (signalled send store_first spec_factory status subject m st)
        × Returns P (signalled send store_first spec_factory status subject m st)
  unfolding store
  signalled-Queues {A = A} P status subject m st h p =
      let stored : A → Eff State A = λ a t. (ok a, (store status subject t).1) in
      elim (Bool-cases store_first) [
        | inl before ↦ rw before (
          Queues-bind (λ _. Unit {0}) [] st (store status subject st) (λ _. on_log m)
              (Queues-store status subject st) (Returns-any (store status subject st))
              (λ _ t _. h t),
          Returns-bind (λ _. Unit {0}) P (store status subject st) (λ _. on_log m)
              (Returns-any (store status subject st)) (λ _ t _. p t),
        )
        | inr after ↦ rw after (
          Queues-bind P [] st (on_log m st) stored (h st) (p st)
              (λ a t q. sym (append-nil (queued_names t))),
          Returns-bind P P (on_log m st) stored (p st) (λ a t q. q),
        )
      ]

  change-Queues :
      (status : Status) (subject : Subject) (t : State)
      → Queues [] t (on_log (change send status subject) t)
  unfolding change
  change-Queues status subject t = Queues-signal (send status subject t.0) status subject t

  queue_or_fail-Queues :
      (subject : Subject) (r : Result AppSpec) (st : State)
      → Queues (subject.app_name ∷ []) st (queue_or_fail send store_first spec_factory subject r st)
  unfolding queue_or_fail store
  queue_or_fail-Queues subject (ok app_spec) st = names_of-append st.0 (queued app_spec subject)
  queue_or_fail-Queues subject (raise e) st = elim (Bool-cases (is_invalid e)) [
    | inr other ↦ rw other refl
    | inl invalid ↦ rw invalid (
        Queues-bind (λ _. Unit {0}) (subject.app_name ∷ []) st
          (signalled send store_first spec_factory "failed" subject
            (change send Status.failed subject) st)
          (λ _ t. (raise e, t))
          (signalled-Queues (λ _. Unit {0}) "failed" subject (change send Status.failed subject) st
            (change-Queues Status.failed subject)
            (λ t. Returns-any (on_log (change send Status.failed subject) t))).0
          (Returns-any (
            signalled send store_first spec_factory "failed" subject
              (change send Status.failed subject) st))
          (λ _ t _. refl))
  ]

  bootstrap_with_id-Queues :
      (app : Application) (deployment_id : String) (st : State)
      → Queues
          (app.application ∷ [])
          st
          (bootstrap_with_id send store_first spec_factory app deployment_id st)
  unfolding bootstrap_with_id initiate change
  bootstrap_with_id-Queues app deployment_id st =
      let subject = bootstrap_subject send store_first spec_factory app deployment_id in
      let begin : Eff Log Subject =
        initiate send app.uid app.application app.namespace deployment_id none
          app.additional_labels_status app.additional_annotations_status in
      let (adds, gives) =
        signalled-Queues (λ x. x.app_name ≡ app.application) "initiated" subject begin st
          (λ t. Queues-signal (begin t.0).0 Status.initiated subject t)
          (λ t.
            given-Returns send subject (send Status.initiated subject t.0)
              (t.0 ++ (signal Status.initiated subject ∷ []), t.1)) in
      Queues-bind (λ x. x.app_name ≡ app.application) (app.application ∷ []) st
        (signalled send store_first spec_factory "initiated" subject begin st)
        (λ x. queue_or_fail send store_first spec_factory x (spec_factory app deployment_id)) adds
        gives
        (λ x t same.
          subst
            (λ name.
              Queues (name ∷ []) t
                (queue_or_fail send store_first spec_factory x (spec_factory app deployment_id) t))
            same (queue_or_fail-Queues x (spec_factory app deployment_id) t))

  bootstrap-Queues :
      (app : Application) (st : State)
      → Queues (app.application ∷ []) st (bootstrap send store_first spec_factory app st)
  unfolding bootstrap
  bootstrap-Queues app st = by (deployment_id_of app)
    where
      by :
          (id : Option String)
          → Queues (app.application ∷ []) st (
              (elim id as (λ _. Eff State (Unit {0})) [
                | none ↦ throw value_error
                | some deployment_id ↦
                    bootstrap_with_id send store_first spec_factory app deployment_id
              ])
                st)
      by none = refl
      by (some deployment_id) = bootstrap_with_id-Queues app deployment_id st

  abbrev application_of : Application → String
  application_of app = app.application

  -- The applications up to one that raised are in the queue.
  abbrev pub QueuesUpTo : List Application → State → Result (Unit {0}) × State → Type 0
  QueuesUpTo applications before run =
      (done : List Application) × (rest : List Application) × (applications ≡ done ++ rest)
      × (queued_names run.1 ≡ queued_names before ++ map application_of done)
      × (run.0 ≡ ok tt → rest ≡ [])

  QueuesUpTo-step :
      (app : Application) (applications : List Application) (st : State)
      (x : Result (Unit {0}) × State)
      → Queues (app.application ∷ []) st x
      → ((t : State)
          → QueuesUpTo applications t
              (for_each applications (bootstrap send store_first spec_factory) t))
      → QueuesUpTo
          (app ∷ applications)
          st
          (bind_from x (λ _. for_each applications (bootstrap send store_first spec_factory)))
  QueuesUpTo-step app applications st (raise e, t) h k =
      ([], app ∷ applications, refl, h ∙ sym (append-nil (queued_names st)), λ e. cc)
  QueuesUpTo-step app applications st (ok u, t) h k =
      let (done, rest, split, queue, all_done) = k t in
      (
        app ∷ done,
        rest,
        ap (λ l. app ∷ l) split,
        queue
            ∙ ap (λ l. l ++ map application_of done) h
            ∙ append_assoc (queued_names st) (app.application ∷ []) (map application_of done),
        all_done,
      )

  -- Whatever the receivers of the signals and the specification factory answer, `run` puts one
  -- deployment of each application that the cluster found into the queue, in the order in which they
  -- were found, up to the first one at which an exception is raised; it goes on to wait only if there
  -- is none such.
  pub bootstrap_all-QueuesUpTo :
      (applications : List Application) (st : State)
      → QueuesUpTo applications st
          (bootstrap_all send store_first spec_factory (ok applications) st)
  unfolding bootstrap_all
  bootstrap_all-QueuesUpTo applications st = each applications st
    where
      each :
          (applications : List Application) (st : State)
          → QueuesUpTo applications st
              (for_each applications (bootstrap send store_first spec_factory) st)
      each [] st = ([], [], refl, sym (append-nil (queued_names st)), λ _. refl)
      each (app ∷ applications) st =
          QueuesUpTo-step app applications st (bootstrap send store_first spec_factory app st)
            (bootstrap-Queues app st) (each applications)
