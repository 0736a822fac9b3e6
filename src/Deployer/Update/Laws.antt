-- ===== src/Deployer/Update/Laws.antt =====
-- The log of effects of fiaas_deploy_daemon/deployer/deploy.py.
use mathlib.Core.List.{append_assoc}
use fiaas_deploy_daemon.Base.{
  ap, ◌∙◌, ◌≡◌, ◌⊎◌, inl, inr, Bool, true, false, [], ◌∷◌, ◌++◌, ◌==◌, Bool-cases, Error, Result,
  ok, raise, Result-cases,
}
use fiaas_deploy_daemon.Deployer.Spec.{AppSpec}
use fiaas_deploy_daemon.Deployer.Lifecycle.{
  Status, Subject, signal, count_request, count_error, count_success, deployed, scheduled, Log,
  change, is_k8s_or_retry,
}
use fiaas_deploy_daemon.Deployer.Update.{attempt, give_up, update}

module _ (send : Status → Subject → Log → Result (Unit {0}))
    (adapter_deploy : AppSpec → Log → Result (Unit {0}))
    (schedule : AppSpec → Subject → Log → Result (Unit {0})) (app_spec : AppSpec)
    (subject : Subject) (log : Log) where
  abbrev is_self : Bool
  is_self = app_spec.name == "fiaas-deploy-daemon"

  -- The logs at which the effects of the `try` are tried: `K8s.deploy`, and what is after it.
  abbrev counted_log : Log
  counted_log = log ++ (signal Status.started subject ∷ count_request app_spec.name ∷ [])

  abbrev rolled_out : Log
  rolled_out = signal Status.started subject ∷ count_request app_spec.name ∷ deployed app_spec ∷ []

  -- The start was signalled, and `K8s.deploy` came to its end.
  abbrev IsRolledOut : Type 0
  IsRolledOut =
      (send Status.started subject log ≡ ok tt) × (adapter_deploy app_spec counted_log ≡ ok tt)

  -- The ways in which the `try` of `_update` may end well: no effect of it raised.
  pub data Completed : Log → Type 0 where
    waits :
        IsRolledOut
        → is_self ≡ false
        → schedule app_spec subject (log ++ rolled_out) ≡ ok tt
        → Completed (rolled_out ++ (scheduled app_spec subject ∷ []))
    succeeds :
        IsRolledOut
        → is_self ≡ true
        → send Status.success subject (log ++ rolled_out) ≡ ok tt
        → Completed
            (rolled_out ++ (signal Status.success subject ∷ count_success app_spec.name ∷ []))

  -- Where it may raise: the last effect of each list did, and none before it.
  pub data Stopped : Log → Type 0 where
    at_start :
        (e : Error)
        → send Status.started subject log ≡ raise e
        → Stopped (signal Status.started subject ∷ [])
    at_deploy :
        (e : Error)
        → send Status.started subject log ≡ ok tt
        → adapter_deploy app_spec counted_log ≡ raise e
        → Stopped rolled_out
    at_schedule :
        (e : Error)
        → IsRolledOut
        → is_self ≡ false
        → schedule app_spec subject (log ++ rolled_out) ≡ raise e
        → Stopped (rolled_out ++ (scheduled app_spec subject ∷ []))
    at_success :
        (e : Error)
        → IsRolledOut
        → is_self ≡ true
        → send Status.success subject (log ++ rolled_out) ≡ raise e
        → Stopped (rolled_out ++ (signal Status.success subject ∷ []))

  -- Signalling failure behind the effects raised nothing, or what is caught.
  abbrev IsSignalled : Log → Type 0
  IsSignalled events =
      (send Status.failed subject (log ++ events) ≡ ok tt)
      ⊎ ((e : Error) × (send Status.failed subject (log ++ events) ≡ raise e)
          × (is_k8s_or_retry e ≡ true))

  -- What `_update` adds to the log, and its result.
  pub data Trace : Log → Result (Unit {0}) → Type 0 where
    completed : {events : Log} → Completed events → Trace events (ok tt)
    failed_and_counted :
        {events : Log}
        → Stopped events
        → IsSignalled events
        → Trace (events ++ (signal Status.failed subject ∷ count_error app_spec.name ∷ [])) (ok tt)
    escaped :
        {events : Log} {e : Error}
        → Stopped events
        → send Status.failed subject (log ++ events) ≡ raise e
        → is_k8s_or_retry e ≡ false
        → Trace (events ++ (signal Status.failed subject ∷ [])) (raise e)

  abbrev run_attempt : Result (Unit {0}) × Log
  run_attempt = attempt send adapter_deploy schedule app_spec subject log

  abbrev IsAttempted : Type 0
  IsAttempted =
      (events : Log) × ((run_attempt ≡ (ok tt, log ++ events)) × Completed events
        ⊎ ((e : Error) × (run_attempt ≡ (raise e, log ++ events)) × Stopped events))

  -- The logs that the code makes entry by entry.
  counted_log-eq :
      (log ++ (signal Status.started subject ∷ [])) ++ (count_request app_spec.name ∷ [])
      ≡ counted_log
  counted_log-eq = append_assoc log _ _

  rolled_out-eq :
      ((log ++ (signal Status.started subject ∷ [])) ++ (count_request app_spec.name ∷ []))
        ++ (deployed app_spec ∷ [])
      ≡ log ++ rolled_out
  rolled_out-eq = simp append_assoc

  attempt-IsAttempted : IsAttempted
  unfolding attempt change
  attempt-IsAttempted = elim (Result-cases (send Status.started subject log)) [
    | inr (e, h1) ↦ (_, inr (e, rw h1, at_start e h1))
    | inl (_, h1) ↦ elim (Result-cases (adapter_deploy app_spec counted_log)) [
      | inr (e, h2) ↦
          let h2' = ap (adapter_deploy app_spec) counted_log-eq ∙ h2 in
          (_, inr (e, rw (h1, h2') (simp append_assoc), at_deploy e h1 h2))
      | inl (_, h2) ↦
          let h2' = ap (adapter_deploy app_spec) counted_log-eq ∙ h2 in
          elim (Bool-cases is_self) [
            | inl self ↦ elim (Result-cases (send Status.success subject (log ++ rolled_out))) [
              | inr (e, h3) ↦
                  let h3' = ap (send Status.success subject) rolled_out-eq ∙ h3 in
                  (
                    _,
                    inr (
                      e,
                      rw (h1, h2', self, h3') (simp append_assoc),
                      at_success e (h1, h2) self h3,
                    ),
                  )
              | inl (_, h3) ↦
                  let h3' = ap (send Status.success subject) rolled_out-eq ∙ h3 in
                  (_, inl (rw (h1, h2', self, h3') (simp append_assoc), succeeds (h1, h2) self h3))
            ]
            | inr other ↦ elim (Result-cases (schedule app_spec subject (log ++ rolled_out))) [
              | inr (e, h3) ↦
                  let h3' = ap (schedule app_spec subject) rolled_out-eq ∙ h3 in
                  (
                    _,
                    inr (
                      e,
                      rw (h1, h2', other, h3') (simp append_assoc),
                      at_schedule e (h1, h2) other h3,
                    ),
                  )
              | inl (_, h3) ↦
                  let h3' = ap (schedule app_spec subject) rolled_out-eq ∙ h3 in
                  (_, inl (rw (h1, h2', other, h3') (simp append_assoc), waits (h1, h2) other h3))
            ]
          ]
    ]
  ]

  abbrev pub Ends : Type 0
  Ends =
      (events : Log) × (r : Result (Unit {0})) × (update send adapter_deploy schedule app_spec
          subject log
        ≡ (r, log ++ events))
      × Trace events r

  update-Stopped :
      (events : Log) (e : Error) → run_attempt ≡ (raise e, log ++ events) → Stopped events → Ends
  unfolding update give_up change
  update-Stopped events e h stopped =
      elim (Result-cases (send Status.failed subject (log ++ events))) [
        | inl (_, h1) ↦ (_, _, rw (h, h1) (simp append_assoc), failed_and_counted stopped (inl h1))
        | inr (f, h1) ↦ elim (Bool-cases (is_k8s_or_retry f)) [
          | inl caught ↦ (
            _,
            _,
            rw (h, h1, caught) (simp append_assoc),
            failed_and_counted stopped (inr (f, h1, caught)),
          )
          | inr other ↦ (_, _, rw (h, h1, other) (simp append_assoc), escaped stopped h1 other)
        ]
      ]

  -- Whatever the signal's handlers, `K8s.deploy` and `Scheduler.add` answer, `_update` ends in one of
  -- three ways: no effect of its `try` raised, and a ready check was scheduled, or, for
  -- fiaas-deploy-daemon itself, success was signalled and counted; or an effect of the `try` raised,
  -- none was tried after it, and failure was signalled once and counted once; or, then, signalling
  -- the failure raised an exception that is neither K8sClientException nor RetryError, which leaves
  -- `_update` uncounted.
  pub update-Trace : Ends
  unfolding update
  update-Trace =
      let (events, ended) = attempt-IsAttempted in
      elim ended [
        | inl (h, done) ↦ (events, ok tt, rw h, completed done)
        | inr (e, h, stopped) ↦ update-Stopped events e h stopped
      ]
