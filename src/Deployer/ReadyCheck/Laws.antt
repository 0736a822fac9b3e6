-- ===== src/Deployer/ReadyCheck/Laws.antt =====
-- Theorems about fiaas_deploy_daemon/deployer/kubernetes/ready_check.py.
use fiaas_deploy_daemon.Base.{
  ◌≤◌, ◌<◌, String, ◌≡◌, refl, sym, ap, ◌∙◌, ◌≢◌, ◌↔◌, ◌⊎◌, inl, inr, Bool, true, false, List, [],
  ◌∷◌, ◌++◌, arith, leb, Bool-cases, leb→le, leb-false→lt, All, Error, not_found, client_error,
  Result, ok, raise, >>=-eq-ok, raise-ne-ok, Result-cases,
}
use mathlib.Core.List.{append_assoc}
use fiaas_deploy_daemon.Deployer.Lifecycle.{
  Status, Subject, Event, signal, count_error, count_success, Log, change,
}
use fiaas_deploy_daemon.Deployer.ReadyCheck.{
  CertificateView, IngressView, Cluster, ReadyCheck, is_certificate_ready, found_or_false,
  secrets_ready, all_secrets_ready, ready, finish, call_ready, call,
}

raise-ne-true :
    {A : Type 0} (e : Error) (f : A → Result Bool) → found_or_false (raise e) f ≢ ok true
raise-ne-true not_found f = λ h. cc
raise-ne-true (client_error n) f = λ h. cc
raise-ne-true _ f = λ h. cc

false-ne-true : ok false ≡ ok true → ⊥
false-ne-true h = cc

true-ne-false : ok true ≡ ok false → ⊥
true-ne-false h = cc

module _ (cluster : Cluster) where
  -- The secret of a TLS entry has a certificate, and that certificate is ready.
  abbrev pub HasReadyCertificate : String → String → Type 0
  HasReadyCertificate namespace secret =
      (cert : CertificateView) × (cluster.get_certificate secret namespace ≡ ok cert)
      × (is_certificate_ready cluster.now cert ≡ true)

  abbrev pub HasReadyCertificates : IngressView → Type 0
  HasReadyCertificates i = All (HasReadyCertificate i.namespace) i.secret_names

  found_or_false-eq-true :
      {A : Type 0} (r : Result A) (f : A → Result Bool)
      → found_or_false r f ≡ ok true
      → (a : A) × (r ≡ ok a) × (f a ≡ ok true)
  found_or_false-eq-true (ok a) f h = (a, refl, h)
  found_or_false-eq-true (raise e) f h = absurd (raise-ne-true e f h)

  secrets_ready_iff :
      (namespace : String) (secrets : List String)
      → (secrets_ready cluster namespace secrets ≡ ok true)
        ↔ All (HasReadyCertificate namespace) secrets
  unfolding secrets_ready
  secrets_ready_iff namespace [] = (λ _. tt, λ _. refl)
  secrets_ready_iff namespace (s ∷ ss) =
      let ih = secrets_ready_iff namespace ss in
      (
        λ h.
            let (cert, got, next) =
              found_or_false-eq-true (cluster.get_certificate s namespace) _ h in
            elim (Bool-cases (is_certificate_ready cluster.now cert)) [
              | inl good ↦ ((cert, got, good), ih.0 (rw good at next))
              | inr bad ↦ absurd (false-ne-true (rw bad at next))
            ],
        λ ((cert, got, good), later). rw (got, good) (ih.1 later),
      )

  -- The loop over the ingresses of `_ingress_ready` answers that all is ready exactly when each secret
  -- that a TLS entry of any of the ingresses names has a certificate, and each of these certificates
  -- is ready.
  pub all_secrets_ready_iff :
      (is : List IngressView)
      → (all_secrets_ready cluster is ≡ ok true) ↔ All HasReadyCertificates is
  unfolding all_secrets_ready
  all_secrets_ready_iff [] = (λ _. tt, λ _. refl)
  all_secrets_ready_iff (i ∷ is) =
      let here = secrets_ready_iff i.namespace i.secret_names in
      let later = all_secrets_ready_iff is in
      (
        λ h.
            let (good, got, next) =
              >>=-eq-ok (secrets_ready cluster i.namespace i.secret_names) _ h in
            elim (Bool-cases good) [
              | inl yes_good ↦ (here.0 (got ∙ ap ok yes_good), later.0 (rw yes_good at next))
              | inr bad ↦ absurd (false-ne-true (rw bad at next))
            ],
        λ h. rw (here.1 h.0) (later.1 h.1),
      )

module _ (send : Status → Subject → Log → Result (Unit {0})) (cluster : Cluster)
    (check : ReadyCheck) where
  abbrev Signalled : Status → Event → Log → Log → Type 0
  Signalled status counter log log' =
      log' ≡ log ++ (signal status check.lifecycle_subject ∷ counter ∷ [])

  finish-Signalled :
      (status : Status) (counter : Event) (log log' : Log)
      → finish send cluster status counter check.lifecycle_subject log ≡ (ok false, log')
      → Signalled status counter log log'
  unfolding finish change
  finish-Signalled status counter log log' h =
      elim (Result-cases (send status check.lifecycle_subject log)) [
        | inl (_, sent) ↦
            sym (ap (λ (p : Result Bool × Log). p.1) (rw sent at h)) ∙ append_assoc log _ _
        | inr (e, failed) ↦
            absurd (raise-ne-ok _ _ (ap (λ (p : Result Bool × Log). p.0) (rw failed at h)))
      ]

  finish-ne-again :
      (status : Status) (counter : Event) (log log' : Log)
      → finish send cluster status counter check.lifecycle_subject log ≢ (ok true, log')
  unfolding finish change
  finish-ne-again status counter log log' h =
      elim (Result-cases (send status check.lifecycle_subject log)) [
        | inl (_, sent) ↦ false-ne-true (ap (λ (p : Result Bool × Log). p.0) (rw sent at h))
        | inr (e, failed) ↦ raise-ne-ok _ _ (ap (λ (p : Result Bool × Log). p.0) (rw failed at h))
      ]

  call_ready-again :
      (r : Result Bool) (log log' : Log)
      → call_ready send cluster check r log ≡ (ok true, log')
      → (r ≡ ok false) × (cluster.monotonic < check.fail_after) × (log' ≡ log)
  unfolding call_ready
  call_ready-again (raise e) log log' h = ground arith
  call_ready-again (ok true) log log' h = absurd (finish-ne-again _ _ log log' h)
  call_ready-again (ok false) log log' h =
      elim (Bool-cases (leb check.fail_after cluster.monotonic)) [
        | inl late ↦ absurd (
            finish-ne-again Status.failed (count_error check.app_spec.name) log log' (rw late at h))
        | inr early ↦ (
          refl,
          leb-false→lt _ _ early,
          sym (ap (λ (p : Result Bool × Log). p.1) (rw early at h)),
        )
      ]

  call_ready-done :
      (r : Result Bool) (log log' : Log)
      → call_ready send cluster check r log ≡ (ok false, log')
      → ((r ≡ ok true) × Signalled Status.success (count_success check.app_spec.name) log log')
        ⊎ ((r ≡ ok false)
            × (check.fail_after ≤ cluster.monotonic)
            × Signalled Status.failed (count_error check.app_spec.name) log log')
  unfolding call_ready
  call_ready-done (raise e) log log' h = ground arith
  call_ready-done (ok true) log log' h = inl (refl, finish-Signalled _ _ log log' h)
  call_ready-done (ok false) log log' h =
      elim (Bool-cases (leb check.fail_after cluster.monotonic)) [
        | inl late ↦ inr (
          refl,
          leb→le _ _ late,
          finish-Signalled Status.failed (count_error check.app_spec.name) log log' (rw late at h),
        )
        | inr early ↦ absurd (true-ne-false (ap (λ (p : Result Bool × Log). p.0) (rw early at h)))
      ]

  -- A call of the task that answers `True`, to be asked again, was made before the deadline, found the
  -- deployment not ready, and signalled and counted nothing.
  pub call_again :
      (log log' : Log)
      → call send cluster check log ≡ (ok true, log')
      → (ready cluster check ≡ ok false) × (cluster.monotonic < check.fail_after) × (log' ≡ log)
  unfolding call
  call_again log log' h = call_ready-again (ready cluster check) log log' h

  -- A call that answers `False` signalled and counted one outcome: success if the deployment was
  -- ready, failure if it was not and the deadline had passed.
  pub call_done :
      (log log' : Log)
      → call send cluster check log ≡ (ok false, log')
      → ((ready cluster check ≡ ok true)
          × (log'
              ≡ log
                ++ (signal Status.success check.lifecycle_subject
                    ∷ count_success check.app_spec.name
                    ∷ [])))
        ⊎ ((ready cluster check ≡ ok false)
            × (check.fail_after ≤ cluster.monotonic)
            × (log'
                ≡ log
                  ++ (signal Status.failed check.lifecycle_subject
                      ∷ count_error check.app_spec.name
                      ∷ [])))
  unfolding call
  call_done log log' h = call_ready-done (ready cluster check) log log' h
