-- ===== src/Deployer/Tests.antt =====
-- Runs of the deployer, of its ready check and of its scheduler.
use fiaas_deploy_daemon.Deployer.Scheduler.Laws.{Waited, Ran, round-Conserves}
use fiaas_deploy_daemon.Base.{
  none, type_error, ℕ, ◌≤◌, ◌<◌, String, ◌≡◌, refl, ◌↔◌, ◌⊎◌, Bool, true, false, some, List, [],
  ◌∷◌, ◌==◌, All, client_error, Result, ok, raise, Eff,
}
use fiaas_deploy_daemon.Deployer.Sample.{app, subject}
use fiaas_deploy_daemon.Deployer.Lifecycle.{Status, Subject, Log, Event}
use fiaas_deploy_daemon.Deployer.Spec.{AppSpec}
use fiaas_deploy_daemon.Deployer.Update.Laws.{Ends, update-Trace}
use fiaas_deploy_daemon.Deployer.ReadyCheck.{
  DeploymentView, CertificateView, IngressView, Cluster, ReadyCheck, make_ready_check,
  is_rolled_out, calculate_fail_time, all_secrets_ready, ready, call,
}
use fiaas_deploy_daemon.Deployer.ReadyCheck.Laws.{
  HasReadyCertificates, all_secrets_ready_iff, call_again, call_done,
}
use fiaas_deploy_daemon.Deployer.Scheduler.{round}

abbrev answer_all : Status → Subject → Log → Result (Unit {0})
answer_all status s log = ok tt

abbrev refuse_deploy : AppSpec → Log → Result (Unit {0})
refuse_deploy a log = raise (client_error 403)

abbrev schedule : AppSpec → Subject → Log → Result (Unit {0})
schedule a s log = ok tt

update-Trace_example : Ends answer_all refuse_deploy schedule app subject []
update-Trace_example = update-Trace answer_all refuse_deploy schedule app subject []

abbrev rolling : DeploymentView
rolling = record {
  spec_replicas = 2;
  updated_replicas = some 2;
  status_replicas = some 3;
  available_replicas = some 2;
  observed_generation = some 7;
  generation = 7;
}

abbrev rolled : DeploymentView
rolled = record rolling { status_replicas = some 2 }

is_ready : is_rolled_out rolled ≡ ok true
unfolding is_rolled_out
is_ready = refl

-- A new Deployment that wants no replicas and that the controller has not seen yet.
abbrev unseen : DeploymentView
unseen = record {
  spec_replicas = 0;
  updated_replicas = none;
  status_replicas = none;
  available_replicas = none;
  observed_generation = none;
  generation = 1;
}

unseen_raises : is_rolled_out unseen ≡ raise type_error
unfolding is_rolled_out
unseen_raises = refl

abbrev certificate : CertificateView
certificate = record { not_after = some 5000; conditions = ("Ready", "True") ∷ [] }

abbrev shop_ingress : IngressView
shop_ingress = record { namespace = "default"; secret_names = "shop-ingress-tls" ∷ [] }

abbrev cluster : DeploymentView → ℕ → Cluster
cluster dep monotonic = record {
  get_deployment = λ name namespace. ok dep;
  find_ingresses = λ name namespace. ok (shop_ingress ∷ []);
  get_certificate = λ name namespace. ok certificate;
  now = 1000;
  monotonic = monotonic;
}

all_secrets_ready_iff_example :
    (all_secrets_ready (cluster rolled 0) (shop_ingress ∷ []) ≡ ok true)
    ↔ All (HasReadyCertificates (cluster rolled 0)) (shop_ingress ∷ [])
all_secrets_ready_iff_example = all_secrets_ready_iff (cluster rolled 0) (shop_ingress ∷ [])

abbrev check : ReadyCheck
check = record {
  app_spec = app;
  lifecycle_subject = subject;
  fail_after = 600;
  should_check_ingress = true;
}

-- The check of the application, made at the time 100 with a multiplier of ten, fails at 600.
made_at_100 : make_ready_check app subject 10 true 100 ≡ check
unfolding make_ready_check calculate_fail_time
made_at_100 = refl

abbrev nothing : Log
nothing = []

asked_again : call answer_all (cluster rolling 150) check nothing ≡ (ok true, nothing)
unfolding call
asked_again = refl

call_again_example :
    (ready (cluster rolling 150) check ≡ ok false)
    × ((cluster rolling 150).monotonic < check.fail_after)
    × (nothing ≡ nothing)
call_again_example = call_again answer_all (cluster rolling 150) check nothing nothing asked_again

abbrev success_log : Log
success_log = Event.signal Status.success subject ∷ Event.count_success "shop" ∷ []

succeeded : call answer_all (cluster rolled 700) check [] ≡ (ok false, success_log)
unfolding call
succeeded = refl

call_done_example :
    ((ready (cluster rolled 700) check ≡ ok true)
      × (success_log ≡ Event.signal Status.success subject ∷ Event.count_success "shop" ∷ []))
    ⊎ ((ready (cluster rolled 700) check ≡ ok false)
        × (check.fail_after ≤ (cluster rolled 700).monotonic)
        × (success_log ≡ Event.signal Status.failed subject ∷ Event.count_error "shop" ∷ []))
call_done_example = call_done answer_all (cluster rolled 700) check [] success_log succeeded

-- A task is a text here; running it adds it to the state, and only "again" is to be run again.
abbrev run_task : String → Eff (List String) Bool
run_task name ran = (ok (name == "again"), name ∷ ran)

round-Conserves_example :
    Waited run_task 5 6
      ((7, "late") ∷ (3, "again") ∷ [])
      []
      (round run_task 5 6 (7, "late") ((3, "again") ∷ []) [])
    ⊎ Ran run_task 5 6
        ((7, "late") ∷ (3, "again") ∷ [])
        []
        (round run_task 5 6 (7, "late") ((3, "again") ∷ []) [])
round-Conserves_example = round-Conserves run_task 5 6 (7, "late") ((3, "again") ∷ []) []

abbrev queued_checks : List (ℕ × ReadyCheck)
queued_checks = (140, check) ∷ []
