-- ===== src/Bootstrap/Tests.antt =====
-- Runs of the bootstrapper at a fixed clock.
use fiaas_deploy_daemon.Base.{
  ℕ, suc, ◌+◌, ◌≤◌, ◌<◌, String, ◌≡◌, refl, ◌↔◌, true, false, none, some, List, [], ◌∷◌, arith, ltb,
  if◌then◌else◌, all, Result, ok,
}
use fiaas_deploy_daemon.Base.{◌*◌}
use fiaas_deploy_daemon.Deployer.Spec.{AppSpec}
use fiaas_deploy_daemon.Deployer.Sample.{app}
use fiaas_deploy_daemon.Deployer.Lifecycle.{Status, Subject, Log}
use fiaas_deploy_daemon.Specs.Value.{end}
use fiaas_deploy_daemon.Crd.Watcher.{Application}
use fiaas_deploy_daemon.Bootstrap.{
  Statuses, store_status, is_success, wait_for_readiness, Waited, wait_for_readiness-Waited,
}
use fiaas_deploy_daemon.Bootstrap.Collected.{
  Call, status_at, store_all, put_all, empty_map, AllSucceeded, store_all-Refines,
}
use fiaas_deploy_daemon.Bootstrap.Run.{bootstrap_all}
use fiaas_deploy_daemon.Bootstrap.Run.Queued.{QueuesUpTo, bootstrap_all-QueuesUpTo}

-- Five seconds pass between two rounds, and the application is ready from the third one on.
abbrev clock : ℕ → ℕ
clock i = 5 * i

abbrev collected : ℕ → Statuses
collected i = (("shop", "default"), (if ltb i 3 then "started" else "success")) ∷ []

last_status :
    store_status (store_status [] "started" "shop" "default") "success" "shop" "default"
    ≡ (("shop", "default"), "success") ∷ []
unfolding store_status
last_status = refl

starts : clock 0 ≤ clock 1
starts = omega arith

runs : (i : ℕ) → clock (suc i) < clock (suc (suc i))
runs i = omega arith

wait_for_readiness-Waited_example :
    Waited clock collected 1 (clock 0 + 120) (wait_for_readiness clock collected 121 120)
wait_for_readiness-Waited_example = wait_for_readiness-Waited clock collected starts runs 120

abbrev calls : List Call
calls =
    (("shop", "default"), "started")
    ∷ (("shop", "other"), "success")
    ∷ (("shop", "default"), "success")
    ∷ []

store_all-Refines_example :
    ((key : String × String) → status_at (store_all [] calls) key ≡ put_all empty_map calls key)
    × ((all is_success (store_all [] calls) ≡ true) ↔ AllSucceeded (put_all empty_map calls))
store_all-Refines_example = store_all-Refines calls

abbrev application : String → Application
application name = record {
  uid = "u1";
  application = name;
  namespace = "default";
  config = end;
  labels = some (("fiaas/deployment_id", "d1") ∷ []);
  generation = 1;
  marked_for_deletion = false;
  observed_generation = 0;
  status_deployment_id = none;
  additional_labels_status = none;
  additional_annotations_status = none;
}

abbrev two_applications : List Application
two_applications = application "shop" ∷ record (application "bad") { labels = none } ∷ []

abbrev no_answer : Status → Subject → Log → Result (Unit {0})
no_answer status subject log = ok tt

abbrev fixed_factory : Application → String → Result AppSpec
fixed_factory a deployment_id = ok app

bootstrap_all-QueuesUpTo_example :
    QueuesUpTo no_answer true fixed_factory two_applications
      ([], [])
      (bootstrap_all no_answer true fixed_factory (ok two_applications) ([], []))
bootstrap_all-QueuesUpTo_example =
    bootstrap_all-QueuesUpTo no_answer true fixed_factory two_applications ([], [])
