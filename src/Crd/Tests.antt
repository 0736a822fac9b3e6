-- ===== src/Crd/Tests.antt =====
-- Runs of the watcher.
use fiaas_deploy_daemon.Base.{
  String, ◌≡◌, refl, true, false, Option, none, some, [], ◌∷◌, not_found, Result, ok, raise,
}
use fiaas_deploy_daemon.Specs.Value.{end}
use fiaas_deploy_daemon.Deployer.Sample.{app}
use fiaas_deploy_daemon.Deployer.Spec.{AppSpec}
use fiaas_deploy_daemon.Deployer.Lifecycle.{Status, Subject, Log, signal, queued}
use fiaas_deploy_daemon.Crd.Watcher.{Application, deploy, watch, added, other}
use fiaas_deploy_daemon.Crd.Watcher.Laws.{EndsIn, subject_of, deploy-EndsIn}

abbrev shop : Application
shop = record {
  uid = "c1f34517";
  application = "shop";
  namespace = "default";
  config = end;
  labels = some (("fiaas/deployment_id", "d12") ∷ []);
  generation = 3;
  marked_for_deletion = false;
  observed_generation = 2;
  status_deployment_id = some "d11";
  additional_labels_status = none;
  additional_annotations_status = none;
}

abbrev answer_all : Status → Subject → Log → Result (Unit {0})
answer_all status s log = ok tt

abbrev suffix : String → String
suffix id = "mfzxg"

abbrev not_deployed : String → String → Result (Option String)
not_deployed name namespace = raise not_found

abbrev make_spec : Application → String → Result AppSpec
make_spec application id = ok app

shop_queued : deploy answer_all suffix not_deployed make_spec shop [] ≡ (
  ok tt,
  signal Status.initiated (subject_of shop "d12") ∷ queued app (subject_of shop "d12") ∷ [],
)
unfolding deploy
shop_queued = refl

deploy-EndsIn_example :
    EndsIn answer_all suffix not_deployed make_spec shop []
      (deploy answer_all suffix not_deployed make_spec shop [])
deploy-EndsIn_example = deploy-EndsIn answer_all suffix not_deployed make_spec shop []

-- A watch that meets an event of an unknown type skips what comes after it, and goes on.
unknown_event :
    watch answer_all suffix not_deployed make_spec true
      (ok tt)
      (other "BOOKMARK" ∷ added shop ∷ [])
      (ok tt)
      []
    ≡ (ok tt, [])
unfolding watch
unknown_event = refl
