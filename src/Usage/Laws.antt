-- ===== src/Usage/Laws.antt =====
-- The start of a deployment in the reports of fiaas_deploy_daemon/usage_reporting/transformer.py.
use fiaas_deploy_daemon.Usage.{
  UsageEvent, UsageConfig, Started, Report, key_of, started_at, started_after, transform,
}
use fiaas_deploy_daemon.Usage.{started_at}
use fiaas_deploy_daemon.PairDict.{same_key}
use fiaas_deploy_daemon.Base.{String, ◌≡◌, ◌⊎◌, false, List, [], ◌∷◌, Result, ok, raise}
use fiaas_deploy_daemon.Usage.{
  UsageEvent, UsageConfig, Started, Report, key_of, started_after, transform,
}

-- An event with the time at which it is reported.
abbrev pub Timed : Type 0
Timed = UsageEvent × String

-- The events are of other deployments.
abbrev pub IsOther : String × String → Timed → Type 0
IsOther key (event, _) = same_key (key_of event) key ≡ false

-- `_deployments_started` after the events.
abbrev pub after_all : UsageConfig → Started → List Timed → Started
after_all config started [] = started
after_all config started ((event, timestamp) ∷ events) =
    after_all config (transform config started event timestamp).1 events

-- The report says that the deployment started at the time.
abbrev pub SaysStarted : String → Result Report → Type 0
SaysStarted time (ok report) = report.started_at ≡ time
SaysStarted time (raise e) = ⊥

-- The events are one that starts a deployment, and one that ends the same deployment.
abbrev pub StartAndEnd : UsageEvent → UsageEvent → Type 0
StartAndEnd first last =
    (first.status ≡ "STARTED")
    × ((last.status ≡ "SUCCESS") ⊎ (last.status ≡ "FAILED"))
    × (key_of first ≡ key_of last)
