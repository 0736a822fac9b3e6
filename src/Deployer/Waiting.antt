-- ===== src/Deployer/Waiting.antt =====
-- Ready checks of fiaas_deploy_daemon/deployer/kubernetes/ready_check.py as the tasks of
-- fiaas_deploy_daemon/deployer/scheduler.py.
use fiaas_deploy_daemon.Base.{
  ℕ, ◌+◌, ◌≤◌, ◌<◌, ◌≡◌, Bool, true, false, List, [], ◌∷◌, ◌++◌, if◌then◌else◌, Error, Result, ok,
  raise,
}
use fiaas_deploy_daemon.Deployer.Lifecycle.{
  Status, Subject, signal, count_error, count_success, Log, is_k8s_or_retry,
}
use fiaas_deploy_daemon.Deployer.ReadyCheck.{Cluster, ReadyCheck, ready, call}
use fiaas_deploy_daemon.Deployer.Scheduler.{Round}

module _ (send : Status → Subject → Log → Result (Unit {0})) (cluster : Cluster) (later : ℕ)
    (log : Log) where
  -- What became of a check whose turn it was, from the queue without it.
  pub data Handled (check : ReadyCheck) (rest : List (ℕ × ReadyCheck)) (r : Round ReadyCheck Log)
      : Type 0 where
    asked_again :
        ready cluster check ≡ ok false
        → cluster.monotonic < check.fail_after
        → r.result ≡ ok tt
        → r.queue ≡ (later + 10, check) ∷ rest
        → r.state ≡ log
        → Handled check rest r
    succeeded :
        ready cluster check ≡ ok true
        → r.result ≡ ok tt
        → r.queue ≡ rest
        → r.state
          ≡ log
            ++ (signal Status.success check.lifecycle_subject
                ∷ count_success check.app_spec.name
                ∷ [])
        → Handled check rest r
    timed_out :
        ready cluster check ≡ ok false
        → check.fail_after ≤ cluster.monotonic
        → r.result ≡ ok tt
        → r.queue ≡ rest
        → r.state
          ≡ log
            ++ (signal Status.failed check.lifecycle_subject ∷ count_error check.app_spec.name ∷ [])
        → Handled check rest r
    -- The cluster could not be asked.
    lost :
        (e : Error)
        → ready cluster check ≡ raise e
        → r.queue ≡ rest
        → r.state ≡ log
        → r.result ≡ (if is_k8s_or_retry e then ok tt else raise e)
        → Handled check rest r
    -- The outcome could not be signalled.
    unsignalled :
        (e : Error) (answer : Bool)
        → ready cluster check ≡ ok answer
        → r.queue ≡ rest
        → r.result ≡ (if is_k8s_or_retry e then ok tt else raise e)
        → (call send cluster check log).0 ≡ raise e
        → Handled check rest r
