-- ===== src/Deployer/Scheduler.antt =====
-- fiaas_deploy_daemon/deployer/scheduler.py: tasks that run when their time has come. Times are whole
-- seconds. The queue is a list from which `get` takes a least entry; the order in which the real
-- queue keeps its entries is not modelled, nor what it does where two times are equal and the tasks
-- themselves are compared.
pub mod Laws
use fiaas_deploy_daemon.Base.{
  ℕ, suc, zero, ◌+◌, ◌-◌, ◌≤◌, ◌<◌, String, ◌<>◌, ◌≡◌, refl, sym, ap, ◌∙◌, ◌≢◌, ◌↔◌, ◌⊎◌, inl, inr,
  Bool, true, false, not, ◌&&◌, ◌||◌, Option, none, some, List, [], ◌∷◌, ◌++◌, map, arith, eq_iff,
  eq_refl, ◌==◌, ltb, leb, eqb, if◌then◌else◌, Bool-cases, Option-cases, leb→le, leb-false→lt,
  length, any, all, filter, contains, All, All-append, All-map, Error, invalid_configuration,
  value_error, key_error, index_error, type_error, attribute_error, runtime_error, yaml_error,
  retry_error, not_found, client_error, upsert_conflict, Result, ok, raise, ◌>>=◌, ◌>>◌, guard,
  >>=-eq-ok, ok-injective, guard-eq-ok, raise-ne-ok, Result-cases, Eff,
}
use fiaas_deploy_daemon.Deployer.Lifecycle.{is_k8s_or_retry}

module _ {T : Type 0} where
  -- `PriorityQueue.get`: a least entry and the rest.
  unfoldable pub pop_least : ℕ × T → List (ℕ × T) → (ℕ × T) × List (ℕ × T)
  pop_least e [] = (e, [])
  pop_least e (f ∷ queue) =
      let (least, rest) = pop_least (if leb e.0 f.0 then e else f) queue in
      (least, (if leb e.0 f.0 then f else e) ∷ rest)

-- What a round leaves: the result of the loop's body, the queue and the state of the tasks.
pub record Round (T S : Type 0) : Type 0 where
  pub result : Result (Unit {0})
  pub queue : List (ℕ × T)
  pub state : S

module _ {T S : Type 0} (run : T → Eff S Bool) where
  -- `add`, at the time `now`
  unfoldable pub add : ℕ → T → ℕ → List (ℕ × T) → List (ℕ × T)
  add now task delay queue = (now + delay, task) ∷ queue

  -- After `task()`, at the time `later`.
  unfoldable pub after_run : ℕ → T → List (ℕ × T) → Result Bool × S → Round T S
  unfolding add
  after_run later task rest (ok true, s) = record {
    result = ok tt;
    queue = add later task 10 rest;
    state = s;
  }
  after_run later task rest (ok false, s) = record { result = ok tt; queue = rest; state = s }
  after_run later task rest (raise e, s) = record {
    result = (if is_k8s_or_retry e then ok tt else raise e);
    queue = rest;
    state = s;
  }

  run_entry : ℕ → ℕ → (ℕ × T) × List (ℕ × T) → S → Round T S
  unfolding after_run
  run_entry now later (entry, rest) s =
      if leb entry.0 now
      then after_run later entry.1 rest (run entry.1 s)
      else record { result = ok tt; queue = add later entry.1 1 rest; state = s }

  -- One round of the loop of `Scheduler.__call__` on a queue that is not empty; `get` waits on an
  -- empty one. The clock is read as `now` for the test and as `later` by `add`.
  unfoldable pub round : ℕ → ℕ → ℕ × T → List (ℕ × T) → S → Round T S
  unfolding pop_least run_entry
  round now later e queue s = run_entry now later (pop_least e queue) s
