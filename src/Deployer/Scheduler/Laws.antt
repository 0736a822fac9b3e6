-- ===== src/Deployer/Scheduler/Laws.antt =====
-- Theorems about a round of fiaas_deploy_daemon/deployer/scheduler.py.
use mathlib.Core.Path.{subst}
use fiaas_deploy_daemon.Base.{
  ℕ, ◌+◌, ◌≤◌, ◌<◌, ◌≡◌, refl, ◌⊎◌, inl, inr, Bool, true, false, List, [], ◌∷◌, arith, leb,
  if◌then◌else◌, Bool-cases, leb→le, leb-false→lt, All, Result, ok, raise, Eff,
}
use fiaas_deploy_daemon.Deployer.Lifecycle.{is_k8s_or_retry}
use fiaas_deploy_daemon.Deployer.Scheduler.{pop_least, Round, add, after_run, run_entry, round}

module _ {T : Type 0} (p : ℕ × T → Bool) where
  abbrev pub one : ℕ × T → ℕ
  one e = if p e then 1 else 0

  -- How many entries of a queue, each a time and a task, meet a test.
  abbrev pub count : List (ℕ × T) → ℕ
  count [] = 0
  count (e ∷ queue) = one e + count queue

  count-pop_least :
      (e : ℕ × T) (queue : List (ℕ × T))
      → count (e ∷ queue) ≡ one (pop_least e queue).0 + count (pop_least e queue).1
  unfolding pop_least
  count-pop_least e [] = refl
  count-pop_least e (f ∷ queue) = elim (Bool-cases (leb e.0 f.0)) [
    | inl before ↦ rw before (omega (arith, count-pop_least e queue))
    | inr after ↦ rw after (omega (arith, count-pop_least f queue))
  ]

module _ {T : Type 0} where
  -- What is not after the least entry is not after any entry.
  pop_least-All :
      (m : ℕ) (e : ℕ × T) (queue : List (ℕ × T))
      → m ≤ (pop_least e queue).0.0
      → All (λ f. m ≤ f.0) (e ∷ queue)
  unfolding pop_least
  pop_least-All m e [] le = (le, tt)
  pop_least-All m e (f ∷ queue) le = elim (Bool-cases (leb e.0 f.0)) [
    | inl before ↦
        let le_least = subst (λ b. m ≤ (pop_least (if b then e else f) queue).0.0) before le in
        let (first, others) = pop_least-All m e queue le_least in
        (first, (omega (arith, leb→le e.0 f.0 before, first), others))
    | inr after ↦
        let le_least = subst (λ b. m ≤ (pop_least (if b then e else f) queue).0.0) after le in
        let (first, others) = pop_least-All m f queue le_least in
        (omega (arith, leb-false→lt e.0 f.0 after, first), (first, others))
  ]

  -- One entry of a queue, which no other is due before, and the others with their times.
  abbrev pub Takes : List (ℕ × T) → (ℕ × T) × List (ℕ × T) → Type 0
  Takes queue popped =
      All (λ f. popped.0.0 ≤ f.0) queue
      × ((p : ℕ × T → Bool) → count p queue ≡ one p popped.0 + count p popped.1)

  pop_least-Takes : (e : ℕ × T) (queue : List (ℕ × T)) → Takes (e ∷ queue) (pop_least e queue)
  pop_least-Takes e queue =
      (pop_least-All (pop_least e queue).0.0 e queue (omega arith), λ p. count-pop_least p e queue)

module _ {T S : Type 0} (run : T → Eff S Bool) where
  -- Nothing is due: no task ran, and the first entry is put back for a second later.
  abbrev pub Waited : ℕ → ℕ → List (ℕ × T) → S → Round T S → Type 0
  Waited now later queue s r =
      (popped : (ℕ × T) × List (ℕ × T)) × Takes queue popped
      × (now < popped.0.0)
      × (r.result ≡ ok tt)
      × (r.state ≡ s)
      × (r.queue ≡ (later + 1, popped.0.1) ∷ popped.1)

  -- What becomes of a task that ran with a result.
  abbrev pub Resolved : ℕ → T → List (ℕ × T) → Result Bool → Round T S → Type 0
  Resolved later t rest (ok true) r = (r.result ≡ ok tt) × (r.queue ≡ (later + 10, t) ∷ rest)
  Resolved later t rest (ok false) r = (r.result ≡ ok tt) × (r.queue ≡ rest)
  Resolved later t rest (raise e) r =
      (r.queue ≡ rest)
      × (((is_k8s_or_retry e ≡ true) × (r.result ≡ ok tt))
          ⊎ ((is_k8s_or_retry e ≡ false) × (r.result ≡ raise e)))

  -- An entry that no other is due before was due, and its task ran, and only it.
  abbrev pub Ran : ℕ → ℕ → List (ℕ × T) → S → Round T S → Type 0
  Ran now later queue s r =
      (popped : (ℕ × T) × List (ℕ × T)) × Takes queue popped
      × (popped.0.0 ≤ now)
      × (r.state ≡ (run popped.0.1 s).1)
      × Resolved later popped.0.1 popped.1 (run popped.0.1 s).0 r

  after_run-Resolved :
      (later : ℕ) (t : T) (rest : List (ℕ × T)) (done : Result Bool × S)
      → ((after_run run later t rest done).state ≡ done.1)
        × Resolved later t rest done.0 (after_run run later t rest done)
  unfolding after_run add
  after_run-Resolved later t rest (ok true, s) = (refl, (refl, refl))
  after_run-Resolved later t rest (ok false, s) = (refl, (refl, refl))
  after_run-Resolved later t rest (raise e, s) = elim (Bool-cases (is_k8s_or_retry e)) [
    | inl caught ↦ (refl, (refl, inl (caught, rw caught refl)))
    | inr uncaught ↦ (refl, (refl, inr (uncaught, rw uncaught refl)))
  ]

  -- A round of the scheduler on a queue that is not empty takes an entry that no other is due before,
  -- and keeps all others with their times. If the entry's time is in the future, no task runs, and
  -- its task is put back for a second later. If its time has come, its task runs once and no other
  -- does; it is put back for ten seconds later where it returned true, and dropped where it returned
  -- false or raised, and what it raised is passed on where that is no client error and no retry error.
  pub round-Conserves :
      (now later : ℕ) (e : ℕ × T) (queue : List (ℕ × T)) (s : S)
      → Waited now later (e ∷ queue) s (round run now later e queue s)
        ⊎ Ran now later (e ∷ queue) s (round run now later e queue s)
  unfolding round run_entry add
  round-Conserves now later e queue s = elim (Bool-cases (leb (pop_least e queue).0.0 now)) [
    | inl due ↦
        let (state, resolved) =
          after_run-Resolved later (pop_least e queue).0.1 (pop_least e queue).1
            (run (pop_least e queue).0.1 s) in
        rw due (
          inr (
            pop_least e queue,
            pop_least-Takes e queue,
            leb→le (pop_least e queue).0.0 now due,
            state,
            resolved,
          ))
    | inr early ↦ rw early (
        inl (
          pop_least e queue,
          pop_least-Takes e queue,
          leb-false→lt (pop_least e queue).0.0 now early,
          refl,
          refl,
          refl,
        ))
  ]
