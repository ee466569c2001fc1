-- ===== src/Pipeline/Refined.antt =====
-- The worker pool of dispatcher.go and worker.go without its channels, as a state of Pipeline/Steps.
use bmw.Base.{
  List, Option, [], ap, arith, if◌then◌else◌, inl, inr, length, map, nat_eq, none, refl, some,
  string_eq, subst, suc, sym, ℕ, ◌++◌, ◌<◌, ◌∙◌, ◌∷◌, ◌≡◌, ◌⊎◌,
}
use bmw.Pipeline.Flow.{Moves, busy, step-workers_of, workers_of, workers_of-Moves}
use bmw.Pipeline.Pool.{
  Flight, Pool, PoolRun, PoolStep, flight_back, handles, no_step, obtains, passes, registers, sends,
  started, takes, then_pool_step,
}
use bmw.Pipeline.Steps.{Run, State, Step, after_job, dispatches, give_back, next, stop, works}
use bmw.Pipeline.Types.{RetryJob, Service}
use bmw.Pipeline.Worker.{handle_job}

module _ (v : Service) where
  open v use {Bytes, World}

  abbrev pub jobs_in : List (Flight v) → List (RetryJob Bytes)
  jobs_in fs = map (λ f. f.job) fs

  -- The pool without its channels.
  abbrev pub seen : Pool v → State v
  seen s = record {
    queue = s.queue;
    held = jobs_in s.flights;
    world = s.world;
    dispatched = s.dispatched;
    calls = s.calls;
  }

  jobs_in-append : (xs ys : List (Flight v)) → jobs_in (xs ++ ys) ≡ jobs_in xs ++ jobs_in ys
  jobs_in-append [] ys = refl
  jobs_in-append (x ∷ xs) ys = ap (λ l. x.job ∷ l) (jobs_in-append xs ys)

  -- Another place for a job.
  jobs_in-move :
      (before after : List (Flight v)) (f g : Flight v)
      → f.job ≡ g.job
      → jobs_in (before ++ f ∷ after) ≡ jobs_in (before ++ g ∷ after)
  jobs_in-move [] after f g e = ap (λ j. j ∷ jobs_in after) e
  jobs_in-move (x ∷ before) after f g e = ap (λ l. x.job ∷ l) (jobs_in-move before after f g e)

  jobs_in-flight_back :
      (back : Option (RetryJob Bytes)) (after : List (Flight v))
      → jobs_in (flight_back v back after) ≡ give_back v back (jobs_in after)
  unfolding flight_back give_back
  jobs_in-flight_back none after = refl
  jobs_in-flight_back (some job) after = refl

  -- A step of the pool is a step or none.
  PoolStep-seen : (s s' : Pool v) → PoolStep v s s' → (seen s' ≡ seen s) ⊎ Step v (seen s) (seen s')
  unfolding after_job
  PoolStep-seen s s' (registers before after i e) = inl refl
  PoolStep-seen s s' (takes bytes rest e free) = inr (
      subst
        (λ l.
          Step v (seen s)
            (record (seen s) { queue = rest; held = l; dispatched = s.dispatched ++ bytes ∷ [] }))
        (sym (jobs_in-append s.flights _)) (dispatches (seen s) bytes rest e))
  PoolStep-seen s s' (obtains before after job by_dispatcher i rest e e') = inl (
      ap (λ l. record (seen s) { held = l })
        (jobs_in-move before after _ _ refl ∙ sym (ap jobs_in e)))
  PoolStep-seen s s' (sends before after job by_dispatcher i e) = inl (
      ap (λ l. record (seen s) { held = l })
        (jobs_in-move before after _ _ refl ∙ sym (ap jobs_in e)))
  PoolStep-seen s s' (passes before after job i e) = inl (
      ap (λ l. record (seen s) { held = l })
        (jobs_in-move before after _ _ refl ∙ sym (ap jobs_in e)))
  PoolStep-seen s s' (handles before after job e) =
      let r = handle_job v job s.world in
      let stood : jobs_in s.flights ≡ jobs_in before ++ job ∷ jobs_in after =
        ap jobs_in e ∙ jobs_in-append before _ in
      let left : jobs_in before ++ give_back v r.1.1 (jobs_in after)
          ≡ jobs_in (before ++ flight_back v r.1.1 after) =
        sym (
          jobs_in-append before _
          ∙ ap (λ l. jobs_in before ++ l) (jobs_in-flight_back r.1.1 after)) in
      inr (
        subst
          (λ l. Step v (seen s) (record (seen s) {
            held = l;
            world = r.0;
            calls = if r.1.0 then suc s.calls else s.calls;
          }))
          left (works (seen s) (jobs_in before) (jobs_in after) job stood))

  Run-snoc : {n : ℕ} {a b c : State v} → Run v n a b → Step v b c → Run v (suc n) a c
  Run-snoc (stop s) step = next 0 _ _ _ step (stop _)
  Run-snoc (next n s s' s'' first rest) step = next (suc n) _ _ _ first (Run-snoc rest step)

  -- What a run of the pool from `s₀` has come to.
  record Reached (start s : Pool v) : Type 0 where
    steps : ℕ
    run : Run v steps (seen start) (seen s)
    workers : workers_of v s ≡ workers_of v start

  step-Reached : (start s s' : Pool v) → Reached start s → PoolStep v s s' → Reached start s'
  step-Reached start s s' h step = elim (PoolStep-seen s s' step) [
    | inl same ↦ record {
      steps = h.steps;
      run = subst (Run v h.steps (seen start)) (sym same) h.run;
      workers = step-workers_of v s s' step ∙ h.workers;
    }
    | inr abstract ↦ record {
      steps = suc h.steps;
      run = Run-snoc h.run abstract;
      workers = step-workers_of v s s' step ∙ h.workers;
    }
  ]

  run-Reached : (start s : Pool v) → PoolRun v start s → Reached start s
  run-Reached start s no_step = record { steps = 0; run = stop (seen start); workers = refl }
  run-Reached start s (then_pool_step {s' = mid} run step) =
      step-Reached start mid s (run-Reached start mid run) step

  -- Whatever the order in which the dispatcher, at least one worker and the goroutines of handle use their
  -- channels, seen without the channels they do a run of the steps of Pipeline/Steps. No worker is ever
  -- lost, and the service does not get stuck: something can happen until the channel of data is empty and no
  -- job is left, also while jobs that are retried wait for a worker.
  pub PoolRun-Run :
      (workers : List ℕ) (queue : List Bytes) (w : World) {s : Pool v}
      → 0 < length workers
      → PoolRun v (started v workers queue w) s
      → ((n : ℕ) × Run v n (seen (started v workers queue w)) (seen s))
        × ((workers_of v s ≡ length workers) × Moves v s)
  unfolding busy
  PoolRun-Run workers queue w {s} some_worker run =
      let reached = run-Reached (started v workers queue w) s run in
      let kept : workers_of v s ≡ length workers = omega (arith, reached.workers) in
      (
        (reached.steps, reached.run),
        (kept, workers_of-Moves v s (omega (arith, kept, some_worker))),
      )
