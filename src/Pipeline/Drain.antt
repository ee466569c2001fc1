-- ===== src/Pipeline/Drain.antt =====
-- The steps that the dispatcher and the workers can still take, counted.
use bmw.Base.{
  List, [], arith, inl, inr, nat_eq, string_eq, suc, ℕ, ◌++◌, ◌+◌, ◌-◌, ◌<◌, ◌∷◌, ◌≡◌, ◌≤◌,
}
use bmw.Pipeline.Handling.{handle_job-cases}
use bmw.Pipeline.Steps.{Run, State, Step, after_job, dispatches, give_back, next, stop, works}
use bmw.Pipeline.Types.{RetryJob, Service, max_retry}
use bmw.Pipeline.Worker.{dispatch, handle_job}

module _ (v : Service) where
  open v use {Bytes, World}

  -- The tries that a job has left.
  unfoldable pub tries : ℕ → ℕ
  tries retry = max_retry - retry

  -- The steps that the held jobs can still take: each try, and the one that drops the job.
  unfoldable pub held_steps : List (RetryJob Bytes) → ℕ
  unfolding tries
  held_steps [] = 0
  held_steps (job ∷ jobs) = suc (tries job.retry) + held_steps jobs

  -- The steps that the queue can still take: those of its jobs, and their dispatch.
  unfoldable pub queue_steps : List Bytes → ℕ
  unfolding tries
  queue_steps [] = 0
  queue_steps (bytes ∷ rest) = suc (suc (tries (dispatch v bytes).retry)) + queue_steps rest

  unfoldable pub steps_left : State v → ℕ
  steps_left s = held_steps s.held + queue_steps s.queue

  held_steps-append :
      (xs ys : List (RetryJob Bytes)) → held_steps (xs ++ ys) ≡ held_steps xs + held_steps ys
  unfolding held_steps
  held_steps-append [] ys = omega arith
  held_steps-append (x ∷ xs) ys = omega (arith, held_steps-append xs ys)

  steps-give_back :
      (job : RetryJob Bytes) (w : World) (after : List (RetryJob Bytes))
      → held_steps (give_back v (handle_job v job w).1.1 after)
        < suc (tries job.retry) + held_steps after
  unfolding held_steps tries give_back
  steps-give_back job w after = elim (handle_job-cases v job w) [
    | inl (e, _) ↦ rw (e) (omega arith)
    | inr (inl (e, _)) ↦ rw (e) (omega arith)
    | inr (inr (e, less)) ↦ rw (e) (omega (arith, less))
  ]

  works-steps :
      (s : State v) (before after : List (RetryJob Bytes)) (job : RetryJob Bytes)
      → s.held ≡ before ++ job ∷ after
      → suc (steps_left (after_job v s before after (handle_job v job s.world))) ≤ steps_left s
  unfolding steps_left after_job held_steps
  works-steps s before after job h = rw (h) (
      omega (
        arith,
        held_steps-append before (job ∷ after),
        held_steps-append before (give_back v (handle_job v job s.world).1.1 after),
        steps-give_back job s.world after,
      ))

  Step-steps_left : {s s' : State v} → Step v s s' → suc (steps_left s') ≤ steps_left s
  unfolding steps_left queue_steps held_steps
  Step-steps_left (dispatches s bytes rest h) =
      rw (h) (omega (arith, held_steps-append s.held (dispatch v bytes ∷ [])))
  Step-steps_left (works s before after job h) = works-steps s before after job h

  -- However the goroutines are scheduled, the steps that the dispatcher and the workers take while
  -- nothing is pushed are at most those counted by the items of the channel and the tries that each
  -- job has left: the service comes to rest, also if every try asks for another.
  pub Run-steps_left : {n : ℕ} {s s' : State v} → Run v n s s' → n + steps_left s' ≤ steps_left s
  Run-steps_left (stop s) = omega arith
  Run-steps_left (next n s s' s'' first rest) =
      omega (arith, Step-steps_left first, Run-steps_left rest)
