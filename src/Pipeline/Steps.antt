-- ===== src/Pipeline/Steps.antt =====
-- The running service, dispatcher.go and worker.go. The goroutines are the steps of a relation, in any
-- order: the dispatcher takes the first item of the channel, and any of the jobs that workers hold
-- is handled. Pushes are not among the steps.
use bmw.Base.{
  Bool, List, Option, [], if◌then◌else◌, nat_eq, none, some, string_eq, suc, ℕ, ◌++◌, ◌∷◌, ◌≡◌,
}
use bmw.Pipeline.Types.{RetryJob, Service}
use bmw.Pipeline.Worker.{dispatch, handle_job}

module _ (v : Service) where
  open v use {Bytes, World}

  -- The channel, the jobs that the workers hold, and the world of the handlers; and, of the past,
  -- what was dispatched, in order, and how often the handler was called.
  pub record State : Type 0 where
    pub queue : List Bytes
    pub held : List (RetryJob Bytes)
    pub world : World
    pub dispatched : List Bytes
    pub calls : ℕ

  -- The job that goes back, if any, in front of the others.
  unfoldable pub give_back : Option (RetryJob Bytes) → List (RetryJob Bytes) → List (RetryJob Bytes)
  give_back none after = after
  give_back (some job) after = job ∷ after

  -- The state once a worker is done with a job that stood between the others.
  unfoldable pub after_job :
      State
      → List (RetryJob Bytes)
      → List (RetryJob Bytes)
      → World × (Bool × Option (RetryJob Bytes))
      → State
  unfolding give_back
  after_job s before after (w, (called, back)) = record s {
    held = before ++ give_back back after;
    world = w;
    calls = if called then suc s.calls else s.calls;
  }

  pub data Step : State → State → Type 0 where
    dispatches :
        (s : State) (bytes : Bytes) (rest : List Bytes)
        → s.queue ≡ bytes ∷ rest
        → Step s (record s {
          queue = rest;
          held = s.held ++ dispatch v bytes ∷ [];
          dispatched = s.dispatched ++ bytes ∷ [];
        })
    works :
        (s : State) (before after : List (RetryJob Bytes)) (job : RetryJob Bytes)
        → s.held ≡ before ++ job ∷ after
        → Step s (after_job s before after (handle_job v job s.world))

  -- So many steps of the dispatcher and the workers, with nothing pushed between them.
  pub data Run : ℕ → State → State → Type 0 where
    stop : (s : State) → Run 0 s s
    next : (n : ℕ) (s s' s'' : State) → Step s s' → Run n s' s'' → Run (suc n) s s''
