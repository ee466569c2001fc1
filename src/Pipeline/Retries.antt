-- ===== src/Pipeline/Retries.antt =====
-- How often the handler is called, and the order in which the dispatcher takes what was pushed.
use mathlib.Core.List.{append_assoc}
use bmw.Base.{
  Bool, List, Option, [], ap, arith, false, if◌then◌else◌, inl, inr, nat_eq, string_eq, sym, true,
  ℕ, ◌++◌, ◌+◌, ◌∙◌, ◌∷◌, ◌≡◌, ◌≤◌,
}
use bmw.Pipeline.Drain.{tries}
use bmw.Pipeline.Handling.{handle_job-cases}
use bmw.Pipeline.Steps.{Run, State, Step, after_job, dispatches, give_back, next, stop, works}
use bmw.Pipeline.Types.{RetryJob, Service}
use bmw.Pipeline.Worker.{dispatch, handle_job}

module _ (v : Service) where
  open v use {Bytes, World}

  -- The calls that jobs can still lead to.
  unfoldable pub tries_of : List (RetryJob Bytes) → ℕ
  unfolding tries
  tries_of [] = 0
  tries_of (job ∷ jobs) = tries v job.retry + tries_of jobs

  -- The jobs of a list of items, as they were dispatched.
  unfoldable pub jobs_of : List Bytes → List (RetryJob Bytes)
  jobs_of [] = []
  jobs_of (bytes ∷ rest) = dispatch v bytes ∷ jobs_of rest

  tries_of-append :
      (xs ys : List (RetryJob Bytes)) → tries_of (xs ++ ys) ≡ tries_of xs + tries_of ys
  unfolding tries_of
  tries_of-append [] ys = omega arith
  tries_of-append (x ∷ xs) ys = omega (arith, tries_of-append xs ys)

  tries_of-snoc :
      (xs : List Bytes) (bytes : Bytes)
      → tries_of (jobs_of (xs ++ bytes ∷ []))
        ≡ tries_of (jobs_of xs) + tries v (dispatch v bytes).retry
  unfolding tries_of jobs_of
  tries_of-snoc [] bytes = omega arith
  tries_of-snoc (x ∷ xs) bytes = omega (arith, tries_of-snoc xs bytes)

  called : Bool → ℕ
  called b = if b then 1 else 0

  -- One call uses up one try.
  tries-give_back :
      (job : RetryJob Bytes) (w : World) (after : List (RetryJob Bytes))
      → let r = (handle_job v job w).1 in
        called r.0 + tries_of (give_back v r.1 after) ≤ tries v job.retry + tries_of after
  unfolding tries_of tries give_back called
  tries-give_back job w after = elim (handle_job-cases v job w) [
    | inl (e, _) ↦ rw (e) (omega arith)
    | inr (inl (e, less)) ↦ rw (e) (omega (arith, less))
    | inr (inr (e, less)) ↦ rw (e) (omega (arith, less))
  ]

  -- The state's history: the calls that were made and can still be made are within the tries of the
  -- jobs that were dispatched, and what was dispatched and what waits is what was pushed, in order.
  abbrev pub Inv : List Bytes → State v → Type 0
  Inv pushed s =
      (s.calls + tries_of s.held ≤ tries_of (jobs_of s.dispatched))
      × (s.dispatched ++ s.queue ≡ pushed)

  calls-after_job :
      (s : State v) (before after : List (RetryJob Bytes))
      (r : World × (Bool × Option (RetryJob Bytes)))
      → (after_job v s before after r).calls ≡ called r.1.0 + s.calls
  unfolding after_job called
  calls-after_job s before after (w, (true, back)) = omega arith
  calls-after_job s before after (w, (false, back)) = omega arith

  works-calls :
      (s : State v) (before after : List (RetryJob Bytes)) (job : RetryJob Bytes)
      → s.held ≡ before ++ job ∷ after
      → s.calls + tries_of s.held ≤ tries_of (jobs_of s.dispatched)
      → let s' = after_job v s before after (handle_job v job s.world) in
        s'.calls + tries_of s'.held ≤ tries_of (jobs_of s'.dispatched)
  unfolding after_job tries_of
  works-calls s before after job h few =
      let r = handle_job v job s.world in
      omega (
        arith,
        few,
        ap tries_of h,
        tries_of-append before (job ∷ after),
        tries_of-append before (give_back v r.1.1 after),
        tries-give_back job s.world after,
        calls-after_job s before after r,
      )

  Step-Inv : {pushed : List Bytes} {s s' : State v} → Step v s s' → Inv pushed s → Inv pushed s'
  unfolding tries_of after_job
  Step-Inv (dispatches s bytes rest h) (few, all) = (
    omega (
      arith,
      few,
      tries_of-append s.held (dispatch v bytes ∷ []),
      tries_of-snoc s.dispatched bytes,
    ),
    append_assoc s.dispatched (bytes ∷ []) rest ∙ ap (λ q. s.dispatched ++ q) (sym h) ∙ all,
  )
  Step-Inv (works s before after job h) (few, all) = (works-calls s before after job h few, all)

  -- While the dispatcher and the workers run, in any order: the calls of the handler, with the tries
  -- that the held jobs have left, stay within the tries that all the dispatched jobs came with, and
  -- what was dispatched, followed by what still waits, is what was pushed, in that order.
  pub Run-Inv :
      {pushed : List Bytes} {n : ℕ} {s s' : State v} → Run v n s s' → Inv pushed s → Inv pushed s'
  Run-Inv (stop s) i = i
  Run-Inv (next n s s' s'' first rest) i = Run-Inv rest (Step-Inv first i)
