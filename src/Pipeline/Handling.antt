-- ===== src/Pipeline/Handling.antt =====
-- The ends of one call of `handle`.
use bmw.Base.{
  Bool-cases, arith, false, inl, inr, ltb, nat_eq, none, refl, some, string_eq, suc, true, ◌%◌, ◌+◌,
  ◌<◌, ◌^◌, ◌≡◌, ◌≤◌, ◌⊎◌,
}
use bmw.Pipeline.Types.{Answer, RetryJob, Service, done, failed, max_retry, need_retry}
use bmw.Pipeline.Worker.{handle_job}

module _ (v : Service) where
  open v use {Bytes, World}

  Answer-cases : (a : Answer) → (a ≡ done) ⊎ ((a ≡ failed) ⊎ (a ≡ need_retry))
  Answer-cases done = inl refl
  Answer-cases failed = inr (inl refl)
  Answer-cases need_retry = inr (inr refl)

  -- A job that was tried `MaxRetry` times is dropped without a call of the handler. Any other is
  -- handled once, and comes back with one try more or not at all; its counter does not overflow.
  pub handle_job-cases :
      (job : RetryJob Bytes) (w : World)
      → (((handle_job v job w).1 ≡ (false, none)) × (max_retry ≤ job.retry))
        ⊎ ((((handle_job v job w).1 ≡ (true, none)) × (job.retry < max_retry))
            ⊎ (((handle_job v job w).1 ≡ (true, some (record job { retry = suc job.retry })))
                × (job.retry < max_retry)))
  unfolding handle_job
  handle_job-cases job w = elim (Answer-cases (v.handle job w).1) [
    | inl e ↦ ground arith
    | inr (inl e) ↦ ground arith
    | inr (inr e) ↦ elim (Bool-cases (ltb job.retry 3)) [
      | inl less ↦
          let fits : (job.retry + 1) % 2 ^ 8 ≡ suc job.retry = ground arith in
          inr (inr (rw (less, e, fits) refl, ground arith))
      | inr more ↦ inl (rw (more) refl, ground arith)
    ]
  ]
