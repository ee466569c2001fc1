-- ===== src/Pipeline/Flow.antt =====
-- Lemmas on the workers of the pool of Pipeline/Pool, and on what can happen next in it.
use bmw.Base.{
  Bool, Bool-cases, List, Option, [], ap, arith, false, inl, inr, length, length-append, nat_eq,
  none, refl, some, string_eq, true, ℕ, ◌++◌, ◌+◌, ◌<◌, ◌∙◌, ◌∷◌, ◌≡◌, ◌⊎◌,
}
use bmw.Pipeline.Pool.{
  Flight, Place, Pool, PoolStep, at_dispatcher, dispatcher_busy, flight_back, handles, handling,
  in_limiter, obtains, passes, registers, sends, takes, to_worker, wants_worker,
}
use bmw.Pipeline.Types.{RetryJob, Service}
use bmw.Pipeline.Worker.{handle_job}

module _ (v : Service) where
  open v use {Bytes, World}

  -- How many workers are busy with a job before its handler runs.
  abbrev pub busy_at : Place → ℕ
  busy_at (to_worker by_dispatcher i) = 1
  busy_at (in_limiter i) = 1
  busy_at _ = 0

  unfoldable pub busy : List (Flight v) → ℕ
  busy [] = 0
  busy (f ∷ fs) = busy_at f.place + busy fs

  busy-append : (xs ys : List (Flight v)) → busy (xs ++ ys) ≡ busy xs + busy ys
  unfolding busy
  busy-append [] ys = omega arith
  busy-append (x ∷ xs) ys = omega (arith, busy-append xs ys)

  busy-flight_back :
      (back : Option (RetryJob Bytes)) (after : List (Flight v))
      → busy (flight_back v back after) ≡ busy after
  unfolding flight_back busy
  busy-flight_back none after = refl
  busy-flight_back (some job) after = omega arith

  -- The workers, wherever they are.
  abbrev pub workers_of : Pool v → ℕ
  workers_of s = length s.at_top + (length s.worker_pool + busy s.flights)

  pub step-workers_of : (s s' : Pool v) → PoolStep v s s' → workers_of s' ≡ workers_of s
  unfolding busy
  step-workers_of s s' (registers before after i e) = omega (
    arith,
    ap length e,
    length-append before (i ∷ after),
    length-append before after,
    length-append s.worker_pool (i ∷ []),
  )
  step-workers_of s s' (takes bytes rest e free) = omega (arith, busy-append s.flights _)
  step-workers_of s s' (obtains before after job true i rest e e') =
      omega (arith, ap busy e, ap length e', busy-append before _, busy-append before _)
  step-workers_of s s' (obtains before after job false i rest e e') =
      omega (arith, ap busy e, ap length e', busy-append before _, busy-append before _)
  step-workers_of s s' (sends before after job by_dispatcher i e) =
      omega (arith, ap busy e, busy-append before _, busy-append before _)
  step-workers_of s s' (passes before after job i e) = omega (
    arith,
    ap busy e,
    busy-append before _,
    busy-append before _,
    length-append s.at_top (i ∷ []),
  )
  step-workers_of s s' (handles before after job e) = omega (
    arith,
    ap busy e,
    busy-append before _,
    busy-append before _,
    busy-flight_back (handle_job v job s.world).1.1 after,
  )

  -- Whether a place needs a worker to go on.
  abbrev waiting : Place → Bool
  waiting at_dispatcher = true
  waiting wants_worker = true
  waiting _ = false

  -- A job that can go on, or none that has a worker.
  data Split (fs : List (Flight v)) : Type 0 where
    goes_on :
        (before after : List (Flight v)) (job : RetryJob Bytes) (place : Place)
        → fs ≡ before ++ record { job = job; place = place } ∷ after
        → waiting place ≡ false
        → Split fs
    all_wait : busy fs ≡ 0 → Split fs

  Split-cons : (f : Flight v) (fs : List (Flight v)) → Split fs → Split (f ∷ fs)
  unfolding busy
  Split-cons f fs (goes_on before after job place e h) =
      goes_on (f ∷ before) after job place (ap (λ l. f ∷ l) e) h
  Split-cons f fs (all_wait idle) = elim (Bool-cases (waiting f.place)) [
    | inl w ↦ all_wait (idle_at f.place w)
    | inr w ↦ goes_on [] fs f.job f.place refl w
  ]
    where
      idle_at : (place : Place) → waiting place ≡ true → busy_at place + busy fs ≡ 0
      idle_at at_dispatcher h = omega (arith, idle)
      idle_at wants_worker h = omega (arith, idle)
      idle_at handling h = absurd (ground (arith, h))
      idle_at (to_worker b i) h = absurd (ground (arith, h))
      idle_at (in_limiter i) h = absurd (ground (arith, h))

  Split-all : (fs : List (Flight v)) → Split fs
  unfolding busy
  Split-all [] = all_wait refl
  Split-all (f ∷ fs) = Split-cons f fs (Split-all fs)

  abbrev pub CanStep : Pool v → Type 0
  CanStep s = (s' : Pool v) × PoolStep v s s'

  goes_on-CanStep :
      (s : Pool v) (before after : List (Flight v)) (job : RetryJob Bytes) (place : Place)
      → s.flights ≡ before ++ record { job = job; place = place } ∷ after
      → waiting place ≡ false
      → CanStep s
  goes_on-CanStep s before after job at_dispatcher e h = absurd (ground (arith, h))
  goes_on-CanStep s before after job wants_worker e h = absurd (ground (arith, h))
  goes_on-CanStep s before after job handling e h = (_, handles before after job e)
  goes_on-CanStep s before after job (to_worker b i) e h = (_, sends before after job b i e)
  goes_on-CanStep s before after job (in_limiter i) e h = (_, passes before after job i e)

  first-CanStep :
      (s : Pool v) (f : Flight v) (fs : List (Flight v)) (i : ℕ) (rest : List ℕ)
      → s.flights ≡ f ∷ fs
      → s.worker_pool ≡ i ∷ rest
      → CanStep s
  first-CanStep s f fs i rest e e' = at_place f.place refl
    where
      at_place : (place : Place) → f.place ≡ place → CanStep s
      at_place at_dispatcher p =
          (_, obtains [] fs f.job true i rest (e ∙ ap (λ q. record f { place = q } ∷ fs) p) e')
      at_place wants_worker p =
          (_, obtains [] fs f.job false i rest (e ∙ ap (λ q. record f { place = q } ∷ fs) p) e')
      at_place handling p = (_, handles [] fs f.job (e ∙ ap (λ q. record f { place = q } ∷ fs) p))
      at_place (to_worker b j) p =
          (_, sends [] fs f.job b j (e ∙ ap (λ q. record f { place = q } ∷ fs) p))
      at_place (in_limiter j) p =
          (_, passes [] fs f.job j (e ∙ ap (λ q. record f { place = q } ∷ fs) p))

  -- All of the pool is at rest, or something can happen.
  abbrev pub Moves : Pool v → Type 0
  Moves s = ((s.flights ≡ []) × (s.queue ≡ [])) ⊎ CanStep s

  free-Moves :
      (s : Pool v) (fs : List (Flight v)) (queue : List Bytes) (i : ℕ) (rest : List ℕ)
      → s.flights ≡ fs
      → s.queue ≡ queue
      → s.worker_pool ≡ i ∷ rest
      → Moves s
  unfolding dispatcher_busy
  free-Moves s [] [] i rest e q p = inl (e, q)
  free-Moves s [] (bytes ∷ more) i rest e q p =
      inr (_, takes bytes more q (ap (dispatcher_busy v) e))
  free-Moves s (f ∷ fs) queue i rest e q p = inr (first-CanStep s f fs i rest e p)

  idle-Moves :
      (s : Pool v) (tops pool : List ℕ)
      → s.at_top ≡ tops
      → s.worker_pool ≡ pool
      → 0 < length tops + length pool
      → Moves s
  idle-Moves s (i ∷ tops) pool e p h = inr (_, registers [] tops i e)
  idle-Moves s [] (i ∷ pool) e p h = free-Moves s s.flights s.queue i pool refl refl p
  idle-Moves s [] [] e p h = absurd (omega (arith, h))

  pub workers_of-Moves : (s : Pool v) → 0 < workers_of s → Moves s
  workers_of-Moves s h = elim (Split-all s.flights) [
    | goes_on before after job place e w ↦ inr (goes_on-CanStep s before after job place e w)
    | all_wait idle ↦ idle-Moves s s.at_top s.worker_pool refl refl (omega (arith, h, idle))
  ]
