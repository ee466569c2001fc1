-- ===== src/Pipeline/Pool.antt =====
-- The worker pool at the grain of its channels: `dispatch` of dispatcher.go and the loops of `Start` and
-- `handle` of worker.go for asynchronous workers, which are those that `Run` starts.
use bmw.Base.{
  Bool, List, Option, [], false, if◌then◌else◌, nat_eq, none, some, string_eq, suc, true, ℕ, ◌++◌,
  ◌||◌, ◌∷◌, ◌≡◌,
}
use bmw.Pipeline.Types.{RetryJob, Service}
use bmw.Pipeline.Worker.{dispatch, handle_job}

-- Where a job stands: at the dispatcher or at a goroutine of `handle`, which wait for a channel of the pool;
-- at either with the channel of a worker, to be sent; at the worker, in `Limit`; in a goroutine of `handle`.
pub data Place : Type 0 where
  at_dispatcher wants_worker handling : Place
  to_worker : Bool → ℕ → Place
  in_limiter : ℕ → Place

module _ (v : Service) where
  open v use {Bytes, World}

  pub record Flight : Type 0 where
    pub job : RetryJob Bytes
    pub place : Place

  -- The channel of data, the workers whose channels are in `WorkerPool`, those at the top of their loop, and
  -- the jobs; and of the past what is in the state of the steps.
  pub record Pool : Type 0 where
    pub queue : List Bytes
    pub worker_pool : List ℕ
    pub at_top : List ℕ
    pub flights : List Flight
    pub world : World
    pub dispatched : List Bytes
    pub calls : ℕ

  -- Whether the dispatcher is busy with a job.
  abbrev pub of_dispatcher : Place → Bool
  of_dispatcher at_dispatcher = true
  of_dispatcher (to_worker by_dispatcher i) = by_dispatcher
  of_dispatcher _ = false

  unfoldable pub dispatcher_busy : List Flight → Bool
  dispatcher_busy [] = false
  dispatcher_busy (f ∷ fs) = of_dispatcher f.place || dispatcher_busy fs

  -- The job that `handle` puts back waits for a worker.
  unfoldable pub flight_back : Option (RetryJob Bytes) → List Flight → List Flight
  flight_back none after = after
  flight_back (some job) after = record { job = job; place = wants_worker } ∷ after

  abbrev pub move : Pool → List Flight → RetryJob Bytes → Place → List Flight → Pool
  move s before job place after = record s {
    flights = before ++ record { job = job; place = place } ∷ after;
  }

  pub data PoolStep (s : Pool) : Pool → Type 0 where
    -- `w.WorkerPool <- w.JobChannel`
    registers :
        (before after : List ℕ) (i : ℕ)
        → s.at_top ≡ before ++ i ∷ after
        → PoolStep s (record s { at_top = before ++ after; worker_pool = s.worker_pool ++ i ∷ [] })
    -- `Wait` and `Unmarshal` in `dispatch`
    takes :
        (bytes : Bytes) (rest : List Bytes)
        → s.queue ≡ bytes ∷ rest
        → dispatcher_busy s.flights ≡ false
        → PoolStep s (record s {
          queue = rest;
          flights = s.flights ++ record { job = dispatch v bytes; place = at_dispatcher } ∷ [];
          dispatched = s.dispatched ++ bytes ∷ [];
        })
    -- `<-d.WorkerPool` and `<-w.WorkerPool`
    obtains :
        (before after : List Flight) (job : RetryJob Bytes) (by_dispatcher : Bool) (i : ℕ)
        (rest : List ℕ)
        → s.flights
          ≡ before
            ++ record { job = job; place = if by_dispatcher then at_dispatcher else wants_worker }
              ∷ after
        → s.worker_pool ≡ i ∷ rest
        → PoolStep s
            (record (move s before job (to_worker by_dispatcher i) after) { worker_pool = rest })
    -- `jobChannel <- job`, which the worker receives
    sends :
        (before after : List Flight) (job : RetryJob Bytes) (by_dispatcher : Bool) (i : ℕ)
        → s.flights ≡ before ++ record { job = job; place = to_worker by_dispatcher i } ∷ after
        → PoolStep s (move s before job (in_limiter i) after)
    -- `Limit` returns: `go w.handle(job)`, and the worker is at the top of its loop
    passes :
        (before after : List Flight) (job : RetryJob Bytes) (i : ℕ)
        → s.flights ≡ before ++ record { job = job; place = in_limiter i } ∷ after
        → PoolStep s (record (move s before job handling after) { at_top = s.at_top ++ i ∷ [] })
    -- `handle` up to its end or to the wait for a worker
    handles :
        (before after : List Flight) (job : RetryJob Bytes)
        → s.flights ≡ before ++ record { job = job; place = handling } ∷ after
        → PoolStep s (record s {
          flights = before ++ flight_back (handle_job v job s.world).1.1 after;
          world = (handle_job v job s.world).0;
          calls = if (handle_job v job s.world).1.0 then suc s.calls else s.calls;
        })

  pub data PoolRun (s : Pool) : Pool → Type 0 where
    no_step : PoolRun s s
    then_pool_step : {s' s'' : Pool} → PoolRun s s' → PoolStep s' s'' → PoolRun s s''

  -- `Run` of the dispatcher: so many workers at the top of their loop, and data in the channel.
  abbrev pub started : List ℕ → List Bytes → World → Pool
  started workers queue w = record {
    queue = queue;
    worker_pool = [];
    at_top = workers;
    flights = [];
    world = w;
    dispatched = [];
    calls = 0;
  }
