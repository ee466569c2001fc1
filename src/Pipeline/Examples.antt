-- ===== src/Pipeline/Examples.antt =====
-- The theorems on the service at a handler that always asks for another try.
use bmw.Base.{List, [], arith, nat_eq, refl, some, string_eq, suc, true, ℕ, ◌+◌, ◌∷◌, ◌≡◌, ◌≤◌}
use bmw.Pipeline.Chain.{
  Chain, extend, nested, then_handler, then_handler-extend, then_handler-nested, then_loop,
}
use bmw.Pipeline.Drain.{Run-steps_left, steps_left}
use bmw.Pipeline.Flow.{Moves, workers_of}
use bmw.Pipeline.Pool.{
  Pool, PoolRun, dispatcher_busy, flight_back, handles, no_step, obtains, passes, registers, sends,
  started, takes, then_pool_step, wants_worker,
}
use bmw.Pipeline.Refined.{PoolRun-Run, seen}
use bmw.Pipeline.Retries.{Inv, Run-Inv, jobs_of, tries_of}
use bmw.Pipeline.Steps.{Run, State, after_job, dispatches, give_back, next, stop, works}
use bmw.Pipeline.Types.{RetryJob, Service, need_retry}
use bmw.Pipeline.Worker.{dispatch, handle_job}

abbrev service : Service
service = record {
  Bytes = ℕ;
  World = ℕ;
  marshal = λ job. some job.payload;
  unmarshal = λ n. (record { id = "a"; retry = 0; payload = n }, true);
  handle = λ job n. (suc n, need_retry);
}

abbrev job_of : ℕ → ℕ → RetryJob ℕ
job_of retry n = record { id = "a"; retry = retry; payload = n }

-- Two payloads wait, and nothing has happened yet.
abbrev pushed : State service
pushed = record { queue = 7 ∷ 8 ∷ []; held = []; world = 0; dispatched = []; calls = 0 }

abbrev one_dispatched : State service
one_dispatched = record {
  queue = 8 ∷ [];
  held = job_of 0 7 ∷ [];
  world = 0;
  dispatched = 7 ∷ [];
  calls = 0;
}

abbrev one_tried : State service
one_tried = record {
  queue = 8 ∷ [];
  held = job_of 1 7 ∷ [];
  world = 1;
  dispatched = 7 ∷ [];
  calls = 1;
}

two_steps : Run service 2 pushed one_tried
unfolding dispatch after_job handle_job give_back
two_steps = next 1 pushed one_dispatched one_tried (dispatches pushed 7 (8 ∷ []) refl) (
    next 0 one_dispatched one_tried one_tried (works one_dispatched [] [] (job_of 0 7) refl)
      (stop one_tried))

Run-steps_left_example : 2 + steps_left service one_tried ≤ steps_left service pushed
Run-steps_left_example = Run-steps_left service two_steps

pushed-Inv : Inv service (7 ∷ 8 ∷ []) pushed
unfolding tries_of jobs_of
pushed-Inv = (omega arith, refl)

Run-Inv_example : Inv service (7 ∷ 8 ∷ []) one_tried
Run-Inv_example = Run-Inv service two_steps pushed-Inv

-- One worker gets the first job, which asks for another try and waits for the worker to come back.
abbrev one_worker : Pool service
one_worker = started service (0 ∷ []) (7 ∷ 8 ∷ []) 0

abbrev waits_for_worker : Pool service
waits_for_worker = record {
  queue = 8 ∷ [];
  worker_pool = [];
  at_top = 0 ∷ [];
  flights = record { job = job_of 1 7; place = wants_worker } ∷ [];
  world = 1;
  dispatched = 7 ∷ [];
  calls = 1;
}

one_try : PoolRun service one_worker waits_for_worker
unfolding dispatch handle_job flight_back dispatcher_busy
one_try =
    then_pool_step
      (then_pool_step
        (then_pool_step
          (then_pool_step
            (then_pool_step (then_pool_step no_step (registers [] [] 0 refl))
              (takes 7 (8 ∷ []) refl refl))
            (obtains [] [] (job_of 0 7) true 0 [] refl refl))
          (sends [] [] (job_of 0 7) true 0 refl))
        (passes [] [] (job_of 0 7) 0 refl))
      (handles [] [] (job_of 0 7) refl)

PoolRun-Run_example :
    ((n : ℕ) × Run service n (seen service one_worker) (seen service waits_for_worker))
    × ((workers_of service waits_for_worker ≡ 1) × Moves service waits_for_worker)
PoolRun-Run_example = PoolRun-Run service (0 ∷ []) (7 ∷ 8 ∷ []) 0 (omega arith) one_try

-- Handlers that note the way that a request takes.
abbrev twice_then_log : Chain (List ℕ)
twice_then_log = record { constructors = (λ h. 1 ∷ h) ∷ (λ h. 2 ∷ h) ∷ [] }

then_handler-nested_example : then_handler twice_then_log (some (9 ∷ [])) ≡ some (1 ∷ 2 ∷ 9 ∷ [])
unfolding nested
then_handler-nested_example = then_handler-nested twice_then_log (9 ∷ [])

abbrev log_three : Chain (List ℕ)
log_three = record { constructors = (λ h. 3 ∷ h) ∷ [] }

then_handler-extend_example :
    then_handler (extend twice_then_log log_three) (some (9 ∷ []))
    ≡ then_handler twice_then_log (some (3 ∷ 9 ∷ []))
unfolding then_handler then_loop
then_handler-extend_example = then_handler-extend twice_then_log log_three (some (9 ∷ []))
