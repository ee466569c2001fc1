-- ===== src/Limiter/Examples.antt =====
-- The theorem on the rate limiter at a limit of one call and two callers: both add, a tick resets the counter,
-- and both return.
use bmw.Base.{arith, nat_eq, refl, string_eq, ◌+◌, ◌≤◌}
use bmw.Limiter.Bounds.{LimiterRun-Bounded, allowance}
use bmw.Limiter.Steps.{
  Limiter, LimiterRun, add_count, calls, limit_call, new_rate_limiter, reset_count, select_lock,
  selecting, selects, start_tick, stay, test_stale, testing, tests_late, then_run, tick_starts,
}

abbrev both_added : Limiter
both_added = record (new_rate_limiter 2 1) { count = 2; fresh = 2 }

abbrev selecting_tick : Limiter
selecting_tick = record both_added { ticks = 1; phase = selecting }

abbrev reset_by_tick : Limiter
reset_by_tick = record selecting_tick { count = 0; fresh = 0; stale = 2; phase = testing }

abbrev both_returned : Limiter
both_returned = record reset_by_tick { stale = 0; returned = 2 }

both_return : LimiterRun (new_rate_limiter 2 1) both_returned
unfolding new_rate_limiter limit_call add_count start_tick select_lock reset_count test_stale
both_return =
    then_run (new_rate_limiter 2 1) (limit_call (new_rate_limiter 2 1)) both_returned
      (calls (new_rate_limiter 2 1) (omega arith) (omega arith))
      (then_run (limit_call (new_rate_limiter 2 1)) both_added both_returned
        (calls (limit_call (new_rate_limiter 2 1)) (omega arith) (omega arith))
        (then_run both_added selecting_tick both_returned (tick_starts both_added refl) (
          then_run selecting_tick reset_by_tick both_returned (selects selecting_tick refl) (
            then_run reset_by_tick (test_stale reset_by_tick) both_returned
              (tests_late reset_by_tick (omega arith))
              (then_run (test_stale reset_by_tick) both_returned both_returned
                (tests_late (test_stale reset_by_tick) (omega arith)) (stay both_returned))))))

LimiterRun-Bounded_example : (2 ≤ allowance (1 + 2) 1 + 0) × (0 ≤ 1)
unfolding new_rate_limiter
LimiterRun-Bounded_example = LimiterRun-Bounded 2 1 both_return
