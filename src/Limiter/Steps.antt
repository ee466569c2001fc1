-- ===== src/Limiter/Steps.antt =====
-- `RateLimiter` of lib/rate_limiter.go as a step relation: `Limit`, which so many goroutines may call, and the
-- goroutine of `NewRateLimiter`. Each load and each store of the counter is a step of its own.
use bmw.Base.{if◌then◌else◌, ltb, nat_eq, string_eq, suc, zero, ℕ, ◌%◌, ◌+◌, ◌-◌, ◌<◌, ◌^◌, ◌≡◌}

-- Where a tick stands: before the next one, in its select, at its second test, or about to reset the counter.
pub data Phase : Type 0 where
  between selecting testing resetting : Phase

-- The counter; the calls that have added to it and not yet read it, those that did so since it was last reset
-- and the others; the calls that block on `lockCh`, or were let go on and are about to count again; and, of
-- the past, the calls that returned, those of them that added and read since the last reset, and the ticks.
-- `callers` is the most calls that are between their addition and their test.
pub record Limiter : Type 0 where
  pub limit : ℕ
  pub callers : ℕ
  pub count : ℕ
  pub fresh : ℕ
  pub stale : ℕ
  pub waiting : ℕ
  pub resumed : ℕ
  pub phase : Phase
  pub returned : ℕ
  pub window : ℕ
  pub ticks : ℕ

-- `NewRateLimiter`.
unfoldable pub new_rate_limiter : ℕ → ℕ → Limiter
new_rate_limiter callers limit = record {
  limit = limit;
  callers = callers;
  count = 0;
  fresh = 0;
  stale = 0;
  waiting = 0;
  resumed = 0;
  phase = between;
  returned = 0;
  window = 0;
  ticks = 0;
}

-- `addCount(1)`, on 64 bits.
unfoldable pub add_count : ℕ → ℕ
add_count count = (count + 1) % 2 ^ 64

-- `Limit` up to its test.
unfoldable pub limit_call : Limiter → Limiter
unfolding add_count
limit_call r = record r { count = add_count r.count; fresh = suc r.fresh }

-- The test of a call that added since the last reset: it returns, or sends on `lockCh`.
unfoldable pub test_fresh : Limiter → Limiter
test_fresh r =
    if ltb r.limit r.count
    then record r { fresh = r.fresh - 1; waiting = suc r.waiting }
    else record r { fresh = r.fresh - 1; returned = suc r.returned; window = suc r.window }

-- The test of a call that added before it.
unfoldable pub test_stale : Limiter → Limiter
test_stale r =
    if ltb r.limit r.count
    then record r { stale = r.stale - 1; waiting = suc r.waiting }
    else record r { stale = r.stale - 1; returned = suc r.returned }

-- `resetCount`.
unfoldable pub reset_count : Limiter → Limiter
reset_count r = record r { count = 0; window = 0; fresh = 0; stale = r.stale + r.fresh }

-- The first test of a tick.
unfoldable pub start_tick : Limiter → Limiter
start_tick r = record r {
  ticks = suc r.ticks;
  phase = if ltb r.limit r.count then selecting else testing;
}

-- The select of a tick: a waiting call goes on, or the counter is reset.
unfoldable pub select_lock : ℕ → Limiter → Limiter
unfolding reset_count
select_lock zero r = record (reset_count r) { phase = testing }
select_lock (suc n) r = record r { waiting = n; resumed = suc r.resumed; phase = testing }

-- The second test of a tick.
unfoldable pub second_test : Limiter → Limiter
second_test r = record r { phase = if ltb 0 r.count then resetting else between }

-- The reset behind it.
unfoldable pub end_tick : Limiter → Limiter
unfolding reset_count
end_tick r = record (reset_count r) { phase = between }

-- The end of a call that blocked.
unfoldable pub resume : Limiter → Limiter
unfolding add_count
resume r = record r {
  resumed = r.resumed - 1;
  count = add_count r.count;
  returned = suc r.returned;
}

pub data LimiterStep : Limiter → Limiter → Type 0 where
  -- The counter is far from 2^64.
  calls :
      (r : Limiter)
      → r.fresh + r.stale < r.callers
      → r.count + 1 < 2 ^ 64
      → LimiterStep r (limit_call r)
  tests : (r : Limiter) → 0 < r.fresh → LimiterStep r (test_fresh r)
  tests_late : (r : Limiter) → 0 < r.stale → LimiterStep r (test_stale r)
  resumes : (r : Limiter) → 0 < r.resumed → r.count + 1 < 2 ^ 64 → LimiterStep r (resume r)
  tick_starts : (r : Limiter) → r.phase ≡ between → LimiterStep r (start_tick r)
  selects : (r : Limiter) → r.phase ≡ selecting → LimiterStep r (select_lock r.waiting r)
  tests_again : (r : Limiter) → r.phase ≡ testing → LimiterStep r (second_test r)
  tick_ends : (r : Limiter) → r.phase ≡ resetting → LimiterStep r (end_tick r)

pub data LimiterRun : Limiter → Limiter → Type 0 where
  stay : (r : Limiter) → LimiterRun r r
  then_run : (r r' r'' : Limiter) → LimiterStep r r' → LimiterRun r' r'' → LimiterRun r r''
