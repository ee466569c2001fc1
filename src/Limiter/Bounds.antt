-- ===== src/Limiter/Bounds.antt =====
-- How many calls of `Limit` return.
use bmw.Base.{
  Bool, Bool-cases, ap, arith, false, if◌then◌else◌, inl, inr, ltb, nat_eq, refl, string_eq, suc,
  true, zero, ℕ, ◌%◌, ◌+◌, ◌<◌, ◌^◌, ◌∙◌, ◌≡◌, ◌≤◌,
}
use bmw.Limiter.Steps.{
  Limiter, LimiterRun, LimiterStep, Phase, add_count, between, calls, end_tick, limit_call,
  new_rate_limiter, reset_count, resetting, resume, resumes, second_test, select_lock, selecting,
  selects, start_tick, stay, test_fresh, test_stale, testing, tests, tests_again, tests_late,
  then_run, tick_ends, tick_starts,
}

-- What a tick may still allow, from each of its phases. A reset allows `limit + callers` calls.
abbrev pub left_in : Limiter → Phase → ℕ
left_in r between = 0
left_in r selecting = suc ((r.limit + r.callers) + (r.limit + r.callers))
left_in r testing = r.limit + r.callers
left_in r resetting = r.limit + r.callers

-- What so many ticks allow.
unfoldable pub allowance : ℕ → ℕ → ℕ
allowance reset zero = 0
allowance reset (suc ticks) = suc (reset + reset) + allowance reset ticks

pub record Bounded (r : Limiter) : Type 0 where
  pub few : r.fresh + r.stale ≤ r.callers
  pub in_limit : r.window ≤ r.limit
  pub counted : r.window + r.fresh ≤ r.count
  pub bound :
      (r.returned + (r.resumed + r.stale)) + left_in r r.phase
      ≤ allowance (r.limit + r.callers) r.ticks + r.window

limit_call-Bounded :
    (r : Limiter)
    → r.fresh + r.stale < r.callers
    → r.count + 1 < 2 ^ 64
    → Bounded r
    → Bounded (limit_call r)
unfolding limit_call add_count
limit_call-Bounded r free h b =
    let fits : (r.count + 1) % 2 ^ 64 ≡ suc r.count = ground (arith, h) in
    record {
      few = omega (arith, free);
      in_limit = b.in_limit;
      counted = rw (fits) (omega (arith, b.counted));
      bound = b.bound;
    }

test_fresh-Bounded : (r : Limiter) → 0 < r.fresh → Bounded r → Bounded (test_fresh r)
unfolding test_fresh
test_fresh-Bounded r some_fresh b = elim (Bool-cases (ltb r.limit r.count)) [
  | inl above ↦
      rw (above, test_fresh)
        (record {
          few = omega (arith, b.few);
          in_limit = b.in_limit;
          counted = omega (arith, b.counted);
          bound = b.bound;
        })
  | inr under ↦
      rw (under, test_fresh)
        (record {
          few = omega (arith, b.few);
          in_limit = ground (arith, b.counted, under, some_fresh);
          counted = omega (arith, b.counted, some_fresh);
          bound = omega (arith, b.bound);
        })
]

test_stale-Bounded : (r : Limiter) → 0 < r.stale → Bounded r → Bounded (test_stale r)
unfolding test_stale
test_stale-Bounded r some_stale b = elim (Bool-cases (ltb r.limit r.count)) [
  | inl above ↦
      rw (above, test_stale)
        (record {
          few = omega (arith, b.few);
          in_limit = b.in_limit;
          counted = b.counted;
          bound = omega (arith, b.bound);
        })
  | inr under ↦
      rw (under, test_stale)
        (record {
          few = omega (arith, b.few);
          in_limit = b.in_limit;
          counted = b.counted;
          bound = omega (arith, b.bound, some_stale);
        })
]

resume-Bounded :
    (r : Limiter) → 0 < r.resumed → r.count + 1 < 2 ^ 64 → Bounded r → Bounded (resume r)
unfolding resume add_count
resume-Bounded r some_resumed h b =
    let fits : (r.count + 1) % 2 ^ 64 ≡ suc r.count = ground (arith, h) in
    record {
      few = b.few;
      in_limit = b.in_limit;
      counted = rw (fits) (omega (arith, b.counted));
      bound = omega (arith, b.bound, some_resumed);
    }

start_tick-Bounded : (r : Limiter) → r.phase ≡ between → Bounded r → Bounded (start_tick r)
unfolding start_tick allowance
start_tick-Bounded r h b =
    let slack : (r.returned + (r.resumed + r.stale))
        ≤ allowance (r.limit + r.callers) r.ticks + r.window =
      omega (arith, b.bound) in
    record {
      few = b.few;
      in_limit = b.in_limit;
      counted = b.counted;
      bound = elim (Bool-cases (ltb r.limit r.count)) [
        | inl above ↦ rw (above) (omega (arith, slack))
        | inr under ↦ rw (under) (omega (arith, slack))
      ];
    }

-- A reset, from a phase that allows it.
reset_count-Bounded :
    (r : Limiter) (more : ℕ)
    → Bounded r
    → left_in r r.phase ≡ (r.limit + r.callers) + more
    → (reset_count r).returned + ((reset_count r).resumed + (reset_count r).stale) + more
      ≤ allowance (r.limit + r.callers) r.ticks
unfolding reset_count
reset_count-Bounded r more b h = omega (arith, h, b.bound, b.few, b.in_limit)

select_lock-Bounded :
    (n : ℕ) (r : Limiter) → r.phase ≡ selecting → Bounded r → Bounded (select_lock n r)
unfolding select_lock reset_count
select_lock-Bounded zero r e b = record {
  few = omega (arith, b.few);
  in_limit = omega arith;
  counted = omega arith;
  bound =
      omega (
        arith,
        reset_count-Bounded r (suc (r.limit + r.callers)) b (ap (left_in r) e ∙ omega arith),
      );
}
select_lock-Bounded (suc n) r e b = record {
  few = b.few;
  in_limit = b.in_limit;
  counted = b.counted;
  bound = omega (arith, b.bound, ap (left_in r) e);
}

second_test-Bounded : (r : Limiter) → r.phase ≡ testing → Bounded r → Bounded (second_test r)
unfolding second_test
second_test-Bounded r h b = record {
  few = b.few;
  in_limit = b.in_limit;
  counted = b.counted;
  bound = elim (Bool-cases (ltb 0 r.count)) [
    | inl some_count ↦ rw (some_count) (omega (arith, b.bound, ap (left_in r) h))
    | inr no_count ↦ rw (no_count) (omega (arith, b.bound, ap (left_in r) h))
  ];
}

end_tick-Bounded : (r : Limiter) → r.phase ≡ resetting → Bounded r → Bounded (end_tick r)
unfolding end_tick reset_count
end_tick-Bounded r h b = record {
  few = omega (arith, b.few);
  in_limit = omega arith;
  counted = omega arith;
  bound = omega (arith, reset_count-Bounded r 0 b (ap (left_in r) h ∙ omega arith));
}

LimiterStep-Bounded : {r r' : Limiter} → LimiterStep r r' → Bounded r → Bounded r'
LimiterStep-Bounded (calls r free h) b = limit_call-Bounded r free h b
LimiterStep-Bounded (tests r h) b = test_fresh-Bounded r h b
LimiterStep-Bounded (tests_late r h) b = test_stale-Bounded r h b
LimiterStep-Bounded (resumes r s h) b = resume-Bounded r s h b
LimiterStep-Bounded (tick_starts r h) b = start_tick-Bounded r h b
LimiterStep-Bounded (selects r h) b = select_lock-Bounded r.waiting r h b
LimiterStep-Bounded (tests_again r h) b = second_test-Bounded r h b
LimiterStep-Bounded (tick_ends r h) b = end_tick-Bounded r h b

pub new_rate_limiter-Bounded : (callers limit : ℕ) → Bounded (new_rate_limiter callers limit)
unfolding new_rate_limiter allowance
new_rate_limiter-Bounded callers limit = record {
  few = omega arith;
  in_limit = omega arith;
  counted = omega arith;
  bound = omega arith;
}

run-Bounded : {r r' : Limiter} → LimiterRun r r' → Bounded r → Bounded r'
run-Bounded (stay r) b = b
run-Bounded (then_run r r' r'' first rest) b = run-Bounded rest (LimiterStep-Bounded first b)

-- The numbers of the limiter stay.
abbrev SameLimits : Limiter → Limiter → Type 0
SameLimits r r' = (r'.limit ≡ r.limit) × (r'.callers ≡ r.callers)

select_lock-SameLimits : (n : ℕ) (r : Limiter) → SameLimits r (select_lock n r)
unfolding select_lock reset_count
select_lock-SameLimits zero r = (refl, refl)
select_lock-SameLimits (suc n) r = (refl, refl)

either-SameLimits :
    (b : Bool) (r s t : Limiter)
    → SameLimits r s
    → SameLimits r t
    → SameLimits r (if b then s else t)
either-SameLimits true r s t h h' = h
either-SameLimits false r s t h h' = h'

step-SameLimits : {r r' : Limiter} → LimiterStep r r' → SameLimits r r'
unfolding limit_call test_fresh test_stale resume start_tick second_test end_tick reset_count
step-SameLimits (calls r free h) = (refl, refl)
step-SameLimits (tests r h) =
    either-SameLimits (ltb r.limit r.count) r _ _ (refl, refl) (refl, refl)
step-SameLimits (tests_late r h) =
    either-SameLimits (ltb r.limit r.count) r _ _ (refl, refl) (refl, refl)
step-SameLimits (resumes r s h) = (refl, refl)
step-SameLimits (tick_starts r h) = (refl, refl)
step-SameLimits (selects r h) = select_lock-SameLimits r.waiting r
step-SameLimits (tests_again r h) = (refl, refl)
step-SameLimits (tick_ends r h) = (refl, refl)

run-SameLimits : {r r' : Limiter} → LimiterRun r r' → SameLimits r r'
run-SameLimits (stay r) = (refl, refl)
run-SameLimits (then_run r r' r'' first rest) =
    let (l, c) = step-SameLimits first in let (l', c') = run-SameLimits rest in (l' ∙ l, c' ∙ c)

-- However the loads and stores of calls and ticks interleave, as long as the counter stays below 2^64: each
-- tick lets at most one call go on that blocked, and each of its two resets at most as many calls as the limit
-- and the callers that may be between their addition and their test. What has returned is at most that
-- for all ticks begun, and the calls since the last reset, which are at most the limit.
pub LimiterRun-Bounded :
    (callers limit : ℕ) {r : Limiter}
    → LimiterRun (new_rate_limiter callers limit) r
    → (r.returned ≤ allowance (limit + callers) r.ticks + r.window) × (r.window ≤ limit)
unfolding new_rate_limiter
LimiterRun-Bounded callers limit {r} run =
    let b = run-Bounded run (new_rate_limiter-Bounded callers limit) in
    let (l, c) = run-SameLimits run in
    let same : allowance (r.limit + r.callers) r.ticks ≡ allowance (limit + callers) r.ticks =
      ap (λ k. allowance (k + r.callers) r.ticks) l ∙ ap (λ k. allowance (limit + k) r.ticks) c in
    (omega (arith, b.bound, same), omega (arith, b.in_limit, l))
