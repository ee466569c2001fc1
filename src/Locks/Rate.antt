-- ===== src/Locks/Rate.antt =====
-- `LimitRate` of lib/sleep_rate_limit.go. Time is counted in nanoseconds from the zero time.
use bmw.Base.{
  Bool, Bool-cases, Option, ap, arith, false, if◌then◌else◌, inl, inr, ltb, nat_eq, none, refl,
  some, string_eq, suc, true, zero, ℕ, ◌*◌, ◌+◌, ◌-◌, ◌/◌, ◌<◌, ◌^◌, ◌≡◌, ◌≤◌,
}

pub record LimitRate : Type 0 where
  pub rate : ℕ
  pub interval : ℕ
  pub last_action : ℕ

-- `SetRate` of a rate that is not negative. A rate of 0 divides by zero.
unfoldable pub set_rate : ℕ → LimitRate → Option LimitRate
set_rate zero l = none
set_rate (suc r) l = some (record l { rate = suc r; interval = 10 ^ 9 / suc r })

-- One round of the loop of `Limit` under its lock, which reads the clock once or twice: whether the call
-- returns.
unfoldable pub limit_round : ℕ → ℕ → LimitRate → LimitRate × Bool
limit_round first second l =
    if ltb l.interval (first - l.last_action)
    then (record l { last_action = second }, true)
    else (l, false)

-- The limiter, the time, and how many calls have returned.
pub record Limited : Type 0 where
  pub limiter : LimitRate
  pub now : ℕ
  pub passed : ℕ

-- A round of any caller, at the next two readings of a clock that does not go back.
pub data LimitStep (s s' : Limited) : Type 0 where
  takes_round :
      (first second : ℕ)
      → s.now ≤ first
      → first ≤ second
      → s' ≡ record {
        limiter = (limit_round first second s.limiter).0;
        now = second;
        passed = if (limit_round first second s.limiter).1 then suc s.passed else s.passed;
      }
      → LimitStep s s'

pub data LimitRun (s : Limited) : Limited → Type 0 where
  no_round : LimitRun s s
  then_round : {s' s'' : Limited} → LimitRun s s' → LimitStep s' s'' → LimitRun s s''

-- The calls that have returned since a state are no more than the intervals that have passed.
record Spaced (s s' : Limited) : Type 0 where
  same : s'.limiter.interval ≡ s.limiter.interval
  past : s'.limiter.last_action ≤ s'.now
  grown : s.passed ≤ s'.passed
  apart :
      s.limiter.last_action + (s'.passed - s.passed) * suc s.limiter.interval
      ≤ s'.limiter.last_action

-- One call more, and one interval more.
intervals_suc :
    (last base k n m : ℕ) → base ≤ m → last + (m - base) * n ≤ k → last + (suc m - base) * n ≤ k + n
intervals_suc last base k n m h le =
    let more : suc m - base ≡ suc (m - base) = omega (arith, h) in
    omega (arith, le, ap (λ d. d * n) more)

-- A call returns.
returned-Spaced :
    (s s' : Limited) (first second : ℕ)
    → Spaced s s'
    → s'.limiter.interval < first - s'.limiter.last_action
    → first ≤ second
    → Spaced s record {
      limiter = record s'.limiter { last_action = second };
      now = second;
      passed = suc s'.passed;
    }
returned-Spaced s s' first second h late in_order = record {
  same = h.same;
  past = omega arith;
  grown = omega (arith, h.grown);
  apart = omega (
    arith,
    late,
    in_order,
    h.same,
    intervals_suc s.limiter.last_action s.passed s'.limiter.last_action (suc s.limiter.interval)
        s'.passed h.grown h.apart,
  );
}

step-Spaced : (s s' s'' : Limited) → Spaced s s' → LimitStep s' s'' → Spaced s s''
unfolding limit_round
step-Spaced s s' s'' h (takes_round first second after_now in_order e) =
    elim (Bool-cases (ltb s'.limiter.interval (first - s'.limiter.last_action))) [
      | inl late ↦
          rw (e, late) (returned-Spaced s s' first second h (ground (arith, late)) in_order)
      | inr soon ↦
          rw (e, soon)
            (record {
              same = h.same;
              past = omega (arith, h.past);
              grown = h.grown;
              apart = h.apart;
            })
    ]

run-Spaced : (s s' : Limited) → s.limiter.last_action ≤ s.now → LimitRun s s' → Spaced s s'
run-Spaced s s' start no_round = record {
  same = refl;
  past = start;
  grown = omega arith;
  apart =
      let none_yet : s.passed - s.passed ≡ 0 = omega arith in
      omega (arith, ap (λ d. d * suc s.limiter.interval) none_yet);
}
run-Spaced s s' start (then_round {s' = mid} run round) =
    step-Spaced s mid s' (run-Spaced s mid start run) round

-- Once the rate is set to `r`, the calls of `Limit` that return, of any number of callers and in any
-- order, are at most one per `1 s / r`: their number times an interval and a nanosecond is at most the
-- time since the last action before.
pub limit-set_rate :
    (r : ℕ) (l : LimitRate) {s s' : Limited}
    → set_rate r l ≡ some s.limiter
    → s.limiter.last_action ≤ s.now
    → LimitRun s s'
    → s.limiter.last_action + (s'.passed - s.passed) * suc (10 ^ 9 / r) ≤ s'.now
unfolding set_rate
limit-set_rate zero l e start run = ground (arith, e)
limit-set_rate (suc r) l {s} {s'} e start run =
    let spaced = run-Spaced s s' start run in
    let interval : s.limiter.interval ≡ 10 ^ 9 / suc r = ground (arith, e) in
    omega (arith, spaced.past, spaced.apart, ap (λ d. (s'.passed - s.passed) * suc d) interval)
