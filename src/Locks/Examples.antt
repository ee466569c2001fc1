-- ===== src/Locks/Examples.antt =====
-- The theorems on the tools of lib/ at two goroutines and at a rate of ten a second.
use bmw.Base.{
  arith, if◌then◌else◌, nat_eq, refl, string_eq, suc, ℕ, ◌*◌, ◌+◌, ◌-◌, ◌/◌, ◌==◌, ◌^◌, ◌≡◌, ◌≤◌,
}
use bmw.Locks.Rate.{
  LimitRate, LimitRun, Limited, limit-set_rate, limit_round, no_round, set_rate, takes_round,
  then_round,
}
use bmw.Locks.Spin.{
  SpinRun, SpinState, calls_lock, in_lock, inside, lock-Exclusive, outside, stay, then_step,
  to_string, tries, try_lock, unlocked,
}

-- Goroutine 0 holds the lock and goroutine 1 has tried.
abbrev contended : SpinState
contended = record {
  f = 1;
  place = λ j.
      if 1 == j
      then in_lock
      else if 1 == j
      then in_lock
      else if 0 == j
      then inside
      else if 0 == j
      then in_lock
      else outside;
}

contended_run : SpinRun unlocked contended
unfolding try_lock nat_eq
contended_run =
    then_step
      (then_step (then_step (then_step stay (calls_lock 0 refl refl)) (tries 0 refl refl))
        (calls_lock 1 refl refl))
      (tries 1 refl refl)

lock-Exclusive_example : (◌≡◌ {A = ℕ} 0 0) × (to_string 1 ≡ "Locked")
unfolding nat_eq
lock-Exclusive_example = lock-Exclusive contended_run 0 0 refl refl

abbrev ten_a_second : LimitRate
ten_a_second = record { rate = 10; interval = 100000000; last_action = 0 }

abbrev before_calls : Limited
before_calls = record { limiter = ten_a_second; now = 0; passed = 0 }

-- One call is let through, the next one has to sleep.
abbrev after_calls : Limited
after_calls = record {
  limiter = record ten_a_second { last_action = 100000002 };
  now = 150000000;
  passed = 1;
}

two_calls : LimitRun before_calls after_calls
unfolding limit_round
two_calls =
    then_round
      (then_round no_round (takes_round 100000001 100000002 (omega arith) (omega arith) refl))
      (takes_round 149999999 150000000 (omega arith) (omega arith) refl)

limit-set_rate_example : 0 + (1 - 0) * suc (10 ^ 9 / 10) ≤ 150000000
unfolding set_rate
limit-set_rate_example = limit-set_rate 10 ten_a_second refl (omega arith) two_calls
