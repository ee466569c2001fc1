-- ===== src/Locks/Spin.antt =====
-- `SpinLock` of lib/spinlock.go under any number of goroutines, each of which locks, and unlocks what it
-- has locked.
use bmw.Base.{Bool, String, arith, false, if◌then◌else◌, nat_eq, string_eq, true, ℕ, ◌==◌, ◌≡◌}

-- `CompareAndSwapUint32(&sl.f, 0, 1)`: the answer of `TryLock`, and the word.
unfoldable pub try_lock : ℕ → Bool × ℕ
try_lock f = if f == 0 then (true, 1) else (false, f)

-- `Unlock`
abbrev pub unlock : ℕ → ℕ
unlock f = 0

-- `String`
unfoldable pub to_string : ℕ → String
to_string f = if f == 1 then "Locked" else "Unlocked"

-- Where a goroutine stands: outside, in the loop of `Lock`, or behind it.
pub data Place : Type 0 where
  outside in_lock inside : Place

pub record SpinState : Type 0 where
  pub f : ℕ
  pub place : ℕ → Place

abbrev pub move : SpinState → ℕ → Place → ℕ → Place
move s i p j = if i == j then p else s.place j

-- One step of goroutine `i`. A round of the loop of `Lock` goes in or stays, as `TryLock` answers.
pub data SpinStep (s s' : SpinState) : Type 0 where
  calls_lock :
      (i : ℕ) → s.place i ≡ outside → s' ≡ record s { place = move s i in_lock } → SpinStep s s'
  tries :
      (i : ℕ)
      → s.place i ≡ in_lock
      → s' ≡ record {
        f = (try_lock s.f).1;
        place = move s i (if (try_lock s.f).0 then inside else in_lock);
      }
      → SpinStep s s'
  unlocks :
      (i : ℕ)
      → s.place i ≡ inside
      → s' ≡ record { f = unlock s.f; place = move s i outside }
      → SpinStep s s'

pub data SpinRun (s : SpinState) : SpinState → Type 0 where
  stay : SpinRun s s
  then_step : {s' s'' : SpinState} → SpinRun s s' → SpinStep s' s'' → SpinRun s s''

-- The zero value of a lock, and nobody inside.
abbrev pub unlocked : SpinState
unlocked = record { f = 0; place = λ i. outside }

-- The word tells whether somebody is inside, and nobody else is.
abbrev Exclusive : SpinState → Type 0
Exclusive s =
    ((i : ℕ) → s.place i ≡ inside → s.f ≡ 1)
    × ((i j : ℕ) → s.place i ≡ inside → s.place j ≡ inside → i ≡ j)

step-Exclusive : (s s' : SpinState) → Exclusive s → SpinStep s s' → Exclusive s'
unfolding try_lock nat_eq
step-Exclusive s s' h (calls_lock i at e) =
    (λ j p. ground (arith, h.0 j, e, at, p), λ j k p q. ground (arith, h.1 j k, e, at, p, q))
step-Exclusive s s' h (tries i at e) = (
  λ j p. ground (arith, h.0 j, e, at, p),
  λ j k p q. ground (arith, h.0 j, h.0 k, h.1 j k, e, at, p, q),
)
step-Exclusive s s' h (unlocks i at e) = (
  λ j p. ground (arith, h.0 j, h.1 i j at, e, at, p),
  λ j k p q. ground (arith, h.1 j k, e, at, p, q),
)

run-Exclusive : (s : SpinState) → SpinRun unlocked s → Exclusive s
run-Exclusive s stay = (λ i p. ground (arith, p), λ i j p q. ground (arith, p))
run-Exclusive s (then_step {s' = mid} run step) = step-Exclusive mid s (run-Exclusive mid run) step

-- From the zero value of a lock, whatever the order in which goroutines call `Lock`, try, and unlock what
-- they have locked, two are never behind `Lock` at once, and the lock prints as locked while one is.
pub lock-Exclusive :
    {s : SpinState}
    → SpinRun unlocked s
    → (i j : ℕ) → s.place i ≡ inside
    → s.place j ≡ inside
    → (i ≡ j) × (to_string s.f ≡ "Locked")
unfolding to_string nat_eq
lock-Exclusive {s} run i j at_i at_j =
    let (held, alone) = run-Exclusive s run in (alone i j at_i at_j, ground (arith, held i at_i))
