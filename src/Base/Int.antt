-- ===== src/Base/Int.antt =====
-- Go's `int`, and `strconv.Atoi`.
use Prim.Native.Nat.{ℕ, zero, suc, ◌+◌, ◌-◌, ◌*◌, ◌^◌}
use Prim.Native.Char.{code}
use Prim.Native.String.{String}
use mathlib.Core.Bool.{Bool, true, false, ◌&&◌}
use mathlib.Core.Option.{Option, none, some}
use bmw.Base.Tests.{◌==◌, if◌then◌else◌, leb, ltb, nat_eq}

pub data ℤ : Type 0 where
  pos negsuc : ℕ → ℤ

-- `z == n` of a constant that is not negative.
unfoldable pub is_pos : ℕ → ℤ → Bool
is_pos n (pos m) = m == n
is_pos n (negsuc m) = false

-- The number that decimal digits stand for, after one of value `acc`.
unfoldable pub digits : ℕ → String → Option ℕ
digits acc String.[] = some acc
digits acc (String.◌∷◌ c s) =
    let rest = digits (10 * acc + (code c - 48)) s in
    if leb 48 (code c) && leb (code c) 57 then rest else none

-- One digit at least.
unfoldable pub number : String → Option ℕ
unfolding digits
number String.[] = none
number (String.◌∷◌ c s) = digits 0 (String.◌∷◌ c s)

-- A number of 64 bits with its sign; out of range, the nearest one, and an error.
unfoldable pub signed : Bool → Option ℕ → ℤ × Bool
signed sign none = (pos 0, true)
signed true (some zero) = (pos 0, false)
signed true (some (suc n)) =
    if ltb n (2 ^ 63) then (negsuc n, false) else (negsuc (2 ^ 63 - 1), true)
signed false (some n) = if ltb n (2 ^ 63) then (pos n, false) else (pos (2 ^ 63 - 1), true)

-- `strconv.Atoi`: the number, and whether there is an error.
unfoldable pub atoi : String → ℤ × Bool
unfolding number signed
atoi String.[] = (pos 0, true)
atoi (String.◌∷◌ c s) =
    if code c == 45
    then signed true (number s)
    else if code c == 43
    then signed false (number s)
    else signed false (number (String.◌∷◌ c s))
