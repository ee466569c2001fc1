-- ===== src/Sizeof/Examples.antt =====
-- The theorem on lib/sizeof.go at a pointer to itself, and the sizes of small values.
use bmw.Base.{[], false, nat_eq, none, refl, some, string_eq, suc, zero, ◌↔◌, ◌∷◌, ◌≡◌}
use bmw.Sizeof.Breaks.{Breaks, sizeof_internal-Breaks}
use bmw.Sizeof.Internal.{sizeof, sizeof_internal}
use bmw.Sizeof.Types.{Heap, invalid, plain, pointer, struct, text}

abbrev loop : Heap
loop a = pointer 8 (some a)

sizeof_internal-Breaks_example : (sizeof_internal 1000 loop false 0 ≡ none) ↔ Breaks 1000 loop 0
sizeof_internal-Breaks_example = sizeof_internal-Breaks loop false 0

-- A string of four bytes, and a struct of that string and a number.
abbrev small : Heap
small zero = text 4
small (suc zero) = struct 24 (0 ∷ 2 ∷ [])
small (suc (suc n)) = plain 8

small_sizes : sizeof small (0 ∷ 1 ∷ []) ≡ some 48
unfolding sizeof
small_sizes = refl

short_loop : sizeof_internal 3 loop false 0 ≡ none
unfolding sizeof_internal
short_loop = refl

-- `Sizeof(nil)`
nil_panics : sizeof (λ a. invalid) (0 ∷ []) ≡ none
unfolding sizeof
nil_panics = refl
