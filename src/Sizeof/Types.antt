-- ===== src/Sizeof/Types.antt =====
-- What lib/sizeof.go reads of a value by reflection. The parts of a value are addresses of a heap, so a
-- value may contain itself. The numbers are the sizes of types on a machine of 64 bits.
-- A value without parts, a pointer or an interface, a struct, an array, a slice, a map and a string. An
-- array, a slice and a map say whether their items, keys and values are of native types.
use bmw.Base.{Bool, List, Option, nat_eq, string_eq, ℕ}

pub data Shape : Type 0 where
  plain : ℕ → Shape
  pointer : ℕ → Option ℕ → Shape
  struct : ℕ → List ℕ → Shape
  array : ℕ → Bool → List ℕ → Shape
  slice : Bool → ℕ → List ℕ → Shape
  nil_map : ℕ → Shape
  hash_map : ℕ → Bool → ℕ → Bool → ℕ → List (ℕ × ℕ) → Shape
  text : ℕ → Shape
  -- The zero `reflect.Value`, which `ValueOf(nil)` and `MapIndex` of a NaN give.
  invalid : Shape

abbrev pub Heap : Type 0
Heap = ℕ → Shape

-- `sliceSize` and `stringSize`
abbrev pub slice_size : ℕ
slice_size = 24

abbrev pub string_size : ℕ
string_size = 16
