-- ===== src/Sizeof/Internal.antt =====
-- `sizeofInternal` and `Sizeof`. A panic is `none`, and sums are those of uint64.
use bmw.Base.{
  Bool, List, Option, [], false, if◌then◌else◌, length, nat_eq, none, some, string_eq, suc, true,
  zero, ℕ, ◌%◌, ◌*◌, ◌+◌, ◌^◌, ◌∷◌,
}
use bmw.Sizeof.Types.{
  Heap, Shape, array, hash_map, invalid, nil_map, plain, pointer, slice, slice_size, string_size,
  struct, text,
}

abbrev pub add64 : ℕ → ℕ → ℕ
add64 a b = (a + b) % 2 ^ 64

abbrev pub add_to : ℕ → Option ℕ → Option ℕ
add_to sz none = none
add_to sz (some n) = some (add64 sz n)

-- What comes before the switch.
abbrev pub type_size : Bool → ℕ → ℕ
type_size from_struct size = if from_struct then 0 else size

-- A loop that adds the sizes of parts.
unfoldable pub add_parts : (ℕ → Option ℕ) → List ℕ → ℕ → Option ℕ
add_parts size_of [] sz = some sz
add_parts size_of (a ∷ parts) sz = elim (size_of a) [
  | none ↦ none
  | some n ↦ add_parts size_of parts (add64 sz n)
]

-- The loop over the keys of a map.
unfoldable pub add_entries : (ℕ → Option ℕ) → List (ℕ × ℕ) → ℕ → Option ℕ
add_entries size_of [] sz = some sz
add_entries size_of ((k, v) ∷ entries) sz = elim (size_of k) [
  | none ↦ none
  | some n ↦ elim (size_of v) [
    | none ↦ none
    | some m ↦ add_entries size_of entries (add64 sz (add64 n m))
  ]
]

-- `Type`, which panics on an invalid value, and the switch of `sizeofInternal`, under its calls of itself.
unfoldable pub size_shape : (Bool → ℕ → Option ℕ) → Bool → Shape → Option ℕ
unfolding add_parts add_entries
size_shape size_of from_struct invalid = none
size_shape size_of from_struct (plain size) = some (type_size from_struct size)
size_shape size_of from_struct (pointer size none) = some (type_size from_struct size)
size_shape size_of from_struct (pointer size (some a)) =
    add_to (type_size from_struct size) (size_of false a)
size_shape size_of from_struct (struct size fields) =
    add_parts (size_of true) fields (type_size from_struct size)
size_shape size_of from_struct (array size true items) = some (type_size from_struct size)
size_shape size_of from_struct (array size false items) = add_parts (size_of false) items 0
size_shape size_of from_struct (slice true item_size items) =
    some (add64 (type_size from_struct slice_size) (length items * item_size % 2 ^ 64))
size_shape size_of from_struct (slice false item_size items) =
    add_parts (size_of false) items (type_size from_struct slice_size)
size_shape size_of from_struct (nil_map size) = some (type_size from_struct size)
size_shape size_of from_struct (hash_map size true key_size true value_size entries) =
    some (add64 (type_size from_struct size) (add64 key_size value_size * length entries % 2 ^ 64))
size_shape size_of from_struct (hash_map size _ key_size _ value_size entries) =
    add_entries (size_of false) entries (type_size from_struct size)
size_shape size_of from_struct (text n) = some (add64 (type_size from_struct string_size) n)

-- `sizeofInternal` with the calls that are left until the depth is more than 1000.
unfoldable pub sizeof_internal : ℕ → Heap → Bool → ℕ → Option ℕ
unfolding size_shape
sizeof_internal zero heap from_struct a = none
sizeof_internal (suc left) heap from_struct a =
    size_shape (sizeof_internal left heap) from_struct (heap a)

unfoldable pub sizeof : Heap → List ℕ → Option ℕ
unfolding sizeof_internal add_parts
sizeof heap objs = add_parts (sizeof_internal 1000 heap false) objs 0
