-- ===== src/Sizeof/Breaks.antt =====
-- When the size computation of lib/sizeof.go panics.
use bmw.Base.{
  Bool, Bool-cases, List, Option, Option-cases, [], arith, false, inl, inr, nat_eq, none, refl,
  some, string_eq, suc, sym, true, zero, ℕ, ◌↔◌, ◌∙◌, ◌∷◌, ◌≡◌, ◌⊎◌,
}
use bmw.Sizeof.Internal.{add64, add_entries, add_parts, size_shape, sizeof_internal, type_size}
use bmw.Sizeof.Types.{
  Heap, Shape, array, hash_map, invalid, nil_map, plain, pointer, slice, slice_size, struct, text,
}

abbrev pub Any {ℓ} : {A : Type ℓ} → (A → Type 0) → List A → Type 0
Any P [] = ⊥
Any P (x ∷ xs) = P x ⊎ Any P xs

abbrev pub both : List (ℕ × ℕ) → List ℕ
both [] = []
both ((k, v) ∷ entries) = k ∷ v ∷ both entries

-- The parts of a value that are looked at.
abbrev pub visited : Shape → List ℕ
visited (plain size) = []
visited (pointer size none) = []
visited (pointer size (some a)) = a ∷ []
visited (struct size fields) = fields
visited (array size true items) = []
visited (array size false items) = items
visited (slice true item_size items) = []
visited (slice false item_size items) = items
visited (nil_map size) = []
visited (hash_map size true key_size true value_size entries) = []
visited (hash_map size _ key_size _ value_size entries) = both entries
visited (text n) = []
visited invalid = []

abbrev pub is_invalid : Shape → Bool
is_invalid invalid = true
is_invalid _ = false

-- A chain of parts, each a part of the one before, that has so many or ends at an invalid value.
abbrev pub Breaks : ℕ → Heap → ℕ → Type 0
Breaks zero heap a = Unit
Breaks (suc n) heap a = (is_invalid (heap a) ≡ true) ⊎ Any (Breaks n heap) (visited (heap a))

module _ (D : ℕ → Type 0) where
  add_parts-none :
      (size_of : ℕ → Option ℕ) (parts : List ℕ) (sz : ℕ)
      → ((a : ℕ) → size_of a ≡ none → D a)
      → add_parts size_of parts sz ≡ none
      → Any D parts
  unfolding add_parts
  add_parts-none size_of [] sz deep h = cc
  add_parts-none size_of (a ∷ parts) sz deep h = elim (Option-cases (size_of a)) [
    | inl e ↦ inl (deep a e)
    | inr (n, e) ↦ inr (add_parts-none size_of parts (add64 sz n) deep (ground (arith, e, h)))
  ]

  none-add_parts :
      (size_of : ℕ → Option ℕ) (parts : List ℕ) (sz : ℕ)
      → ((a : ℕ) → D a → size_of a ≡ none)
      → Any D parts
      → add_parts size_of parts sz ≡ none
  unfolding add_parts
  none-add_parts size_of [] sz deep h = absurd h
  none-add_parts size_of (a ∷ parts) sz deep (inl d) = rw (deep a d, add_parts) refl
  none-add_parts size_of (a ∷ parts) sz deep (inr ds) = elim (Option-cases (size_of a)) [
    | inl e ↦ rw (e, add_parts) refl
    | inr (n, e) ↦ rw (e, add_parts) (none-add_parts size_of parts (add64 sz n) deep ds)
  ]

  add_entries-none :
      (size_of : ℕ → Option ℕ) (entries : List (ℕ × ℕ)) (sz : ℕ)
      → ((a : ℕ) → size_of a ≡ none → D a)
      → add_entries size_of entries sz ≡ none
      → Any D (both entries)
  unfolding add_entries
  add_entries-none size_of [] sz deep h = cc
  add_entries-none size_of ((k, v) ∷ entries) sz deep h = elim (Option-cases (size_of k)) [
    | inl e ↦ inl (deep k e)
    | inr (n, e) ↦ elim (Option-cases (size_of v)) [
      | inl e' ↦ inr (inl (deep v e'))
      | inr (m, e') ↦ inr (
          inr (
            add_entries-none size_of entries (add64 sz (add64 n m)) deep
              (ground (arith, e, e', h))))
    ]
  ]

  none-add_entries :
      (size_of : ℕ → Option ℕ) (entries : List (ℕ × ℕ)) (sz : ℕ)
      → ((a : ℕ) → D a → size_of a ≡ none)
      → Any D (both entries)
      → add_entries size_of entries sz ≡ none
  unfolding add_entries
  none-add_entries size_of [] sz deep h = absurd h
  none-add_entries size_of ((k, v) ∷ entries) sz deep h = elim (Option-cases (size_of k)) [
    | inl e ↦ rw (e, add_entries) refl
    | inr (n, e) ↦
        rw (e, add_entries)
          (elim (Option-cases (size_of v)) [
            | inl e' ↦ rw (e') refl
            | inr (m, e') ↦ rw (e') (elim h [
              | inl d ↦ let never : some n ≡ none = sym e ∙ deep k d in cc
              | inr (inl d) ↦ let never : some m ≡ none = sym e' ∙ deep v d in cc
              | inr (inr ds) ↦ none-add_entries size_of entries (add64 sz (add64 n m)) deep ds
            ])
          ])
  ]

module _ (D : ℕ → Type 0) (size_of : Bool → ℕ → Option ℕ) where
  size_shape-none :
      (from_struct : Bool) (shape : Shape)
      → is_invalid shape ≡ false
      → ((b : Bool) (a : ℕ) → size_of b a ≡ none → D a)
      → size_shape size_of from_struct shape ≡ none
      → Any D (visited shape)
  unfolding size_shape
  size_shape-none b invalid good deep h = cc
  size_shape-none b (plain size) good deep h = cc
  size_shape-none b (pointer size none) good deep h = cc
  size_shape-none b (pointer size (some a)) good deep h = inl (deep false a (ground arith))
  size_shape-none b (struct size fields) good deep h =
      add_parts-none D (size_of true) fields (type_size b size) (deep true) h
  size_shape-none b (array size true items) good deep h = cc
  size_shape-none b (array size false items) good deep h =
      add_parts-none D (size_of false) items 0 (deep false) h
  size_shape-none b (slice true item_size items) good deep h = cc
  size_shape-none b (slice false item_size items) good deep h =
      add_parts-none D (size_of false) items (type_size b slice_size) (deep false) h
  size_shape-none b (nil_map size) good deep h = cc
  size_shape-none b (hash_map size true ks true vs entries) good deep h = cc
  size_shape-none b (hash_map size true ks false vs entries) good deep h =
      add_entries-none D (size_of false) entries (type_size b size) (deep false) h
  size_shape-none b (hash_map size false ks true vs entries) good deep h =
      add_entries-none D (size_of false) entries (type_size b size) (deep false) h
  size_shape-none b (hash_map size false ks false vs entries) good deep h =
      add_entries-none D (size_of false) entries (type_size b size) (deep false) h
  size_shape-none b (text n) good deep h = cc

  none-size_shape :
      (from_struct : Bool) (shape : Shape)
      → ((b : Bool) (a : ℕ) → D a → size_of b a ≡ none)
      → Any D (visited shape)
      → size_shape size_of from_struct shape ≡ none
  unfolding size_shape
  none-size_shape b invalid deep h = absurd h
  none-size_shape b (plain size) deep h = absurd h
  none-size_shape b (pointer size none) deep h = absurd h
  none-size_shape b (pointer size (some a)) deep (inl d) = rw (deep false a d) refl
  none-size_shape b (pointer size (some a)) deep (inr d) = absurd d
  none-size_shape b (struct size fields) deep h =
      none-add_parts D (size_of true) fields (type_size b size) (deep true) h
  none-size_shape b (array size true items) deep h = absurd h
  none-size_shape b (array size false items) deep h =
      none-add_parts D (size_of false) items 0 (deep false) h
  none-size_shape b (slice true item_size items) deep h = absurd h
  none-size_shape b (slice false item_size items) deep h =
      none-add_parts D (size_of false) items (type_size b slice_size) (deep false) h
  none-size_shape b (nil_map size) deep h = absurd h
  none-size_shape b (hash_map size true ks true vs entries) deep h = absurd h
  none-size_shape b (hash_map size true ks false vs entries) deep h =
      none-add_entries D (size_of false) entries (type_size b size) (deep false) h
  none-size_shape b (hash_map size false ks true vs entries) deep h =
      none-add_entries D (size_of false) entries (type_size b size) (deep false) h
  none-size_shape b (hash_map size false ks false vs entries) deep h =
      none-add_entries D (size_of false) entries (type_size b size) (deep false) h
  none-size_shape b (text n) deep h = absurd h

invalid-size_shape :
    (size_of : Bool → ℕ → Option ℕ) (b : Bool) (shape : Shape)
    → is_invalid shape ≡ true
    → size_shape size_of b shape ≡ none
unfolding size_shape
invalid-size_shape size_of b invalid h = refl
invalid-size_shape size_of b (plain size) h = cc
invalid-size_shape size_of b (pointer size to) h = cc
invalid-size_shape size_of b (struct size fields) h = cc
invalid-size_shape size_of b (array size native items) h = cc
invalid-size_shape size_of b (slice native item_size items) h = cc
invalid-size_shape size_of b (nil_map size) h = cc
invalid-size_shape size_of b (hash_map size kn ks vn vs entries) h = cc
invalid-size_shape size_of b (text n) h = cc

panics :
    (left : ℕ) (heap : Heap) (b : Bool) (a : ℕ)
    → sizeof_internal left heap b a ≡ none
    → Breaks left heap a
unfolding sizeof_internal
panics zero heap b a h = tt
panics (suc left) heap b a h = elim (Bool-cases (is_invalid (heap a))) [
  | inl bad ↦ inl bad
  | inr good ↦ inr (
      size_shape-none (Breaks left heap) (sizeof_internal left heap) b (heap a) good
        (panics left heap) h)
]

broken-panics :
    (left : ℕ) (heap : Heap) (b : Bool) (a : ℕ)
    → Breaks left heap a
    → sizeof_internal left heap b a ≡ none
unfolding sizeof_internal
broken-panics zero heap b a h = refl
broken-panics (suc left) heap b a (inl bad) =
    invalid-size_shape (sizeof_internal left heap) b (heap a) bad
broken-panics (suc left) heap b a (inr h) =
    none-size_shape (Breaks left heap) (sizeof_internal left heap) b (heap a)
      (broken-panics left heap) h

-- The computation of the size of a value panics exactly where parts of parts of the value that it looks
-- at go on for 1000 levels, as they do in a value that contains itself, or lead to an invalid value before
-- that; of any other value it returns a size.
pub sizeof_internal-Breaks :
    (heap : Heap) (from_struct : Bool) (a : ℕ)
    → (sizeof_internal 1000 heap from_struct a ≡ none) ↔ Breaks 1000 heap a
sizeof_internal-Breaks heap from_struct a =
    (panics 1000 heap from_struct a, broken-panics 1000 heap from_struct a)
