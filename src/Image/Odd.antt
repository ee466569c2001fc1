-- ===== src/Image/Odd.antt =====
-- `remainOdd` of worker/image/image.go, which writes the odd items to the front of the array it reads.
use bmw.Base.{
  Bool, Bool-cases, List, [], ap, append-nil, append_assoc, arith, get_elem?, get_elem?-append,
  if◌then◌else◌, inl, inr, keep, length, length-append, nat_eq, negsuc, none, pos, refl, some,
  string_eq, suc, take, take-append, zero, ℕ, ℤ, ◌%◌, ◌++◌, ◌+◌, ◌==◌, ◌∙◌, ◌∷◌, ◌≡◌,
}

-- `n % 2 != 0`, with Go's sign of the remainder.
unfoldable pub is_odd : ℤ → Bool
is_odd (pos n) = n % 2 == 1
is_odd (negsuc n) = (n + 1) % 2 == 1

module _ {A : Type 0} where
  -- The array with one cell written.
  unfoldable pub set_at : ℕ → A → List A → List A
  set_at i a [] = []
  set_at zero a (x ∷ xs) = a ∷ xs
  set_at (suc i) a (x ∷ xs) = x ∷ set_at i a xs

  set_at-append :
      (xs : List A) (a x : A) (ys : List A) → set_at (length xs) a (xs ++ x ∷ ys) ≡ xs ++ a ∷ ys
  unfolding set_at
  set_at-append [] a x ys = refl
  set_at-append (y ∷ xs) a x ys = ap (λ l. y ∷ l) (set_at-append xs a x ys)

-- The loop from index `i`, over an array that holds the `j` items of `y` at its front.
unfoldable pub remain_loop : ℕ → ℕ → List ℤ → ℕ → List ℤ
unfolding is_odd set_at
remain_loop zero i array j = take j array
remain_loop (suc todo) i array j = elim (get_elem? array i) [
  | none ↦ take j array
  | some n ↦
      remain_loop todo (suc i) (if is_odd n then set_at j n array else array)
        (if is_odd n then suc j else j)
]

unfoldable pub remain_odd : List ℤ → List ℤ
unfolding remain_loop
remain_odd x = remain_loop (length x) 0 x 0

loop_step :
    (todo i j : ℕ) (array : List ℤ) (n : ℤ)
    → get_elem? array i ≡ some n
    → remain_loop (suc todo) i array j
      ≡ remain_loop todo
          (suc i)
          (if is_odd n then set_at j n array else array)
          (if is_odd n then suc j else j)
unfolding remain_loop
loop_step todo i j array n h = rw (h, remain_loop) refl

-- A write behind the kept items, where there is a cell that is read already or the current one.
write_kept :
    (ys old : List ℤ) (n : ℤ) (rest : List ℤ)
    → (old' : List ℤ) × ((length old' ≡ length old)
        × (set_at (length ys) n ((ys ++ old) ++ n ∷ rest) ≡ ((ys ++ n ∷ []) ++ old') ++ rest))
write_kept ys [] n rest = (
  [],
  (
    refl,
    rw
        (
          append-nil ys,
          append-nil (ys ++ n ∷ []),
          set_at-append ys n n rest,
          append_assoc ys (n ∷ []) rest,
        )
        refl,
  ),
)
write_kept ys (d ∷ ds) n rest = (
  ds ++ n ∷ [],
  (
    omega (arith, length-append ds (n ∷ [])),
    rw
        (
          append_assoc ys (d ∷ ds) (n ∷ rest),
          set_at-append ys n d (ds ++ n ∷ rest),
          append_assoc (ys ++ n ∷ []) (ds ++ n ∷ []) rest,
          append_assoc ds (n ∷ []) rest,
          append_assoc ys (n ∷ []) (ds ++ n ∷ rest),
        )
        refl,
  ),
)

-- The array in the loop: the odd items so far, cells that are read already, and what is not read yet.
loop_keep :
    (rest ys old array : List ℤ) (i j : ℕ)
    → array ≡ (ys ++ old) ++ rest
    → i ≡ length (ys ++ old)
    → j ≡ length ys
    → remain_loop (length rest) i array j ≡ ys ++ keep is_odd rest
unfolding remain_loop
loop_keep [] ys old array i j ea ei ej =
    rw (ea, ej, append-nil (ys ++ old), take-append ys old, append-nil ys) refl
loop_keep (n ∷ rest) ys old array i j ea ei ej =
    let now : get_elem? array i ≡ some n = rw (ea, ei) (get_elem?-append (ys ++ old) (n ∷ rest)) in
    loop_step (length rest) i j array n now ∙ elim (Bool-cases (is_odd n)) [
      | inl odd ↦
          let w = write_kept ys old n rest in
          rw (odd) (
            loop_keep rest (ys ++ n ∷ []) w.0 (set_at j n array) (suc i) (suc j) (rw (ea, ej) w.1.1)
              (omega (
                arith,
                ei,
                w.1.0,
                length-append ys old,
                length-append ys (n ∷ []),
                length-append (ys ++ n ∷ []) w.0,
              ))
              (omega (arith, ej, length-append ys (n ∷ [])))
            ∙ append_assoc ys (n ∷ []) (keep is_odd rest))
      | inr even ↦ rw (even) (
          loop_keep rest ys (old ++ n ∷ []) array (suc i) j
            (ea
              ∙ rw
                  (
                    append_assoc ys old (n ∷ rest),
                    append_assoc ys (old ++ n ∷ []) rest,
                    append_assoc old (n ∷ []) rest,
                  )
                  refl)
            (omega (
              arith,
              ei,
              length-append ys old,
              length-append ys (old ++ n ∷ []),
              length-append old (n ∷ []),
            ))
            ej)
    ]

-- `remainOdd` gives the odd items in order, though it overwrites the cells of the array that it is still
-- reading.
pub remain_odd-keep : (x : List ℤ) → remain_odd x ≡ keep is_odd x
unfolding remain_odd
remain_odd-keep x = loop_keep x [] [] x 0 0 refl refl refl
