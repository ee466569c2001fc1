-- ===== src/Pipeline/Chain.antt =====
-- The chain of middleware, api/middleware.go.
use bmw.Base.{
  List, Option, [], ap, arith, get_elem?, length, nat_eq, none, refl, some, string_eq, suc, sym,
  take, zero, ℕ, ◌++◌, ◌<◌, ◌∙◌, ◌∷◌, ◌≡◌, ◌≤◌,
}

-- A handler; nil is `none`.
pub record Chain {ℓ} (Handler : Type ℓ) : Type ℓ where
  pub constructors : List (Handler → Handler)

module _ {ℓ} {Handler : Type ℓ} where
  unfoldable pub new_chain : List (Handler → Handler) → Chain Handler
  new_chain ms = record { constructors = [] ++ ms }

  -- The loop of `Then`, with `left` more constructors to call, the one at `left - 1` first. An index
  -- out of range would panic.
  unfoldable pub then_loop : List (Handler → Handler) → ℕ → Handler → Option Handler
  then_loop ms zero h = some h
  then_loop ms (suc left) h = elim (get_elem? ms left) [
    | none ↦ none
    | some m ↦ then_loop ms left (m h)
  ]

  -- `Then`, which panics on nil.
  unfoldable pub then_handler : Chain Handler → Option Handler → Option Handler
  unfolding then_loop
  then_handler c none = none
  then_handler c (some h) = then_loop c.constructors (length c.constructors) h

  -- `copy(dst, src)` over a slice of the length of `src`, at its start or behind `n` items.
  unfoldable pub append_chain : Chain Handler → List (Handler → Handler) → Chain Handler
  unfolding new_chain
  append_chain c ms = new_chain (c.constructors ++ ms)

  unfoldable pub extend : Chain Handler → Chain Handler → Chain Handler
  unfolding append_chain
  extend c d = append_chain c d.constructors

  -- m1(m2(m3(h))).
  unfoldable pub nested : List (Handler → Handler) → Handler → Handler
  nested [] h = h
  nested (m ∷ ms) h = m (nested ms h)

  nested-append :
      (xs ys : List (Handler → Handler)) (h : Handler)
      → nested (xs ++ ys) h ≡ nested xs (nested ys h)
  unfolding nested
  nested-append [] ys h = refl
  nested-append (x ∷ xs) ys h = ap x (nested-append xs ys h)

  take-all : (ms : List (Handler → Handler)) → take (length ms) ms ≡ ms
  take-all [] = refl
  take-all (m ∷ ms) = ap (◌∷◌ m) (take-all ms)

  -- The constructors up to `n` are those before it, and it.
  take-last :
      (ms : List (Handler → Handler)) (n : ℕ)
      → n < length ms
      → (m : Handler → Handler) × ((get_elem? ms n ≡ some m)
          × (take (suc n) ms ≡ take n ms ++ m ∷ []))
  take-last [] n h = absurd (omega (arith, h))
  take-last (m ∷ ms) zero h = (m, (refl, refl))
  take-last (m ∷ ms) (suc n) h =
      let (m', (found, same)) = take-last ms n (omega (arith, h)) in (m', (found, ap (◌∷◌ m) same))

  then_loop-nested :
      (ms : List (Handler → Handler)) (left : ℕ) (h : Handler)
      → left ≤ length ms
      → then_loop ms left h ≡ some (nested (take left ms) h)
  unfolding then_loop nested
  then_loop-nested ms zero h fits = refl
  then_loop-nested ms (suc left) h fits =
      let (m, (found, same)) = take-last ms left (omega (arith, fits)) in
      let inner = then_loop-nested ms left (m h) (omega (arith, fits)) in
      rw (found, then_loop)
        (inner
          ∙ ap some (sym (ap (λ l. nested l h) same ∙ nested-append (take left ms) (m ∷ []) h)))

  -- `Then` on a chain of any length never leaves the range of its constructors, and answers the
  -- handler wrapped in all of them, the first one outermost.
  pub then_handler-nested :
      (c : Chain Handler) (h : Handler) → then_handler c (some h) ≡ some (nested c.constructors h)
  unfolding then_handler
  then_handler-nested c h =
      then_loop-nested c.constructors (length c.constructors) h (omega arith)
      ∙ ap (λ l. some (nested l h)) (take-all c.constructors)

  then_handler-nil : (c : Chain Handler) → then_handler c none ≡ none
  unfolding then_handler
  then_handler-nil c = refl

  nil_inner :
      (c d : Chain Handler)
      → elim (then_handler d none) as (λ o. Option Handler) [
        | none ↦ none
        | some inner ↦ then_handler c (some inner)
      ]
        ≡ none
  nil_inner c d = rw (then_handler-nil d) refl

  -- The handler of an extended chain is that of the first chain around that of the second, and nil
  -- panics in both.
  pub then_handler-extend :
      (c d : Chain Handler) (h : Option Handler)
      → then_handler (extend c d) h
        ≡ elim (then_handler d h) [ none ↦ none | some inner ↦ then_handler c (some inner) ]
  unfolding extend append_chain new_chain
  then_handler-extend c d none = then_handler-nil (extend c d) ∙ sym (nil_inner c d)
  then_handler-extend c d (some h) = rw (then_handler-nested d h) (
      then_handler-nested (extend c d) h
      ∙ ap some (nested-append c.constructors d.constructors h)
      ∙ sym (then_handler-nested c (nested d.constructors h)))
