-- ===== src/Base/Calls.antt =====
-- Calls that change a state and may fail or panic, in sequence. What was done before a failure stays
-- done, so the state comes back with every result.
use mathlib.Core.Bool.{Bool, true, false}
use bmw.Base.Tests.{if◌then◌else◌}
use mathlib.Core.List.{List, [], ◌++◌, append_assoc, append-nil}
use mathlib.Core.Path.{◌≡◌, refl, sym, subst, ap, ◌∙◌}

pub data Result (E A : Type 0) : Type 0 where
  ok : A → Result E A
  fails : E → Result E A
  -- A panic.
  aborts : Result E A

abbrev pub Exec : Type 0 → Type 0 → Type 0 → Type 0
Exec S E A = S → S × Result E A

module _ {S E A : Type 0} where
  abbrev pub pure : A → Exec S E A
  pure a s = (s, ok a)

  abbrev pub fail : E → Exec S E A
  fail e s = (s, fails e)

module _ {S E A B : Type 0} where
  abbrev pub then_do : S × Result E A → (A → Exec S E B) → S × Result E B
  then_do (s, ok a) f = f a s
  then_do (s, fails e) f = (s, fails e)
  then_do (s, aborts) f = (s, aborts)

  infixl 5 ◌>>=◌
  unfoldable pub ◌>>=◌ : Exec S E A → (A → Exec S E B) → Exec S E B
  ◌>>=◌ m f s = then_do (m s) f

module _ {S E B : Type 0} where
  infixl 5 ◌>>◌
  abbrev pub ◌>>◌ : Exec S E (Unit {0}) → Exec S E B → Exec S E B
  m >> k = m >>= λ _. k

-- A specification of a call by the events that it adds to a trace, and its result.
module _ {S E V : Type 0} (trace : S → List V) where
  abbrev pub Ended :
      {A : Type 0} → (List V → Result E A → Type 0) → List V → S × Result E A → Type 0
  Ended P before r = (es : List V) × ((trace r.0 ≡ before ++ es) × P es r.1)

  pub record Post {A : Type 0} (P : List V → Result E A → Type 0) (m : Exec S E A) : Type 0 where
    pub post : (s : S) → Ended P (trace s) (m s)

  module _ {A B : Type 0} where
    Ended-then_do :
        (P : List V → Result E A → Type 0) (Q : List V → Result E B → Type 0) (f : A → Exec S E B)
        (before : List V) (r : S × Result E A)
        → ((es : List V) (a : A) → P es (ok a) → Post (λ fs. Q (es ++ fs)) (f a))
        → ((es : List V) (e : E) → P es (fails e) → Q es (fails e))
        → ((es : List V) → P es aborts → Q es aborts)
        → Ended P before r
        → Ended Q before (then_do r f)
    Ended-then_do P Q f before (s, ok a) good bad worse (es, (h, p)) =
        let (fs, (h', q)) = (good es a p).post s in
        (es ++ fs, (h' ∙ ap (λ t. t ++ fs) h ∙ append_assoc before es fs, q))
    Ended-then_do P Q f before (s, fails e) good bad worse (es, (h, p)) = (es, (h, bad es e p))
    Ended-then_do P Q f before (s, aborts) good bad worse (es, (h, p)) = (es, (h, worse es p))

    -- A call and what follows it.
    pub Post-bind :
        (P : List V → Result E A → Type 0) (Q : List V → Result E B → Type 0) (m : Exec S E A)
        (f : A → Exec S E B)
        → Post P m
        → ((es : List V) (a : A) → P es (ok a) → Post (λ fs. Q (es ++ fs)) (f a))
        → ((es : List V) (e : E) → P es (fails e) → Q es (fails e))
        → ((es : List V) → P es aborts → Q es aborts)
        → Post Q (m >>= f)
    unfolding ◌>>=◌
    Post-bind P Q m f first good bad worse = record {
      post = λ s. Ended-then_do P Q f (trace s) (m s) good bad worse (first.post s);
    }

  -- A call that adds given events where it succeeds, and none where it does not.
  abbrev pub Emits : {A : Type 0} → (A → List V) → List V → Result E A → Type 0
  Emits v es (ok a) = es ≡ v a
  Emits v es (fails e) = es ≡ []
  Emits v es aborts = es ≡ []

  module _ {A B : Type 0} where
    -- Such a call and what follows it.
    pub Post-Emits :
        {v : A → List V} {Q : List V → Result E B → Type 0} {m : Exec S E A} {f : A → Exec S E B}
        → Post (Emits v) m
        → ((e : E) → Q [] (fails e))
        → Q [] aborts
        → ((a : A) → Post (λ fs. Q (v a ++ fs)) (f a))
        → Post Q (m >>= f)
    Post-Emits {v} {Q} {m} {f} first bad worse good =
        Post-bind (Emits v) Q m f first
          (λ es a p. subst (λ l. Post (λ fs. Q (l ++ fs)) (f a)) (sym p) (good a))
          (λ es e p. subst (λ l. Q l (fails e)) (sym p) (bad e))
          (λ es p. subst (λ l. Q l aborts) (sym p) worse)

  -- A value, and nothing done.
  pub Post-pure :
      {A : Type 0} (Q : List V → Result E A → Type 0) (a : A) → Q [] (ok a) → Post Q (pure a)
  Post-pure Q a q = record { post = λ s. ([], (sym (append-nil (trace s)), q)) }

  -- Either of two calls.
  pub Post-if :
      {A : Type 0} {Q : List V → Result E A → Type 0} {m n : Exec S E A} (b : Bool)
      → Post Q m
      → Post Q n
      → Post Q (if b then m else n)
  Post-if true p q = p
  Post-if false p q = q

  -- Either of two calls, where the test is known in each.
  pub Post-split :
      {A : Type 0} {Q : List V → Result E A → Type 0} {m n : Exec S E A} (b : Bool)
      → (b ≡ true → Post Q m)
      → (b ≡ false → Post Q n)
      → Post Q (if b then m else n)
  Post-split true p q = p refl
  Post-split false p q = q refl

  pub Post-weaken :
      {A : Type 0} {P Q : List V → Result E A → Type 0} {m : Exec S E A}
      → ((es : List V) (r : Result E A) → P es r → Q es r)
      → Post P m
      → Post Q m
  Post-weaken weaken p = record {
    post = λ s. let (es, (h, q)) = p.post s in (es, (h, weaken es _ q));
  }
