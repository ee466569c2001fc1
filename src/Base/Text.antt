-- ===== src/Base/Text.antt =====
-- The part of Go's package strings that the program uses.
use Prim.Native.Char.{Char, code}
use Prim.Native.String.{String}
use mathlib.Core.Path.{◌≡◌, refl}
use mathlib.Core.Bool.{true, false}
use mathlib.Core.List.{List, [], ◌∷◌}
use Prim.Native.Nat.{ℕ, ◌<◌}
use native.Mathlib.Omega.{arith}
use bmw.Base.Lists.{length}
use bmw.Base.Tests.{◌==◌, if◌then◌else◌, nat_eq}

add_char : Char → List String → List String
add_char c [] = (String.◌∷◌ c String.[]) ∷ []
add_char c (s ∷ ss) = (String.◌∷◌ c s) ∷ ss

-- `strings.Split` at a separator of one character, given by its code.
unfoldable pub split : ℕ → String → List String
unfolding add_char
split sep String.[] = String.[] ∷ []
split sep (String.◌∷◌ c s) =
    let rest = split sep s in if code c == sep then String.[] ∷ rest else add_char c rest

length-add_char : (c : Char) (ss : List String) → 0 < length (add_char c ss)
unfolding add_char
length-add_char c [] = omega arith
length-add_char c (s ∷ ss) = omega arith

-- There is one piece at least.
pub length-split : (sep : ℕ) (s : String) → 0 < length (split sep s)
unfolding split
length-split sep String.[] = omega arith
length-split sep (String.◌∷◌ c s) = ground (arith, length-add_char c (split sep s))

-- One text behind another.
unfoldable pub cat : String → String → String
cat String.[] t = t
cat (String.◌∷◌ c s) t = String.◌∷◌ c (cat s t)

-- No character of a text has a code.
abbrev pub Lacks : ℕ → String → Type 0
Lacks n String.[] = Unit
Lacks n (String.◌∷◌ c s) = ((code c == n) ≡ false) × Lacks n s

pub cat-Lacks : (n : ℕ) (s t : String) → Lacks n s → Lacks n t → Lacks n (cat s t)
unfolding cat
cat-Lacks n String.[] t hs ht = ht
cat-Lacks n (String.◌∷◌ c s) t hs ht = (hs.0, cat-Lacks n s t hs.1 ht)

-- A text without the separator is one piece.
pub split-Lacks : (sep : ℕ) (s : String) → Lacks sep s → split sep s ≡ s ∷ []
unfolding split add_char
split-Lacks sep String.[] h = refl
split-Lacks sep (String.◌∷◌ c s) h = rw (split-Lacks sep s h.1, h.0) refl

-- A piece ends at the first separator.
pub split-cat :
    (sep : ℕ) (s : String) (c : Char) (t : String)
    → Lacks sep s
    → (code c == sep) ≡ true
    → split sep (cat s (String.◌∷◌ c t)) ≡ s ∷ split sep t
unfolding split add_char cat
split-cat sep String.[] c t h e = rw (e) refl
split-cat sep (String.◌∷◌ d s) c t h e = rw (split-cat sep s c t h.1 e, h.0) refl
