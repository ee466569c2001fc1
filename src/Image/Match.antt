-- ===== src/Image/Match.antt =====
-- What the regular expressions of worker/image/image.go find in well-formed items.
use Prim.Native.Char.{code}
use bmw.Base.{
  Bool-cases, Lacks, Option, String, arith, cat, false, inl, inr, leb, nat_eq, none, refl, some,
  string_eq, true, ℕ, ◌&&◌, ◌==◌, ◌≡◌,
}
use bmw.Image.Parse.{after, digit_run, find, is_digit, line}

abbrev pub Digits : String → Type 0
Digits String.[] = Unit
Digits (String.◌∷◌ c s) = (is_digit c ≡ true) × Digits s

pub Digits-Lacks : (n : ℕ) (s : String) → (leb b'0' n && leb n b'9') ≡ false → Digits s → Lacks n s
Digits-Lacks n String.[] h d = tt
Digits-Lacks n (String.◌∷◌ c s) h d = (ground arith, Digits-Lacks n s h d.1)

-- A run of digits stops where the text stops or no digit follows.
pub digit_run-cat :
    (s t : String) → Digits s → digit_run t ≡ (String.[], t) → digit_run (cat s t) ≡ (s, t)
unfolding digit_run cat
digit_run-cat String.[] t d h = h
digit_run-cat (String.◌∷◌ c s) t d h = rw (digit_run-cat s t d.1 h, d.0) refl

pub line-Lacks : (s : String) → Lacks 10 s → line s ≡ s
unfolding line
line-Lacks String.[] h = refl
line-Lacks (String.◌∷◌ c s) h = rw (line-Lacks s h.1, h.0) refl

-- A text with a slash is no prefix of one without.
pub after-Lacks : (p : String) (s : String) → ¬ Lacks b'/' p → Lacks b'/' s → after p s ≡ none
unfolding after
after-Lacks String.[] s n h = absurd (n tt)
after-Lacks (String.◌∷◌ c p) String.[] n h = refl
after-Lacks (String.◌∷◌ c p) (String.◌∷◌ d s) n h = elim (Bool-cases (code c == code d)) [
  | inr ne ↦ rw (ne) refl
  | inl e ↦ rw (e) (after-Lacks p s (λ l. n (ground (arith, e, h.0), l)) h.1)
]

pub find-Lacks {ℓ} :
    {A : Type ℓ} (start : String → Option A) (s : String)
    → ((t : String) → Lacks b'/' t → start t ≡ none)
    → Lacks b'/' s
    → find start s ≡ none
unfolding find
find-Lacks start String.[] none_at h = none_at String.[] h
find-Lacks start (String.◌∷◌ c s) none_at h =
    rw (none_at (String.◌∷◌ c s) h, find) (find-Lacks start s none_at h.1)

pub find-start {ℓ} :
    {A : Type ℓ} (start : String → Option A) (s : String) (m : A)
    → start s ≡ some m
    → find start s ≡ some m
unfolding find
find-start start String.[] m h = h
find-start start (String.◌∷◌ c s) m h = rw (h, find) refl

pub digit_run_all : (s : String) → Digits s → digit_run s ≡ (s, String.[])
unfolding digit_run
digit_run_all String.[] d = refl
digit_run_all (String.◌∷◌ c s) d = rw (digit_run_all s d.1, d.0) refl
