-- ===== src/Recorder/Owners.antt =====
-- Who owns a temporary file of worker/recorder/main.go: the recorders that write to it and the uploads
-- that will remove it.
use bmw.Base.{
  Bool, List, Map, String, [], arith, drop, erase, false, get_elem?, if◌then◌else◌, insert, lookup,
  lookup-erase, lookup-insert, nat_eq, none, refl, some, string_eq, suc, take, true, zero, ℕ, ◌&&◌,
  ◌++◌, ◌+◌, ◌==◌, ◌∙◌, ◌∷◌, ◌≡◌, ◌≤◌,
}
use bmw.Recorder.Types.{Recorder, State, Upload}

abbrev pub one_if : Bool → ℕ
one_if true = 1
one_if false = 0

unfoldable pub held : String → Map String Recorder → ℕ
held n [] = 0
held n ((t, r) ∷ m) = one_if (r.file == n) + held n m

unfoldable pub removals : String → List Upload → ℕ
removals n [] = 0
removals n (u ∷ us) = one_if (u.remove && u.file == n) + removals n us

abbrev pub copies : String → Map String String → ℕ
copies n texts = elim (lookup n texts) [ none ↦ 0 | some text ↦ 1 ]

abbrev pub owners : String → State → ℕ
owners n s = held n s.recorders + removals n s.uploads

-- Each file has one owner at most, and a file that has one is there.
abbrev pub OneOwner : State → Type 0
OneOwner s = (n : String) → owners n s ≤ copies n s.texts

module _ (n topic : String) where
  pub held-insert_new :
      (r : Recorder) (m : Map String Recorder)
      → lookup topic m ≡ none
      → held n (insert topic r m) ≡ one_if (r.file == n) + held n m
  unfolding held lookup insert
  held-insert_new r [] h = refl
  held-insert_new r ((t, q) ∷ m) h = ground (arith, held-insert_new r m)

  pub held-insert_same :
      (r q : Recorder) (m : Map String Recorder)
      → lookup topic m ≡ some q
      → r.file ≡ q.file
      → held n (insert topic r m) ≡ held n m
  unfolding held lookup insert
  held-insert_same r q [] h e = cc
  held-insert_same r q ((t, p) ∷ m) h e = ground (arith, held-insert_same r q m)

  held-erase_le : (m : Map String Recorder) → held n (erase topic m) ≤ held n m
  unfolding held erase
  held-erase_le [] = ground arith
  held-erase_le ((t, p) ∷ m) = ground (arith, held-erase_le m)

  pub held-erase :
      (q : Recorder) (m : Map String Recorder)
      → lookup topic m ≡ some q
      → one_if (q.file == n) + held n (erase topic m) ≤ held n m
  unfolding held lookup erase
  held-erase q [] h = cc
  held-erase q ((t, p) ∷ m) h = ground (arith, held-erase q m, held-erase_le m)

pub removals-append :
    (n : String) (us vs : List Upload) → removals n (us ++ vs) ≡ removals n us + removals n vs
unfolding removals
removals-append n [] vs = omega arith
removals-append n (u ∷ us) vs = omega (arith, removals-append n us vs)

pub removals-take :
    (n : String) (i : ℕ) (us : List Upload) (u : Upload)
    → get_elem? us i ≡ some u
    → one_if (u.remove && u.file == n) + removals n (take i us ++ drop (suc i) us) ≡ removals n us
unfolding removals
removals-take n i [] u h = cc
removals-take n zero (v ∷ us) u h = ground arith
removals-take n (suc i) (v ∷ us) u h = omega (arith, removals-take n i us u h)

-- Two topics have two recorders.
pub held_twice :
    (n t u : String) (p q : Recorder) (m : Map String Recorder)
    → lookup t m ≡ some p
    → lookup u m ≡ some q
    → (u == t) ≡ false
    → one_if (p.file == n) + one_if (q.file == n) ≤ held n m
held_twice n t u p q m hp hq ne =
    let later : lookup u (erase t m) ≡ some q = lookup-erase u t m ∙ rw (ne) hq in
    omega (arith, held-erase n t p m hp, held-erase n u q (erase t m) later)

module _ (n file : String) (texts : Map String String) where
  pub copies-insert :
      (x : String) → copies n (insert file x texts) ≡ (if n == file then 1 else copies n texts)
  copies-insert x = ground (arith, lookup-insert n file x texts)

  pub copies-erase : copies n (erase file texts) ≡ (if n == file then 0 else copies n texts)
  copies-erase = ground (arith, lookup-erase n file texts)

  pub copies-le : copies n texts ≤ 1
  copies-le = ground arith
