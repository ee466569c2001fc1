-- ===== src/Cover/Trace.antt =====
-- What the calls of worker/cover add to the trace.
use bmw.Base.{
  Bool, Bool-cases, Emits, Ended, List, Option, Option-cases, Post, Post-Emits, Post-weaken, Result,
  String, [], aborts, ap, append-nil, append_assoc, arith, fails, inl, inr, nat_eq, none, ok, refl,
  some, string_eq, sym, ◌++◌, ◌∙◌, ◌∷◌, ◌≡◌,
}
use bmw.Cover.Files.{download_file, fetch_into, named_file}
use bmw.Cover.Types.{
  Body, Error, Event, Outside, Run, State, call, deferred, exec, is_made, made, made_file,
  make_temp, open_file, posted, remove_file, removed, size_of, uploaded,
}

-- The parts of a trace that an event kind names, in order.
unfoldable pub pick {ℓ} : {A : Type ℓ} → (Event → List A) → List Event → List A
pick f [] = []
pick f (e ∷ es) = f e ++ pick f es

pub pick-append {ℓ} :
    {A : Type ℓ} (f : Event → List A) (es fs : List Event)
    → pick f (es ++ fs) ≡ pick f es ++ pick f fs
unfolding pick
pick-append f [] fs = refl
pick-append f (e ∷ es) fs =
    ap (λ l. f e ++ l) (pick-append f es fs) ∙ sym (append_assoc (f e) (pick f es) (pick f fs))

abbrev pub made_by : Event → List String
made_by (made f) = f ∷ []
made_by (removed f) = []
made_by (uploaded k) = []
made_by (posted u b) = []

abbrev pub removed_by : Event → List String
removed_by (made f) = []
removed_by (removed f) = f ∷ []
removed_by (uploaded k) = []
removed_by (posted u b) = []

abbrev pub upload_by : Event → List String
upload_by (made f) = []
upload_by (removed f) = []
upload_by (uploaded k) = k ∷ []
upload_by (posted u b) = []

abbrev pub post_by : Event → List (String × Body)
post_by (made f) = []
post_by (removed f) = []
post_by (uploaded k) = []
post_by (posted u b) = (u, b) ∷ []

module _ (o : Outside) where
  abbrev pub trace_of : State o → List Event
  trace_of s = s.trace

  pub call-Emits :
      (f : o.World → o.World × Bool) (event : Event)
      → Post trace_of (Emits trace_of (λ _. event ∷ [])) (call o f event)
  unfolding call
  call-Emits f event = record {
    post = λ s. elim (Bool-cases (f s.world).1) [
      | inl e ↦ rw (e) (event ∷ [], (refl, refl))
      | inr e ↦ rw (e) ([], (sym (append-nil s.trace), refl))
    ];
  }

  made_file-Emits :
      (r : o.World × Option String) (s : State o)
      → Ended trace_of (Emits trace_of (λ n. made n ∷ [])) s.trace (made_file o r s)
  unfolding made_file
  made_file-Emits (w, none) s = ([], (sym (append-nil s.trace), refl))
  made_file-Emits (w, some name) s = (made name ∷ [], (refl, refl))

  pub make_temp-Emits :
      (prefix : String) → Post trace_of (Emits trace_of (λ n. made n ∷ [])) (make_temp o prefix)
  unfolding make_temp
  make_temp-Emits prefix = record { post = λ s. made_file-Emits (o.temp_file prefix s.world) s }

  pub exec-Emits : (args : List String) → Post trace_of (Emits trace_of (λ _. [])) (exec o args)
  unfolding exec
  exec-Emits args = record {
    post = λ s. elim (Bool-cases (o.run args s.world).1) [
      | inl e ↦ rw (e) ([], (sym (append-nil s.trace), refl))
      | inr e ↦ rw (e) ([], (sym (append-nil s.trace), refl))
    ];
  }

  pub size_of-Emits : (name : String) → Post trace_of (Emits trace_of (λ _. [])) (size_of o name)
  unfolding size_of
  size_of-Emits name = record {
    post = λ s. elim (Option-cases (o.file_size name s.world)) [
      | inl e ↦ rw (e, size_of) ([], (sym (append-nil s.trace), refl))
      | inr (n, e) ↦ rw (e, size_of) ([], (sym (append-nil s.trace), refl))
    ];
  }

  pub open_file-Emits :
      (name : String) → Post trace_of (Emits trace_of (λ _. [])) (open_file o name)
  unfolding open_file
  open_file-Emits name = record {
    post = λ s. elim (Bool-cases (o.can_open name s.world)) [
      | inl e ↦ rw (e) ([], (sym (append-nil s.trace), refl))
      | inr e ↦ rw (e) ([], (sym (append-nil s.trace), refl))
    ];
  }

  pub is_made-Emits : (name : String) → Post trace_of (Emits trace_of (λ _. [])) (is_made o name)
  unfolding is_made
  is_made-Emits name = record { post = λ s. ([], (sym (append-nil s.trace), refl)) }

  -- `remove_file` does not fail.
  abbrev pub Removes : String → List Event → Result (Error o) (Unit {0}) → Type 0
  Removes name es r = (es ≡ removed name ∷ []) × (r ≡ ok tt)

  pub remove_file-Removes : (name : String) → Post trace_of (Removes name) (remove_file o name)
  unfolding remove_file
  remove_file-Removes name = record { post = λ s. (removed name ∷ [], (refl, (refl, refl))) }

  named_file-Emits :
      (r : o.World × Option String) (s : State o)
      → Ended trace_of (Emits trace_of (λ n. made n ∷ [])) s.trace (named_file o r s)
  unfolding named_file
  named_file-Emits (w, none) s = ([], (sym (append-nil s.trace), refl))
  named_file-Emits (w, some name) s = (made name ∷ [], (refl, refl))

  named_temp-Emits :
      (prefix : String)
      → Post trace_of
          (Emits trace_of (λ n. made n ∷ []))
          (λ s. named_file o (o.temp_file prefix s.world) s)
  named_temp-Emits prefix = record { post = λ s. named_file-Emits (o.temp_file prefix s.world) s }

  abbrev Fetches : String → List Event → Result (Error o) String → Type 0
  Fetches out es (ok a) = (es ≡ []) × (a ≡ out)
  Fetches out es (fails e) = es ≡ []
  Fetches out es aborts = es ≡ []

  fetch_into-Fetches :
      (out key bucket region : String)
      → Post trace_of (Fetches out) (fetch_into o out key bucket region)
  unfolding fetch_into
  fetch_into-Fetches out key bucket region = record {
    post = λ s. elim (Bool-cases (o.download out key bucket region s.world).1) [
      | inl e ↦ rw (e) ([], (sym (append-nil s.trace), (refl, refl)))
      | inr e ↦ rw (e) ([], (sym (append-nil s.trace), refl))
    ];
  }

  -- A file is made and answered, or nothing is posted.
  abbrev pub Downloads : List Event → Result (Error o) String → Type 0
  Downloads es (ok out) = es ≡ made out ∷ []
  Downloads es (fails e) = pick post_by es ≡ []
  Downloads es aborts = pick post_by es ≡ []

  Downloads-of_Fetches :
      (out : String) (es : List Event) (r : Result (Error o) String)
      → Fetches out es r
      → Downloads (made out ∷ es) r
  unfolding pick
  Downloads-of_Fetches out es (ok a) (h, same) = ground (arith, h, same)
  Downloads-of_Fetches out es (fails e) h = ap (pick post_by) h
  Downloads-of_Fetches out es aborts h = ap (pick post_by) h

  pub download_file-Downloads :
      (key bucket region : String) → Post trace_of Downloads (download_file o key bucket region)
  unfolding download_file pick
  download_file-Downloads key bucket region =
      Post-Emits _ (named_temp-Emits "tmp") (λ e. refl) refl
        λ out. Post-weaken _ (Downloads-of_Fetches out) (fetch_into-Fetches out key bucket region)

  -- The rest of a function and its deferred removal.
  pub Post-deferred :
      {A : Type 0} (Q : List Event → Result (Error o) A → Type 0) (name : String) (m : Run o A)
      → Post trace_of (λ es. Q (es ++ removed name ∷ [])) m
      → Post trace_of Q (deferred o name m)
  unfolding deferred remove_file
  Post-deferred Q name m body = record {
    post = λ s.
        let (es, (h, q)) = body.post s in
        (
          es ++ removed name ∷ [],
          (ap (λ l. l ++ removed name ∷ []) h ∙ append_assoc s.trace es (removed name ∷ []), q),
        );
  }
