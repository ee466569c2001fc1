-- ===== src/Cover/Results.antt =====
-- The results of worker/cover as they grow from file to file, with what is on the trace.
use bmw.Base.{
  Emits, List, Map, Post, Post-Emits, Post-pure, Post-weaken, Result, String, [], aborts, ap,
  append-nil, arith, contains, contains-append, fails, false, insert, keys, nat_eq, not, ok, refl,
  string_eq, sym, true, ◌++◌, ◌||◌, ◌∙◌, ◌∷◌, ◌≡◌,
}
use bmw.Cover.Files.{upload_file}
use bmw.Cover.Handler.{add_result}
use bmw.Cover.Makers.{Kept, MakesFile}
use bmw.Cover.Trace.{
  Removes, call-Emits, made_by, open_file-Emits, pick, pick-append, post_by, remove_file-Removes,
  removed_by, trace_of, upload_by,
}
use bmw.Cover.Types.{Error, Event, Outside, removed, uploaded}

-- The values of a map, in order.
unfoldable pub vals {ℓ} : {V : Type ℓ} → Map String V → List V
vals [] = []
vals ((k, v) ∷ m) = v ∷ vals m

vals-insert :
    {V : Type 0} (k : String) (v : V) (m : Map String V)
    → contains (keys m) k ≡ false
    → vals (insert k v m) ≡ vals m ++ v ∷ []
unfolding vals insert keys
vals-insert k v [] h = refl
vals-insert k v ((j, w) ∷ m) h = ground (arith, vals-insert k v m)

keys-insert :
    {V : Type 0} (k : String) (v : V) (m : Map String V)
    → contains (keys m) k ≡ false
    → keys (insert k v m) ≡ keys m ++ k ∷ []
unfolding insert keys
keys-insert k v [] h = refl
keys-insert k v ((j, w) ∷ m) h = ground (arith, keys-insert k v m)

-- The results so far: their names, the files that wait to be uploaded, and the trace.
pub record Progress (names files : List String) (result : Map String String) (es : List Event)
    : Type 0 where
  pub named : keys result ≡ names
  pub uploads : vals result ≡ pick upload_by es
  pub unposted : pick post_by es ≡ []
  pub kept : Kept files es

module _ (o : Outside) where
  -- What `make_results` leaves.
  abbrev pub Results : List Event → Result (Error o) (Map String String) → Type 0
  Results es (ok result) = (vals result ≡ pick upload_by es) × (pick post_by es ≡ []) × Kept [] es
  Results es (fails e) = pick post_by es ≡ []
  Results es aborts = pick post_by es ≡ []

  only_removed :
      (key file : String) (es : List Event) (r : Result (Error o) (Unit {0}))
      → Removes o file es r
      → Emits (trace_of o) (λ _. uploaded key ∷ removed file ∷ []) (uploaded key ∷ es) r
  only_removed key file es (ok a) (h, e) = ap (◌∷◌ (uploaded key)) h
  only_removed key file es (fails x) (h, e) = cc
  only_removed key file es aborts (h, e) = cc

  pub upload_file-Emits :
      (file key bucket region : String)
      → Post
          (trace_of o)
          (Emits (trace_of o) (λ _. uploaded key ∷ removed file ∷ []))
          (upload_file o file key bucket region)
  unfolding upload_file
  upload_file-Emits file key bucket region =
      Post-Emits _ (open_file-Emits o file) (λ e. refl) refl
        λ _.
          Post-Emits _ (call-Emits o (o.upload file key bucket region) (uploaded key)) (λ e. refl)
            refl λ _. Post-weaken _ (only_removed key file) (remove_file-Removes o file)

  abbrev pub AddsTo :
      String
      → String
      → String
      → Map String String
      → List Event
      → Result (Error o) (Map String String)
      → Type 0
  AddsTo name file key result es (ok r) =
      (es ≡ uploaded key ∷ removed file ∷ []) × (r ≡ insert name key result)
  AddsTo name file key result es (fails e) = es ≡ []
  AddsTo name file key result es aborts = es ≡ []

  pub add_result-AddsTo :
      (name file key bucket region : String) (result : Map String String)
      → Post
          (trace_of o)
          (AddsTo name file key result)
          (add_result o name file key bucket region result)
  unfolding add_result
  add_result-AddsTo name file key bucket region result =
      Post-Emits _ (upload_file-Emits file key bucket region) (λ e. refl) refl
        λ _. Post-pure _ _ (insert name key result) (refl, refl)

  -- After a file is made.
  pub made-Progress :
      {names files : List String} {result : Map String String} {es : List Event} (fs : List Event)
      {out : String}
      → Progress names files result es
      → MakesFile o fs (ok out)
      → Progress names (out ∷ files) result (es ++ fs)
  made-Progress {files = files} {es = es} fs {out = out} p ((u, q), k) = record {
    named = p.named;
    uploads = rw (pick-append upload_by es fs, u, append-nil (pick upload_by es)) p.uploads;
    unposted = rw (pick-append post_by es fs, q, append-nil (pick post_by es)) p.unposted;
    kept = λ f.
        rw (pick-append made_by es fs, pick-append removed_by es fs)
          (ground (
            arith,
            k f,
            p.kept f,
            contains-append (pick made_by es) (pick made_by fs) f,
            contains-append files (pick removed_by es) f,
            contains-append files (pick removed_by es ++ pick removed_by fs) f,
            contains-append (pick removed_by es) (pick removed_by fs) f,
          ));
  }

  -- After a file is uploaded, and removed.
  pub added-Progress :
      {names files files' : List String} {result : Map String String} {es : List Event}
      (name file key : String)
      → Progress names files result es
      → contains names name ≡ false
      → ((f : String) → (not (contains files f) || contains (file ∷ files') f) ≡ true)
      → Progress
          (names ++ name ∷ [])
          files'
          (insert name key result)
          (es ++ uploaded key ∷ removed file ∷ [])
  unfolding pick
  added-Progress {files = files} {files' = files'} {result = result} {es = es} name file key p new
        sub =
      let fresh : contains (keys result) name ≡ false = rw (p.named) new in
      let up = uploaded key ∷ removed file ∷ [] in
      record {
        named = keys-insert name key result fresh ∙ ap (λ l. l ++ name ∷ []) p.named;
        uploads =
            vals-insert name key result fresh
            ∙ ap (λ l. l ++ key ∷ []) p.uploads
            ∙ sym (pick-append upload_by es up);
        unposted = rw (pick-append post_by es up, append-nil (pick post_by es)) p.unposted;
        kept = λ f.
            rw (pick-append made_by es up, pick-append removed_by es up)
              (ground (
                arith,
                p.kept f,
                sub f,
                contains-append (pick made_by es) [] f,
                contains-append files (pick removed_by es) f,
                contains-append files' (pick removed_by es ++ file ∷ []) f,
                contains-append (pick removed_by es) (file ∷ []) f,
              ));
      }
