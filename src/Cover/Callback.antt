-- ===== src/Cover/Callback.antt =====
-- What a job of the cover worker uploads, posts and leaves.
use bmw.Base.{
  Bool-cases, List, Map, Option, Post, Post-bind, Post-weaken, Result, String, [], aborts, ap,
  append-nil, arith, contains-append, fails, inl, inr, nat_eq, ok, refl, some, string_eq, subst,
  sym, ◌++◌, ◌>>=◌, ◌∙◌, ◌∷◌, ◌≡◌, ◌⊎◌,
}
use bmw.Cover.Branches.{make_results-Results}
use bmw.Cover.Files.{download_file}
use bmw.Cover.Handler.{Values, get, handle, handle_values, make_results}
use bmw.Cover.Makers.{Kept}
use bmw.Cover.Results.{Results, vals}
use bmw.Cover.Trace.{
  Downloads, Post-deferred, download_file-Downloads, made_by, pick, pick-append, post_by,
  removed_by, trace_of, upload_by,
}
use bmw.Cover.Types.{Body, Error, Event, Outside, deferred, made, post_to, posted, removed}

module _ (o : Outside) where
  -- One call of `HTTPPost`, to the callback: the results that it posts are what the job uploaded, in order; and
  -- every temporary file that it made is removed.
  abbrev pub Posted : String → String → String → List Event → Type 0
  Posted id type callback es =
      (result : Map String String) × ((pick post_by es
          ≡ (callback, record { id = id; type = type; result = result }) ∷ [])
        × (vals result ≡ pick upload_by es)
        × Kept [] es)

  -- A job that ends well has posted so. One that returns an error has posted nothing, or so.
  abbrev pub Handled : String → String → String → List Event → Result (Error o) (Unit {0}) → Type 0
  Handled id type callback es (ok u) = Posted id type callback es
  Handled id type callback es (fails e) = (pick post_by es ≡ []) ⊎ Posted id type callback es
  Handled id type callback es aborts = pick post_by es ≡ []

  -- What `post_to` notes.
  abbrev Sends : Event → List Event → Result (Error o) (Unit {0}) → Type 0
  Sends event es (ok u) = es ≡ event ∷ []
  Sends event es (fails e) = es ≡ event ∷ []
  Sends event es aborts = ⊥

  post_to-Sends :
      (url : String) (body : Body)
      → Post (trace_of o) (Sends (posted url body)) (post_to o url body)
  unfolding post_to
  post_to-Sends url body = record {
    post = λ s. elim (Bool-cases (o.post url body s.world).1) [
      | inl e ↦ rw (e, post_to) (posted url body ∷ [], (refl, refl))
      | inr e ↦ rw (e, post_to) (posted url body ∷ [], (refl, refl))
    ];
  }

  -- The parts of the trace of a job, from those of its results and of the rest.
  picked {ℓ} :
      {A : Type ℓ} (f : Event → List A) (file : String) (es fs : List Event)
      → f (made file) ≡ []
      → f (removed file) ≡ []
      → pick f (made file ∷ ((es ++ fs) ++ removed file ∷ [])) ≡ pick f es ++ pick f fs
  unfolding pick
  picked f file es fs m r =
      rw
        (
          m,
          pick-append f (es ++ fs) (removed file ∷ []),
          pick-append f es fs,
          r,
          append-nil (pick f es ++ pick f fs),
        )
        refl

  made_in_job :
      (file : String) (es fs : List Event)
      → pick made_by fs ≡ []
      → pick made_by (made file ∷ ((es ++ fs) ++ removed file ∷ [])) ≡ file ∷ pick made_by es
  unfolding pick
  made_in_job file es fs h = ap (◌∷◌ file) (
      pick-append made_by (es ++ fs) (removed file ∷ [])
      ∙ append-nil (pick made_by (es ++ fs))
      ∙ pick-append made_by es fs
      ∙ ap (λ l. pick made_by es ++ l) h
      ∙ append-nil (pick made_by es))

  removed_in_job :
      (file : String) (es fs : List Event)
      → pick removed_by (made file ∷ ((es ++ fs) ++ removed file ∷ []))
        ≡ (pick removed_by es ++ pick removed_by fs) ++ file ∷ []
  unfolding pick
  removed_in_job file es fs =
      pick-append removed_by (es ++ fs) (removed file ∷ [])
      ∙ ap (λ l. l ++ file ∷ []) (pick-append removed_by es fs)

  Kept-job :
      (file : String) (es fs : List Event)
      → pick made_by fs ≡ []
      → Kept [] es
      → Kept [] (made file ∷ ((es ++ fs) ++ removed file ∷ []))
  Kept-job file es fs h k f =
      rw (made_in_job file es fs h, removed_in_job file es fs)
        (ground (
          arith,
          k f,
          contains-append (pick removed_by es ++ pick removed_by fs) (file ∷ []) f,
          contains-append (pick removed_by es) (pick removed_by fs) f,
        ))

  silent_results :
      (file : String) (es : List Event)
      → pick post_by es ≡ []
      → pick post_by (made file ∷ (es ++ removed file ∷ [])) ≡ []
  unfolding pick
  silent_results file es h = pick-append post_by es (removed file ∷ []) ∙ rw (h) refl

  job-Posted :
      (id type callback file : String) (result : Map String String) (es fs : List Event)
      → Results o es (ok result)
      → fs ≡ posted callback (record { id = id; type = type; result = result }) ∷ []
      → Posted id type callback (made file ∷ ((es ++ fs) ++ removed file ∷ []))
  unfolding pick
  job-Posted id type callback file result es fs (up, silent, kept) h =
      let body : Body = record { id = id; type = type; result = result } in
      let job = λ (gs : List Event). made file ∷ ((es ++ gs) ++ removed file ∷ []) in
      let event = posted callback body ∷ [] in
      subst (λ gs. Posted id type callback (job gs)) (sym h)
        (
          result,
          (
            picked post_by file es event refl refl ∙ rw (silent) refl,
            up
                ∙ sym (append-nil (pick upload_by es))
                ∙ sym (picked upload_by file es event refl refl),
            Kept-job file es event refl kept,
          ),
        )

  Handled-of_Posts :
      (id type callback file : String) (result : Map String String) (es fs : List Event)
      (r : Result (Error o) (Unit {0}))
      → Results o es (ok result)
      → Sends (posted callback (record { id = id; type = type; result = result })) fs r
      → Handled id type callback (made file ∷ ((es ++ fs) ++ removed file ∷ [])) r
  Handled-of_Posts id type callback file result es fs (ok u) h sent =
      job-Posted id type callback file result es fs h sent
  Handled-of_Posts id type callback file result es fs (fails e) h sent =
      inr (job-Posted id type callback file result es fs h sent)
  Handled-of_Posts id type callback file result es fs aborts h sent = absurd sent

  -- The results and the callback, with the removal of the downloaded file after them.
  make_and_notify :
      (id type callback file key bucket region : String)
      → Post
          (trace_of o)
          (λ es. Handled id type callback (made file ∷ (es ++ removed file ∷ [])))
          (make_results o type file key bucket region >>= λ result.
            post_to o callback (record { id = id; type = type; result = result }))
  make_and_notify id type callback file key bucket region =
      Post-bind _ (Results o) _ _ _ (make_results-Results o type file key bucket region)
        (λ es result h.
          Post-weaken _ (λ fs r p. Handled-of_Posts id type callback file result es fs r h p)
            (post_to-Sends callback (record { id = id; type = type; result = result })))
        (λ es e h. inl (silent_results file es h)) (λ es h. silent_results file es h)

  handle_values-Handled :
      (id : String) (values : Values) (callback : String)
      → Post
          (trace_of o)
          (Handled id (get "type" values) callback)
          (handle_values o id values callback)
  unfolding handle_values
  handle_values-Handled id values callback =
      let type = get "type" values in
      let key = get "key" values in
      let bucket = get "bucket" values in
      let region = get "region" values in
      Post-bind _ (Downloads o) (Handled id type callback) (download_file o key bucket region) _
        (download_file-Downloads o key bucket region)
        (λ es file h.
          subst
            (λ l.
              Post (trace_of o) (λ fs. Handled id type callback (l ++ fs))
                (deferred o file (
                  make_results o type file key bucket region >>= λ result.
                  post_to o callback (record { id = id; type = type; result = result }))))
            (sym h)
            (Post-deferred o _ file _ (make_and_notify id type callback file key bucket region)))
        (λ es e h. inl h) (λ es h. h)

  -- A job of the cover worker, whatever the commands, the storage and the files do. If it ends well it
  -- has called HTTPPost exactly once, with the callback that its payload names and with its identifier and
  -- type; the keys that it posts are exactly those that it uploaded, in that order; and every temporary file that
  -- it made was removed. If it returns an error, it has done the same or has not called
  -- HTTPPost; if it panics, it has not.
  pub handle-Handled :
      {Bytes : Type 0} (parse_query : Bytes → Option Values) (unescape : String → Option String)
      (id : String) (payload : Bytes) (values : Values) (callback : String)
      → parse_query payload ≡ some values
      → unescape (get "callback" values) ≡ some callback
      → Post
          (trace_of o)
          (Handled id (get "type" values) callback)
          (handle o parse_query unescape id payload)
  unfolding handle
  handle-Handled parse_query unescape id payload values callback h h' =
      rw (h, handle) (rw (h') (handle_values-Handled id values callback))
