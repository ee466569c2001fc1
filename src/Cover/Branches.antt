-- ===== src/Cover/Branches.antt =====
-- The branches of `Handle` of worker/cover, file by file.
use bmw.Base.{
  List, Map, Post, Post-bind, Post-if, Post-pure, Post-weaken, Result, String, [], aborts, ap,
  append_assoc, arith, contains, fails, false, keys, nat_eq, not, ok, refl, string_eq, subst, sym,
  true, ◌++◌, ◌==◌, ◌>>=◌, ◌||◌, ◌∷◌, ◌≡◌,
}
use bmw.Cover.Handler.{add_result, handle_image, handle_video, make_results}
use bmw.Cover.Makers.{
  MakesFile, image_blur-MakesFile, video_to_image-MakesFile, video_to_webp-MakesFile,
}
use bmw.Cover.Results.{
  AddsTo, Progress, Results, add_result-AddsTo, added-Progress, made-Progress, vals,
}
use bmw.Cover.Trace.{pick, pick-append, post_by, trace_of}
use bmw.Cover.Types.{Error, Event, Outside, Run, removed, uploaded}

module _ (o : Outside) where
  -- The rest of a branch, after these events.
  abbrev Rest : List Event → List Event → Result (Error o) (Map String String) → Type 0
  Rest es fs = Results o (es ++ fs)

  Rest-assoc :
      {m : Run o (Map String String)} (es fs : List Event)
      → Post (trace_of o) (Rest (es ++ fs)) m
      → Post (trace_of o) (λ gs. Rest es (fs ++ gs)) m
  Rest-assoc es fs = Post-weaken _ (λ gs r h. subst (λ l. Results o l r) (append_assoc es fs gs) h)

  unposted :
      (es fs : List Event)
      → pick post_by es ≡ []
      → pick post_by fs ≡ []
      → pick post_by (es ++ fs) ≡ []
  unposted es fs h h' = rw (pick-append post_by es fs, h, h') refl

  nothing_posted : (fs : List Event) → fs ≡ [] → pick post_by fs ≡ []
  unfolding pick
  nothing_posted fs h = ap (pick post_by) h

  -- A function that makes a file, and the rest.
  make_step :
      {names files : List String} {result : Map String String} {es : List Event} {m : Run o String}
      {f : String → Run o (Map String String)}
      → Progress names files result es
      → Post (trace_of o) (MakesFile o) m
      → ((out : String) (es' : List Event)
          → Progress names (out ∷ files) result es'
          → Post (trace_of o) (Rest es') (f out))
      → Post (trace_of o) (Rest es) (m >>= f)
  make_step {es = es} {m = m} {f = f} p makes rest =
      Post-bind _ (MakesFile o) (Rest es) m f makes
        (λ fs out h. Rest-assoc es fs (rest out (es ++ fs) (made-Progress o fs p h)))
        (λ fs e q. unposted es fs p.unposted (q.1)) (λ fs q. unposted es fs p.unposted (q.1))

  moved-Progress :
      {names files : List String} (files' : List String) {result : Map String String}
      {es : List Event} (fs : List Event) (result' : Map String String) (name file key : String)
      → Progress names files result es
      → contains names name ≡ false
      → ((g : String) → (not (contains files g) || contains (file ∷ files') g) ≡ true)
      → AddsTo o name file key result fs (ok result')
      → Progress (names ++ name ∷ []) files' result' (es ++ fs)
  moved-Progress {names = names} files' {es = es} fs result' name file key p new sub (h, e) =
      let all = names ++ name ∷ [] in
      let up = uploaded key ∷ removed file ∷ [] in
      subst (λ l. Progress all files' result' (es ++ l)) (sym h)
        (subst (λ r. Progress all files' r (es ++ up)) (sym e)
          (added-Progress o name file key p new sub))

  -- The upload of a result, and the rest.
  add_step :
      {names files : List String} (files' : List String) {result : Map String String}
      {es : List Event} {f : Map String String → Run o (Map String String)}
      (name file key bucket region : String)
      → Progress names files result es
      → contains names name ≡ false
      → ((g : String) → (not (contains files g) || contains (file ∷ files') g) ≡ true)
      → ((result' : Map String String) (es' : List Event)
          → Progress (names ++ name ∷ []) files' result' es'
          → Post (trace_of o) (Rest es') (f result'))
      → Post (trace_of o) (Rest es) (add_result o name file key bucket region result >>= f)
  add_step files' {result} {es} {f} name file key bucket region p new sub rest =
      Post-bind _ (AddsTo o name file key result) (Rest es) _ f
        (add_result-AddsTo o name file key bucket region result)
        (λ fs r h.
          Rest-assoc es fs
            (rest r (es ++ fs) (moved-Progress files' fs r name file key p new sub h)))
        (λ fs e h. unposted es fs p.unposted (nothing_posted fs h))
        (λ fs h. unposted es fs p.unposted (nothing_posted fs h))

  Results_of_AddsTo :
      {names files : List String} {result : Map String String} {es : List Event}
      (name file key : String)
      → Progress names files result es
      → contains names name ≡ false
      → ((g : String) → (not (contains files g) || contains (file ∷ []) g) ≡ true)
      → (fs : List Event) (r : Result (Error o) (Map String String))
      → AddsTo o name file key result fs r
      → Rest es fs r
  Results_of_AddsTo name file key p new sub fs (ok result') h =
      let q = moved-Progress [] fs result' name file key p new sub h in
      (q.uploads, q.unposted, q.kept)
  Results_of_AddsTo {es = es} name file key p new sub fs (fails e) h =
      unposted es fs p.unposted (nothing_posted fs h)
  Results_of_AddsTo {es = es} name file key p new sub fs aborts h =
      unposted es fs p.unposted (nothing_posted fs h)

  -- The upload of the last result.
  add_last :
      {names files : List String} {result : Map String String} {es : List Event}
      (name file key bucket region : String)
      → Progress names files result es
      → contains names name ≡ false
      → ((g : String) → (not (contains files g) || contains (file ∷ []) g) ≡ true)
      → Post (trace_of o) (Rest es) (add_result o name file key bucket region result)
  add_last {result = result} name file key bucket region p new sub =
      Post-weaken _ (Results_of_AddsTo name file key p new sub)
        (add_result-AddsTo o name file key bucket region result)

  start : Progress [] [] [] []
  unfolding vals keys pick
  start = record { named = refl; uploads = refl; unposted = refl; kept = λ f. refl }

  handle_image-Results :
      (file file_key bucket region : String)
      → Post (trace_of o) (Results o) (handle_image o file file_key bucket region)
  unfolding handle_image
  handle_image-Results file file_key bucket region =
      make_step start (image_blur-MakesFile o file)
        λ blur es p. add_last "blur" blur _ bucket region p refl (λ g. ground arith)

  handle_video-Results :
      (file file_key bucket region : String)
      → Post (trace_of o) (Results o) (handle_video o file file_key bucket region)
  unfolding handle_video string_eq
  handle_video-Results file file_key bucket region =
      make_step start (video_to_webp-MakesFile o file) λ webp es₁ p₁.
        add_step [] "webp" webp _ bucket region p₁ refl (λ g. ground arith)
          λ with_webp es₂ p₂. make_step p₂ (video_to_image-MakesFile o file) λ picture es₃ p₃.
            make_step p₃ (image_blur-MakesFile o picture) λ blur es₄ p₄.
              add_step (blur ∷ []) "cover" picture _ bucket region p₄ refl (λ g. ground arith)
                λ with_cover es₅ p₅.
                  add_last "blur" blur _ bucket region p₅ refl (λ g. ground arith)

  pub make_results-Results :
      (file_type file file_key bucket region : String)
      → Post (trace_of o) (Results o) (make_results o file_type file file_key bucket region)
  unfolding make_results vals pick
  make_results-Results file_type file file_key bucket region =
      Post-if _ (file_type == "image") (handle_image-Results file file_key bucket region) (
        Post-if _ (file_type == "video") (handle_video-Results file file_key bucket region)
          (Post-pure _ _ [] (refl, refl, λ f. refl)))
