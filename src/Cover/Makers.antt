-- ===== src/Cover/Makers.antt =====
-- What the functions of worker/cover that make files do, and which files they leave.
use bmw.Base.{
  List, Post, Post-Emits, Post-if, Post-pure, Post-weaken, Result, String, [], aborts, arith,
  contains, contains-append, fails, nat_eq, not, ok, pure, refl, string_eq, true, ◌++◌, ◌==◌, ◌||◌,
  ◌∷◌, ◌≡◌,
}
use bmw.Cover.Files.{gif_to_webp, image_blur, palette_to_webp, video_to_image, video_to_webp}
use bmw.Cover.Trace.{
  Post-deferred, exec-Emits, is_made-Emits, made_by, make_temp-Emits, pick, pick-append, post_by,
  removed_by, size_of-Emits, trace_of, upload_by,
}
use bmw.Cover.Types.{Error, Event, Outside, Run, deferred, made, removed}

-- Nothing is uploaded or posted.
abbrev pub Quiet : List Event → Type 0
Quiet es = (pick upload_by es ≡ []) × (pick post_by es ≡ [])

-- Every file that is made is one of these or removed.
abbrev pub Kept : List String → List Event → Type 0
Kept files es =
    (f : String)
    → (not (contains (pick made_by es) f) || contains (files ++ pick removed_by es) f) ≡ true

module _ (o : Outside) where
  abbrev pub MakesFile : List Event → Result (Error o) String → Type 0
  MakesFile es (ok out) = Quiet es × Kept (out ∷ []) es
  MakesFile es (fails e) = Quiet es
  MakesFile es aborts = Quiet es

  pub image_blur-MakesFile : (in_file : String) → Post (trace_of o) MakesFile (image_blur o in_file)
  unfolding image_blur pick
  image_blur-MakesFile in_file =
      Post-Emits _ (make_temp-Emits o "blur") (λ e. (refl, refl)) (refl, refl)
        λ out.
          Post-Emits _ (exec-Emits o _) (λ e. (refl, refl)) (refl, refl)
            λ _.
              Post-Emits _ (size_of-Emits o out) (λ e. (refl, refl)) (refl, refl)
                λ _.
                  let q : MakesFile (made out ∷ []) (ok out) = ((refl, refl), λ f. ground arith) in
                  Post-pure _ _ out q

  pub video_to_image-MakesFile :
      (in_file : String) → Post (trace_of o) MakesFile (video_to_image o in_file)
  unfolding video_to_image pick
  video_to_image-MakesFile in_file =
      Post-Emits _ (make_temp-Emits o "png") (λ e. (refl, refl)) (refl, refl)
        λ out.
          Post-Emits _ (exec-Emits o _) (λ e. (refl, refl)) (refl, refl)
            λ _.
              Post-Emits _ (size_of-Emits o out) (λ e. (refl, refl)) (refl, refl)
                λ _.
                  let q : MakesFile (made out ∷ []) (ok out) = ((refl, refl), λ f. ground arith) in
                  Post-pure _ _ out q

  gif_to_webp-MakesFile : (gif : String) → Post (trace_of o) MakesFile (gif_to_webp o gif)
  unfolding gif_to_webp pick
  gif_to_webp-MakesFile gif =
      Post-Emits _ (make_temp-Emits o "webp") (λ e. (refl, refl)) (refl, refl)
        λ out.
          Post-Emits _ (exec-Emits o _) (λ e. (refl, refl)) (refl, refl)
            λ _.
              Post-Emits _ (is_made-Emits o out) (λ e. (refl, refl)) (refl, refl)
                λ good.
                  let q : MakesFile (made out ∷ []) (ok out) = ((refl, refl), λ f. ground arith) in
                  let q' : MakesFile (made out ∷ removed out ∷ []) (ok out) =
                    ((refl, refl), λ f. ground arith) in
                  Post-if _ good
                    (Post-Emits _ (size_of-Emits o out) (λ e. (refl, refl)) (refl, refl)
                      λ _. Post-pure _ _ out q)
                    (Post-deferred o _ out _ (
                      Post-Emits _ (size_of-Emits o out) (λ e. (refl, refl)) (refl, refl)
                        λ _. Post-pure _ _ out q'))

  -- A temporary file that is removed at the end of a part changes nothing of these properties.
  Quiet-around :
      (temp : String) (es : List Event) → Quiet es → Quiet (made temp ∷ (es ++ removed temp ∷ []))
  unfolding pick
  Quiet-around temp es (u, p) = (
    rw (pick-append upload_by es (removed temp ∷ []), u) refl,
    rw (pick-append post_by es (removed temp ∷ []), p) refl,
  )

  Kept-around :
      (temp : String) (files : List String) (es : List Event)
      → Kept files es
      → Kept files (made temp ∷ (es ++ removed temp ∷ []))
  unfolding pick
  Kept-around temp files es h f =
      rw (pick-append made_by es (removed temp ∷ []), pick-append removed_by es (removed temp ∷ []))
        (ground (
          arith,
          h f,
          contains-append (pick made_by es) [] f,
          contains-append files (pick removed_by es) f,
          contains-append files (pick removed_by es ++ temp ∷ []) f,
          contains-append (pick removed_by es) (temp ∷ []) f,
        ))

  MakesFile-around :
      (temp : String) (es : List Event) (r : Result (Error o) String)
      → MakesFile es r
      → MakesFile (made temp ∷ (es ++ removed temp ∷ [])) r
  MakesFile-around temp es (ok out) (q, k) =
      (Quiet-around temp es q, Kept-around temp (out ∷ []) es k)
  MakesFile-around temp es (fails e) q = Quiet-around temp es q
  MakesFile-around temp es aborts q = Quiet-around temp es q

  deferred-MakesFile :
      (temp : String) (m : Run o String)
      → Post (trace_of o) MakesFile m
      → Post (trace_of o) (λ es. MakesFile (made temp ∷ es)) (deferred o temp m)
  deferred-MakesFile temp m body =
      Post-deferred o _ temp m (Post-weaken _ (MakesFile-around temp) body)

  no_name : Post (trace_of o) MakesFile (pure "")
  unfolding pick
  no_name = Post-pure _ _ "" ((refl, refl), λ f. refl)

  palette_to_webp-MakesFile :
      (in_file palette : String) → Post (trace_of o) MakesFile (palette_to_webp o in_file palette)
  unfolding palette_to_webp pick
  palette_to_webp-MakesFile in_file palette =
      Post-Emits _ (make_temp-Emits o "gif") (λ e. (refl, refl)) (refl, refl)
        λ gif. deferred-MakesFile gif _ (
          Post-Emits _ (exec-Emits o _) (λ e. (refl, refl)) (refl, refl)
            λ _.
              Post-Emits _ (size_of-Emits o gif) (λ e. (refl, refl)) (refl, refl)
                λ size. Post-if _ (size == 0) no_name (gif_to_webp-MakesFile gif))

  pub video_to_webp-MakesFile :
      (in_file : String) → Post (trace_of o) MakesFile (video_to_webp o in_file)
  unfolding video_to_webp pick
  video_to_webp-MakesFile in_file =
      Post-Emits _ (make_temp-Emits o "png") (λ e. (refl, refl)) (refl, refl)
        λ palette. deferred-MakesFile palette _ (
          Post-Emits _ (exec-Emits o _) (λ e. (refl, refl)) (refl, refl)
            λ _.
              Post-Emits _ (is_made-Emits o palette) (λ e. (refl, refl)) (refl, refl)
                λ good. Post-if _ good (palette_to_webp-MakesFile in_file palette) no_name)
