-- ===== src/Cover/Handler.antt =====
-- `Handle` of worker/cover/main.go. `url.ParseQuery` and `url.QueryUnescape` are arguments, and the
-- JSON encoder does not fail on strings.
use bmw.Base.{
  Map, Option, String, [], fail, if◌then◌else◌, insert, lookup, nat_eq, none, pure, some, string_eq,
  ◌<>◌, ◌==◌, ◌>>=◌, ◌>>◌,
}
use bmw.Cover.Files.{download_file, image_blur, upload_file, video_to_image, video_to_webp}
use bmw.Cover.Types.{Body, Outside, Run, deferred, failed, post_to}

-- A parsed query: `Get` of a missing name is empty.
abbrev pub Values : Type 0
Values = Map String String

abbrev pub get : String → Values → String
get name values = elim (lookup name values) [ none ↦ "" | some v ↦ v ]

abbrev pub cover : String
cover = "moment/cover/"

module _ (o : Outside) where
  -- The upload of one file and its entry of the map `result`.
  unfoldable pub add_result :
      String → String → String → String → String → Map String String → Run o (Map String String)
  unfolding upload_file
  add_result name file key bucket region result = do
    upload_file o file key bucket region
    pure (insert name key result)

  -- The branch of an image.
  unfoldable pub handle_image : String → String → String → String → Run o (Map String String)
  unfolding image_blur add_result
  handle_image file file_key bucket region = do
    blur ← image_blur o file
    add_result "blur" blur (cover <> (file_key <> "_blur.jpg")) bucket region []

  -- The branch of a video.
  unfoldable pub handle_video : String → String → String → String → Run o (Map String String)
  unfolding video_to_webp video_to_image image_blur add_result
  handle_video file file_key bucket region = do
    webp ← video_to_webp o file
    with_webp ← add_result "webp" webp (cover <> (file_key <> "_webp.webp")) bucket region []
    picture ← video_to_image o file
    blur ← image_blur o picture
    with_cover ←
        add_result "cover" picture (cover <> (file_key <> "_cover.jpg")) bucket region with_webp
    add_result "blur" blur (cover <> (file_key <> "_blur.jpg")) bucket region with_cover

  -- The branch by `fileType`; another type has no results.
  unfoldable pub make_results :
      String → String → String → String → String → Run o (Map String String)
  unfolding handle_image handle_video
  make_results file_type file file_key bucket region =
      if file_type == "image"
      then handle_image file file_key bucket region
      else if file_type == "video"
      then handle_video file file_key bucket region
      else pure []

  -- `Handle` after the query is parsed and the callback is unescaped.
  unfoldable pub handle_values : String → Values → String → Run o (Unit {0})
  unfolding download_file deferred make_results post_to
  handle_values id values callback = do
    file ← download_file o (get "key" values) (get "bucket" values) (get "region" values)
    deferred o file (do
      result ←
          make_results (get "type" values) file (get "key" values) (get "bucket" values)
            (get "region" values)
      let body : Body = record { id = id; type = get "type" values; result = result }
      post_to o callback body)

  unfoldable pub handle {ℓ} :
      {Bytes : Type ℓ}
      → (Bytes → Option Values)
      → (String → Option String)
      → String
      → Bytes
      → Run o (Unit {0})
  unfolding handle_values
  handle parse_query unescape id payload = elim (parse_query payload) [
    | none ↦ fail failed
    | some values ↦ elim (unescape (get "callback" values)) [
      | none ↦ fail failed
      | some callback ↦ handle_values id values callback
    ]
  ]
