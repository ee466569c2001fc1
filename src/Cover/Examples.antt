-- ===== src/Cover/Examples.antt =====
-- The theorem on worker/cover at an image, with calls outside that all succeed. The world counts the
-- temporary files.
use bmw.Base.{
  List, Post, [], if◌then◌else◌, insert, lookup, nat_eq, refl, some, string_eq, suc, true, ℕ, ◌==◌,
  ◌>>=◌, ◌∷◌, ◌≡◌,
}
use bmw.Cover.Callback.{Handled, handle-Handled}
use bmw.Cover.Files.{download_file, fetch_into, image_blur, named_file, upload_file}
use bmw.Cover.Handler.{Values, add_result, get, handle, handle_image, handle_values, make_results}
use bmw.Cover.Trace.{trace_of}
use bmw.Cover.Types.{
  Event, Outside, call, deferred, exec, made, made_file, make_temp, open_file, post_to, posted,
  remove_file, removed, size_of, uploaded,
}

abbrev outside : Outside
outside = record {
  World = ℕ;
  temp_file = λ prefix n. (suc n, some (if n == 0 then "/tmp/0" else "/tmp/1"));
  run = λ args n. (n, true);
  file_size = λ name n. some 9;
  remove = λ name n. n;
  can_open = λ name n. true;
  download = λ file key bucket region n. (n, true);
  upload = λ file key bucket region n. (n, true);
  post = λ url body n. (n, true);
}

abbrev image_job : Values
image_job =
    ("key", "cat") ∷ ("bucket", "b") ∷ ("region", "eu") ∷ ("type", "image") ∷ ("callback", "u") ∷ []

handle-Handled_example :
    Post
      (trace_of outside)
      (Handled outside "job" (get "type" image_job) "u")
      (handle outside some some "job" image_job)
unfolding lookup string_eq
handle-Handled_example = handle-Handled outside some some "job" image_job image_job "u" refl refl

abbrev image_trace : List Event
image_trace =
    made "/tmp/0"
    ∷ made "/tmp/1"
    ∷ uploaded "moment/cover/cat_blur.jpg"
    ∷ removed "/tmp/1"
    ∷ posted "u"
        (record { id = "job"; type = "image"; result = ("blur", "moment/cover/cat_blur.jpg") ∷ [] })
    ∷ removed "/tmp/0"
    ∷ []

image_job_trace :
    (handle outside some some "job" image_job (record { world = 0; trace = [] })).0.trace
    ≡ image_trace
unfolding handle lookup string_eq nat_eq handle_values download_file named_file fetch_into ◌>>=◌
    deferred remove_file make_results handle_image image_blur make_temp made_file exec size_of
    add_result upload_file open_file call post_to insert
image_job_trace = refl
