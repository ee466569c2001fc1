-- ===== src/Rsync/Examples.antt =====
-- The theorem on worker/rsync at a service that holds one of two resources.
use bmw.Base.{[], if◌then◌else◌, nat_eq, none, refl, some, string_eq, suc, true, ℕ, ◌==◌, ◌∷◌}
use bmw.Rsync.Handler.{handle}
use bmw.Rsync.Statuses.{Answered, handle-Answered}
use bmw.Rsync.Types.{Outside, Resource, ResponseBody}

abbrev outside : Outside
outside = record {
  World = ℕ;
  head_object = λ key bucket region n. if key == "cat" then some 5 else none;
  fetch = λ url n. (n, some (record { name = "/tmp/dog"; type = "image/png"; size = some 7 }));
  file_size = λ file n. some 7;
  can_open = λ file n. true;
  put = λ file key bucket region type n. (suc n, true);
  remove = λ file n. n;
  post = λ url body n. (suc n, true);
}

abbrev cat : Resource
cat = record {
  url = "http://example.com/cat";
  key = "cat";
  bucket = "b";
  region = "eu";
  field = "image";
  status = 9;
}

abbrev two : ResponseBody
two = record {
  callback = "http://example.com/done";
  resources = cat ∷ record cat { key = "dog" } ∷ [];
}

handle-Answered_example : Answered outside "job" two.resources 0 (handle outside some "job" two 0).1
handle-Answered_example = handle-Answered outside some "job" two two 0 refl
