-- ===== src/Resource/Examples.antt =====
-- The theorems on worker/resource at clouds in which every call succeeds, but for the command that
-- makes a file where that is to fail. The world counts the uploads.
use bmw.Base.{
  All, List, Map, Option, String, [], ap, false, insert, keys, length, lookup, lookup-insert,
  nat_eq, ne_of_==, none, not, refl, some, string_eq, suc, true, ℕ, ◌++◌, ◌<◌, ◌==◌, ◌∷◌, ◌≡◌, ◌≢◌,
  ◌⊎◌,
}
use bmw.Resource.Bits.{KeysOnce, bits, get_result_lem, join}
use bmw.Resource.Bucket.{exists, get_bucket_pool, new_bucket, upload}
use bmw.Resource.Callbacks.{handle_batch_request_lem, handle_request_lem, of_last_request, rows}
use bmw.Resource.Done.{Idle, do_job-get_result}
use bmw.Resource.Failure.{do_job-failed}
use bmw.Resource.Generate.{check_made, make_file, run_command, run_one_cmd}
use bmw.Resource.Job.{
  after_child, after_node, create_and_upload, do_job, do_node, get_key, get_result, mark_result,
  mark_results, new_key, take_in_file, upload_all, upload_to,
}
use bmw.Resource.Queries.{handle_batch_request-find_key_query, last_result}
use bmw.Resource.Requests.{
  callbacks, handle_batch_request, handle_request, handled, post_batch, post_one, store_row,
}
use bmw.Resource.Table.{Table, TableLaws, find_key, find_key_query, result_answer, store_all}
use bmw.Resource.Types.{
  BatchRequest, Buckets, Cloud, JobNode, JobTree, Request, and, create_err, download, leaf, qiniu,
  s3, thumbnail_image, tree, user_avatar_thumb_key,
}
use bmw.Resource.Uploads.{Known, all_marked, upload_all-marks}

abbrev cloud_with : Option String → Cloud
cloud_with download_answer = record {
  World = ℕ;
  stat = λ bucket key n. none;
  put = λ bucket key file n. (suc n, true);
  can_open = λ file n. true;
  temp_file = λ name n. (n, some "/tmp/new");
  run = λ args n. (n, true);
  file_size = λ file n. some 10;
  remove = λ file n. n;
  fetch = λ url n. (n, download_answer);
}

abbrev buckets : Buckets
buckets = record {
  pool = ("near", qiniu) ∷ ("far", s3) ∷ [];
  domains = ("near", "near.example.com") ∷ ("far", "far.example.com") ∷ [];
}

abbrev download_node : JobNode
download_node = record {
  bit_position = 1;
  name = "download";
  origin_key = "cat";
  in_file = "http://near.example.com/cat";
  out_file = "";
  is_done = false;
  is_processing = false;
  result_map = ("near", true) ∷ ("far", false) ∷ [];
  create_file = download;
  get_new_key = none;
}

abbrev thumb_node : JobNode
thumb_node = record download_node {
  bit_position = 16;
  name = "thumb";
  in_file = "";
  result_map = ("near", false) ∷ ("far", false) ∷ [];
  create_file = thumbnail_image;
  get_new_key = some user_avatar_thumb_key;
}

abbrev thumb : JobTree
thumb = tree thumb_node leaf

abbrev avatar : JobTree
avatar = tree download_node (and thumb leaf)

abbrev avatar_done : JobTree
avatar_done =
    tree download_node (
      and (tree (record thumb_node { result_map = ("near", true) ∷ ("far", true) ∷ [] }) leaf) leaf)

abbrev clouds : Cloud
clouds = cloud_with (some "/tmp/cat")

abbrev offline : Cloud
offline = cloud_with none

avatar_done-result : get_result avatar_done [] ≡ (("near", 17) ∷ ("far", 16) ∷ [], none)
unfolding get_result mark_results mark_result lookup insert string_eq
avatar_done-result = refl

avatar_done-KeysOnce : KeysOnce avatar_done
unfolding string_eq keys
avatar_done-KeysOnce = ((refl, (refl, tt)), (((refl, (refl, tt)), tt), tt))

get_result_lem_example :
    lookup {K = String} "far" (("near", 17) ∷ ("far", 16) ∷ []) ≡ join none (bits "far" avatar_done)
get_result_lem_example =
    get_result_lem avatar_done (("near", 17) ∷ ("far", 16) ∷ []) avatar_done-KeysOnce
      avatar_done-result "far"

avatar-ok : (do_job clouds buckets none avatar 0).1.1 ≡ none
unfolding do_job do_node take_in_file create_and_upload make_file upload_all after_node after_child
    upload_to new_key get_key string_eq nat_eq lookup upload exists get_bucket_pool new_bucket
    check_made run_command run_one_cmd
avatar-ok = refl

do_job-get_result_example :
    Idle (do_job clouds buckets none avatar 0).1.0
    × ((get_result (do_job clouds buckets none avatar 0).1.0 []).1 ≡ none)
do_job-get_result_example = do_job-get_result clouds buckets avatar 0 [] avatar-ok

thumb-Known : All (Known clouds buckets) (keys thumb_node.result_map)
unfolding keys get_bucket_pool new_bucket lookup string_eq
thumb-Known = (((λ e. cc), (λ e. cc)), (((λ e. cc), (λ e. cc)), tt))

upload_all-marks_example :
    let (w', (m', failed)) =
      upload_all clouds buckets thumb_node "/tmp/new" thumb_node.result_map 0 in
    (keys m' ≡ keys thumb_node.result_map) × (failed ≡ not (all_marked m'))
upload_all-marks_example =
    upload_all-marks clouds buckets thumb_node "/tmp/new" thumb_node.result_map 0 thumb-Known

has_file : download_node.in_file ≢ ""
unfolding string_eq
has_file = ne_of_== download_node.in_file "" refl

offline-fails :
    make_file offline download "http://near.example.com/cat" 0 ≡ (0, ("", some create_err))
unfolding make_file
offline-fails = refl

do_job-failed_example :
    let r = do_job offline buckets none avatar 0 in
    (r.0 ≡ 0) × (r.1.1 ≡ none) × (bits "far" r.1.0 ≡ bits "far" avatar)
unfolding make_file
do_job-failed_example =
    do_job-failed offline buckets "far" download_node (and thumb leaf) 0 create_err has_file
      (ap (λ r. r.1.1) offline-fails) (ap (λ r. r.1.0) offline-fails) ((refl, refl, tt), tt)

abbrev cat_request : Request
cat_request = record {
  key = "cat";
  from_bucket = "near";
  type = "user_avatar";
  to_bucket = "far";
  callback_url = "http://example.com/done";
}

abbrev dog_request : Request
dog_request = record cat_request { key = "dog" }

abbrev batch : BatchRequest
batch = record {
  requests = cat_request ∷ dog_request ∷ [];
  callback_url = "http://example.com/all";
}

handle_request_lem_example :
    let r = handle_request clouds buckets some cat_request 0 in
    ((r.1.1 ≡ handled)
      × ((found : Option (Map String ℕ)) × (r.1.0
            ≡ store_row "cat" found
              ∷ post_one "http://example.com/done" (record { req = cat_request; result = found })
              ∷ [])))
    ⊎ ((¬ (r.1.1 ≡ handled)) × (r.1.0 ≡ []))
handle_request_lem_example = handle_request_lem clouds buckets some cat_request cat_request 0 refl

handle_batch_request_lem_example :
    let r = handle_batch_request clouds buckets some batch 0 in
    (found : List (Option (Map String ℕ))) × (((r.1.1 ≡ handled)
        × (length found ≡ 2)
        × (r.1.0
            ≡ rows batch.requests found
              ++ (post_batch batch.callback_url
                    (of_last_request clouds buckets batch.requests found)
                  ∷ [])))
      ⊎ ((¬ (r.1.1 ≡ handled)) × (length found < 2) × (r.1.0 ≡ rows batch.requests found)))
handle_batch_request_lem_example = handle_batch_request_lem clouds buckets some batch batch 0 refl

-- A table in memory that tells all keys apart and accepts every row.
abbrev memory : Table
memory = record {
  World = Map String (Option (Map String ℕ));
  Text = Option (Map String ℕ);
  marshal = λ m. m;
  unmarshal = λ m. some m;
  insert_or_update = λ key text w. (insert key text w, true);
  select = λ key w. lookup key w;
  same = λ key other. key == other;
}

memory_laws : TableLaws memory
memory_laws = record {
  codec = λ m. refl;
  written = λ key other text w. lookup-insert other key text w;
}

handle_batch_request-find_key_query_example :
    let r = handle_batch_request clouds buckets some batch 0 in
    (found : List (Option (Map String ℕ))) × ((((r.1.1 ≡ handled)
          × (length found ≡ 2)
          × (r.1.0
              ≡ rows batch.requests found
                ++ (post_batch batch.callback_url (callbacks clouds buckets batch.requests found)
                    ∷ [])))
        ⊎ ((¬ (r.1.1 ≡ handled)) × (length found < 2) × (r.1.0 ≡ rows batch.requests found)))
      × (find_key_query memory (some "cat") (store_all memory r.1.0 [])
          ≡ result_answer memory (
              last_result clouds buckets memory "cat" batch.requests found
                (find_key memory "cat" []))))
handle_batch_request-find_key_query_example =
    handle_batch_request-find_key_query clouds buckets memory memory_laws (λ key text w. refl) some
      batch batch 0 [] "cat" refl
