-- ===== src/Resource/Tree.antt =====
-- The job trees of the request types, worker/resource/job.go lines 11 to 25 and 206 to 365, and
-- `makeJobs` of worker/resource/request.go. A nil `*jobNode` is `none`.
use bmw.Base.{
  Bool, List, Map, Option, String, [], false, if◌then◌else◌, insert, nat_eq, none, some, string_eq,
  true, ℕ, ◌==◌, ◌||◌, ◌∷◌,
}
use bmw.Resource.Bucket.{get_bucket_pool, get_url, new_bucket}
use bmw.Resource.Types.{
  Buckets, CreateFile, JobNode, JobTree, JobTrees, NewKey, Request, and, blur_image, download, leaf,
  msg_blur_key, msg_cover_key, msg_webp_key, thumbnail_image, tree, user_avatar_thumb_key,
  video_to_cover, video_to_webp,
}

abbrev pub msg_cover_success : ℕ
msg_cover_success = 1

abbrev pub msg_blur_success : ℕ
msg_blur_success = 2

abbrev pub msg_webp_success : ℕ
msg_webp_success = 4

abbrev pub msg_url_success : ℕ
msg_url_success = 8

abbrev pub msg_c_success : ℕ
msg_c_success = 16

abbrev pub user_avatar_success : ℕ
user_avatar_success = 1

abbrev pub user_avatar_thumb_success : ℕ
user_avatar_thumb_success = 2

abbrev pub user_cover_success : ℕ
user_cover_success = 4

unmarked : List String → Map String Bool → Map String Bool
unmarked [] m = m
unmarked (dest ∷ dests) m = unmarked dests (insert dest false m)

-- `newBaseJobNode`, with the `createFile` and `getNewKey` that its callers set.
unfoldable pub new_base_job_node :
    String → String → ℕ → List String → CreateFile → Option NewKey → JobNode
unfolding unmarked
new_base_job_node name origin_key bit_position dest_buckets create_file get_new_key = record {
  bit_position = bit_position;
  name = name;
  origin_key = origin_key;
  in_file = "";
  out_file = "";
  is_done = false;
  is_processing = false;
  result_map = unmarked dest_buckets [];
  create_file = create_file;
  get_new_key = get_new_key;
}

unfoldable pub get_both_buckets : Request → List String
get_both_buckets req = req.from_bucket ∷ req.to_bucket ∷ []

-- The `switch` of `makeDownloadJob`; another type leaves the zero.
unfoldable pub download_bit : String → ℕ
download_bit type =
    if type == "msg_video" || type == "msg_image" || type == "msg_url_only"
    then msg_url_success
    else if type == "msg_c"
    then msg_c_success
    else if type == "user_avatar"
    then user_avatar_success
    else if type == "user_cover"
    then user_cover_success
    else 0

unfoldable pub make_download_job : Buckets → Request → Option JobNode
unfolding get_bucket_pool new_bucket get_url new_base_job_node download_bit
make_download_job b req = elim (get_bucket_pool b req.from_bucket) [
  | none ↦ none
  | some provider ↦ elim (new_bucket b req.from_bucket) [
    | none ↦ none
    | some domain ↦
        let job =
          new_base_job_node req.type req.key (download_bit req.type) (req.to_bucket ∷ []) download
            none in
        some (record job {
          in_file = get_url domain req.key;
          result_map = insert req.from_bucket true job.result_map;
        })
  ]
]

-- The jobs below the download: a bit, a `createFile` and a key each.
unfoldable pub derived_job : Request → ℕ → CreateFile → NewKey → JobNode
unfolding new_base_job_node get_both_buckets
derived_job req bit create_file get_new_key =
    new_base_job_node req.type req.key bit (get_both_buckets req) create_file (some get_new_key)

unfoldable pub make_user_avatar_thumb_job : Request → JobNode
unfolding derived_job
make_user_avatar_thumb_job req =
    derived_job req user_avatar_thumb_success thumbnail_image user_avatar_thumb_key

unfoldable pub make_msg_image_cover : Request → JobNode
unfolding derived_job
make_msg_image_cover req = derived_job req msg_cover_success thumbnail_image msg_cover_key

unfoldable pub make_msg_video_cover : Request → JobNode
unfolding derived_job
make_msg_video_cover req = derived_job req msg_cover_success video_to_cover msg_cover_key

unfoldable pub make_msg_image_blur : Request → JobNode
unfolding derived_job
make_msg_image_blur req = derived_job req msg_blur_success blur_image msg_blur_key

unfoldable pub make_msg_video_webp : Request → JobNode
unfolding derived_job
make_msg_video_webp req = derived_job req msg_webp_success video_to_webp msg_webp_key

-- What a function that makes a tree does: it may return nil, or write a field of a nil node.
pub data MadeTree : Type 0 where
  nil_tree nil_deref : MadeTree
  made_tree : JobTree → MadeTree

-- `root.appendChildren(…)` and `return root`.
unfoldable pub append_children : Option JobNode → JobTrees → MadeTree
append_children none children = nil_deref
append_children (some root) children = made_tree (tree root children)

unfoldable pub make_msg_video_job_tree : Buckets → Request → MadeTree
unfolding make_download_job append_children make_msg_video_cover make_msg_image_blur
    make_msg_video_webp
make_msg_video_job_tree b req = append_children (make_download_job b req) (
    and (tree (make_msg_video_cover req) (and (tree (make_msg_image_blur req) leaf) leaf))
      (and (tree (make_msg_video_webp req) leaf) leaf))

unfoldable pub make_msg_image_job_tree : Buckets → Request → MadeTree
unfolding make_download_job append_children make_msg_image_cover make_msg_image_blur
make_msg_image_job_tree b req =
    append_children (make_download_job b req)
      (and (tree (make_msg_image_cover req) (and (tree (make_msg_image_blur req) leaf) leaf)) leaf)

unfoldable pub make_user_avatar_job_tree : Buckets → Request → MadeTree
unfolding make_download_job append_children make_user_avatar_thumb_job
make_user_avatar_job_tree b req =
    append_children (make_download_job b req)
      (and (tree (make_user_avatar_thumb_job req) leaf) leaf)

-- `makeMsgCJobTree`, `makeMsgURLOnlyJobTree` and `makeUserCoverJobTree`.
unfoldable pub make_single_job_tree : Buckets → Request → MadeTree
unfolding make_download_job
make_single_job_tree b req = elim (make_download_job b req) [
  | none ↦ nil_tree
  | some root ↦ made_tree (tree root leaf)
]

-- `makeJobs`; `none` is its error.
unfoldable pub make_jobs : Buckets → Request → Option MadeTree
unfolding make_msg_video_job_tree make_msg_image_job_tree make_user_avatar_job_tree
    make_single_job_tree
make_jobs b req =
    if req.type == "msg_video"
    then some (make_msg_video_job_tree b req)
    else if req.type == "msg_image"
    then some (make_msg_image_job_tree b req)
    else if req.type == "msg_url_only"
    then some (make_single_job_tree b req)
    else if req.type == "msg_c"
    then some (make_single_job_tree b req)
    else if req.type == "user_avatar"
    then some (make_user_avatar_job_tree b req)
    else if req.type == "user_cover"
    then some (make_single_job_tree b req)
    else none
