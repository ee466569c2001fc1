-- ===== src/Resource/Types.antt =====
-- The data of worker/resource: requests, job nodes and errors, and what the worker takes from
-- outside: the cloud storage, the file system, the external commands and the download.
use bmw.Base.{Bool, List, Map, Option, String, nat_eq, string_eq, ℕ}

-- What the worker calls. A `World` is the state of all that, passed from call to call.
pub record Cloud : Type 1 where
  pub World : Type 0
  -- The size that `Stat` or `HeadObject` answers; `none` is an error.
  pub stat : String → String → World → Option ℕ
  -- `PutFile`, or `Uploader.Upload`, of a file to a bucket under a key; `false` is an error.
  pub put : String → String → String → World → World × Bool
  -- `os.Open`.
  pub can_open : String → World → Bool
  -- `ioutil.TempFile` and its `Close`.
  pub temp_file : String → World → World × Option String
  -- `exec.Command`, started and waited for; `false` is an error.
  pub run : List String → World → World × Bool
  -- `os.Stat`.
  pub file_size : String → World → Option ℕ
  pub remove : String → World → World
  -- `lib.HTTPGetFile`.
  pub fetch : String → World → World × Option String

pub data Provider : Type 0 where
  qiniu s3 : Provider

-- `bucketPool` and `bucketDomainMap`.
pub record Buckets : Type 0 where
  pub pool : Map String Provider
  pub domains : Map String String

pub data Error : Type 0 where
  upload_err create_err still_processing no_job_tree bad_json : Error
  no_such_type no_such_bucket : String → Error

-- The functions that a job node may hold in `createFile`.
pub data CreateFile : Type 0 where
  download thumbnail_image video_to_cover blur_image video_to_webp : CreateFile

-- The functions that a job node may hold in `getNewKey`; nil is `none` of an option.
pub data NewKey : Type 0 where
  msg_cover_key msg_blur_key msg_webp_key user_avatar_thumb_key : NewKey

pub record JobNode : Type 0 where
  pub bit_position : ℕ
  pub name : String
  pub origin_key : String
  pub in_file : String
  pub out_file : String
  pub is_done : Bool
  pub is_processing : Bool
  pub result_map : Map String Bool
  pub create_file : CreateFile
  pub get_new_key : Option NewKey

-- A node with its children. The field `parent` is the place in the tree.
mutual
  pub data JobTree : Type 0 where
    tree : JobNode → JobTrees → JobTree

  pub data JobTrees : Type 0 where
    leaf : JobTrees
    and : JobTree → JobTrees → JobTrees

pub record Request : Type 0 where
  pub key : String
  pub from_bucket : String
  pub type : String
  pub to_bucket : String
  pub callback_url : String

pub record BatchRequest : Type 0 where
  pub requests : List Request
  pub callback_url : String

pub record CallbackBody : Type 0 where
  pub req : Request
  pub result : Option (Map String ℕ)
