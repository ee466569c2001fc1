-- ===== src/Rsync/Types.antt =====
-- The data of worker/rsync/main.go, and what the worker calls outside.
use bmw.Base.{Bool, List, Option, String, nat_eq, string_eq, ℕ}

pub record Resource : Type 0 where
  pub url : String
  pub key : String
  pub bucket : String
  pub region : String
  pub field : String
  pub status : ℕ

pub record ResponseBody : Type 0 where
  pub callback : String
  pub resources : List Resource

pub record Body : Type 0 where
  pub id : String
  pub resources : List Resource

-- A downloaded file: its name, its type and the length of the answer's header, 0 where there is none;
-- a negative one is `none`.
pub record Download : Type 0 where
  pub name : String
  pub type : String
  pub size : Option ℕ

-- The storage service, the web and the files; a `World` is the state of all that.
pub record Outside : Type 1 where
  pub World : Type 0
  -- `HeadObject` of a key in a bucket of a region: the length, or an error.
  pub head_object : String → String → String → World → Option ℕ
  -- `lib.HTTPGetFile`.
  pub fetch : String → World → World × Option Download
  -- `os.Stat`.
  pub file_size : String → World → Option ℕ
  -- `os.Open`.
  pub can_open : String → World → Bool
  -- `uploader.Upload` of a file to a key, a bucket and a region, with its type; `false` is an error.
  pub put : String → String → String → String → String → World → World × Bool
  pub remove : String → World → World
  -- `lib.HTTPPost`; `false` is an error.
  pub post : String → Body → World → World × Bool
