-- ===== src/Recorder/Types.antt =====
-- The data of worker/recorder/main.go, and what it calls outside. Time is counted in seconds. The
-- goroutines are part of the state: the topics whose `syncFile` runs, and the uploads that wait for
-- their turn.
use bmw.Base.{Bool, List, Map, String, nat_eq, string_eq, ℕ}

pub record Recorder : Type 0 where
  pub file : String
  pub key : String
  pub bucket : String
  pub region : String
  pub update_at : ℕ

-- The arguments of one `go uploadFile(…)`.
pub record Upload : Type 0 where
  pub file : String
  pub key : String
  pub bucket : String
  pub region : String
  pub remove : Bool

pub record Stored : Type 0 where
  pub key : String
  pub bucket : String
  pub region : String
  pub text : String

pub record State : Type 0 where
  -- `recorders`
  pub recorders : Map String Recorder
  -- The temporary files and what is in them.
  pub texts : Map String String
  pub watched : List String
  pub uploads : List Upload
  pub stored : List Stored

pub record Outside : Type 0 where
  -- Whether `ioutil.TempFile` makes a file, and the name that it chooses where some names are taken.
  pub can_make : ℕ → Bool
  pub fresh : List String → ℕ → String
  -- What `File.Write` gets into the file, the whole text or the start of it.
  pub written : String → ℕ → String
  -- `client.Subscribe`; `false` is an error.
  pub subscribe : String → ℕ → Bool
  -- `uploader.Upload`; `false` is an error.
  pub upload : Stored → ℕ → Bool

-- A query: `GetQuery` of a missing name is `none`.
abbrev pub Query : Type 0
Query = Map String String

-- What a handler answers; `silent` is no answer.
pub data Reply : Type 0 where
  missing : String → Reply
  no_file : Reply
  result_ok : Reply
  silent : Reply

-- What happens to the worker, with the time. `upload` lets one of the waiting uploads run.
pub data Input : Type 0 where
  message : String → String → ℕ → Input
  start_request : Query → ℕ → Input
  end_request : Query → Input
  tick : String → ℕ → Input
  upload_turn : ℕ → ℕ → Input
