-- ===== src/Cover/Types.antt =====
-- The data of worker/cover/main.go and what the worker calls outside, and its elementary calls. The
-- state of a call is the world outside and a trace of what the worker did, the earliest first.
use bmw.Base.{
  Bool, Exec, List, Map, Option, Result, String, [], fails, false, if◌then◌else◌, nat_eq, none, not,
  ok, some, string_eq, ℕ, ◌++◌, ◌==◌, ◌∷◌,
}

pub record Body : Type 0 where
  pub id : String
  pub type : String
  pub result : Map String String

-- What the worker does: a temporary file made, a file removed, a file uploaded under a key, and a call of
-- `HTTPPost` with the callback.
pub data Event : Type 0 where
  made removed uploaded : String → Event
  posted : String → Body → Event

pub record Outside : Type 1 where
  pub World : Type 0
  -- `ioutil.TempFile`: the name, or an error.
  pub temp_file : String → World → World × Option String
  -- `exec.Command` with `Start` and `Wait`; `false` is an error of either.
  pub run : List String → World → World × Bool
  -- `os.Stat`: the size, or an error.
  pub file_size : String → World → Option ℕ
  pub remove : String → World → World
  -- `os.Open`.
  pub can_open : String → World → Bool
  -- `downloader.Download` into a file, of a key, a bucket and a region; `false` is an error.
  pub download : String → String → String → String → World → World × Bool
  -- `uploader.Upload` of a file to a key, a bucket and a region; `false` is an error.
  pub upload : String → String → String → String → World → World × Bool
  -- `lib.HTTPPost`; `false` is an error.
  pub post : String → Body → World → World × Bool

module _ (o : Outside) where
  pub record State : Type 0 where
    pub world : o.World
    pub trace : List Event

  -- An error that `Handle` returns; which one it is makes no difference.
  pub data Error : Type 0 where
    failed : Error

  abbrev pub Run : Type 0 → Type 0
  Run A = Exec State Error A

  -- A call outside that may fail, and what it adds to the trace where it does not.
  unfoldable pub call : (o.World → o.World × Bool) → Event → Run (Unit {0})
  call f event s =
      let (w, done) = f s.world in
      if done
      then (record s { world = w; trace = s.trace ++ event ∷ [] }, ok tt)
      else (record s { world = w }, fails failed)

  -- `HTTPPost`, which may have sent its request also where it returns an error; it is noted in any case.
  unfoldable pub post_to : String → Body → Run (Unit {0})
  post_to url body s =
      let (w, done) = o.post url body s.world in
      (
        record s { world = w; trace = s.trace ++ posted url body ∷ [] },
        if done then ok tt else fails failed,
      )

  unfoldable pub made_file : o.World × Option String → State → State × Result Error String
  made_file (w, none) s = (record s { world = w }, fails failed)
  made_file (w, some name) s = (record s { world = w; trace = s.trace ++ made name ∷ [] }, ok name)

  unfoldable pub make_temp : String → Run String
  unfolding made_file
  make_temp prefix s = made_file (o.temp_file prefix s.world) s

  -- A command with its arguments.
  unfoldable pub exec : List String → Run (Unit {0})
  exec args s =
      let (w, done) = o.run args s.world in
      (record s { world = w }, if done then ok tt else fails failed)

  unfoldable pub remove_file : String → Run (Unit {0})
  remove_file name s =
      (record s { world = o.remove name s.world; trace = s.trace ++ removed name ∷ [] }, ok tt)

  -- `os.Open`, whose error is returned.
  unfoldable pub open_file : String → Run (Unit {0})
  open_file name s = (s, if o.can_open name s.world then ok tt else fails failed)

  -- `os.Stat` of a file, whose error is returned.
  unfoldable pub size_of : String → Run ℕ
  size_of name s = (s, elim (o.file_size name s.world) [ none ↦ fails failed | some n ↦ ok n ])

  -- Whether a file is there and is not empty.
  unfoldable pub is_made : String → Run Bool
  is_made name s =
      (s, ok (elim (o.file_size name s.world) [ none ↦ false | some n ↦ not (n == 0) ]))

  -- `defer os.Remove(name)` in front of the rest of a function, however that ends.
  unfoldable pub deferred : {A : Type 0} → String → Run A → Run A
  unfolding remove_file
  deferred name m s = let (s', r) = m s in ((remove_file name s').0, r)
