-- ===== src/Rsync/Handler.antt =====
-- `Handle` of worker/rsync/main.go, with `checkObjS3` and `uploadToS3` of worker/rsync/s3.go. The
-- JSON decoder is an argument; the encoder does not fail on a body of strings and numbers.
use bmw.Base.{
  Bool, List, Option, String, [], false, if◌then◌else◌, nat_eq, none, some, string_eq, ℕ, ◌++◌,
  ◌==◌, ◌∷◌,
}
use bmw.Rsync.Types.{Body, Download, Outside, Resource, ResponseBody}

module _ (o : Outside) where
  open o use {World, head_object, fetch, file_size, can_open, put, post}

  -- `checkObjS3`, where `none` is -1.
  unfoldable pub check_obj_s3 : Resource → World → Option ℕ
  check_obj_s3 r w = head_object r.key r.bucket r.region w

  -- `uploadToS3`; `false` is an error. The check at its end has no effect.
  unfoldable pub upload_to_s3 : String → String → Resource → World → World × Bool
  upload_to_s3 file type r w =
      if can_open file w then put file r.key r.bucket r.region type w else (w, false)

  -- What becomes of one resource: a panic where the file cannot be read back, or its status.
  pub data Synced : Type 0 where
    panics : Synced
    status_of : ℕ → Synced

  -- The status once a file is uploaded.
  unfoldable pub after_upload : World × Bool → World × Synced
  after_upload (w, sent) = (w, status_of (if sent then 1 else 0))

  -- `fInfo.Size() == fLength`.
  abbrev pub is_size : ℕ → Option ℕ → Bool
  is_size n none = false
  is_size n (some size) = n == size

  -- What follows a download.
  unfoldable pub store_download : Resource → Download → World → World × Synced
  unfolding after_upload upload_to_s3
  store_download r d w = elim (file_size d.name w) [
    | none ↦ (w, panics)
    | some n ↦
        if is_size n d.size then after_upload (upload_to_s3 d.name d.type r w) else (w, status_of 0)
  ]

  -- The file that a download leaves to be removed, and the status.
  unfoldable pub after_fetch : Resource → World × Option Download → World × (List String × Synced)
  unfolding store_download
  after_fetch r (w, none) = (w, ([], status_of 0))
  after_fetch r (w, some d) = let (w', synced) = store_download r d w in (w', (d.name ∷ [], synced))

  -- One round of the loop.
  unfoldable pub sync_one : Resource → World → World × (List String × Synced)
  unfolding check_obj_s3 after_fetch
  sync_one r w = elim (check_obj_s3 r w) [
    | some length_there ↦ (w, ([], status_of 1))
    | none ↦ after_fetch r (fetch r.url w)
  ]

  -- The loop: the files to remove, the last one first, and the resources, or `none` for a panic.
  unfoldable pub sync_all :
      List Resource
      → List String
      → List Resource
      → World
      → World × (List String × Option (List Resource))
  unfolding sync_one
  sync_all [] files result w = (w, (files, some result))
  sync_all (r ∷ rest) files result w =
      let (w', (new, synced)) = sync_one r w in
      elim synced [
        | panics ↦ (w', (new ++ files, none))
        | status_of n ↦ sync_all rest (new ++ files) (result ++ record r { status = n } ∷ []) w'
      ]

  -- The deferred calls of `os.Remove`, the last one first.
  unfoldable pub remove_all : List String → World → World
  remove_all [] w = w
  remove_all (file ∷ files) w = remove_all files (o.remove file w)

  -- How `Handle` ends: nil, an error, or a panic.
  pub data Ending : Type 0 where
    handled fails crashes : Ending

  -- The callback, if the loop is done: what was posted, and the end.
  unfoldable pub call_back :
      String → String → Option (List Resource) → World → World × (Option Body × Ending)
  call_back id callback none w = (w, (none, crashes))
  call_back id callback (some result) w =
      let body : Body = record { id = id; resources = result } in
      let (w', sent) = post callback body w in (w', (some body, if sent then handled else fails))

  -- `Handle` of a job with this identifier and payload.
  unfoldable pub handle {ℓ} :
      {Bytes : Type ℓ}
      → (Bytes → Option ResponseBody)
      → String
      → Bytes
      → World
      → World × (Option Body × Ending)
  unfolding sync_all remove_all call_back
  handle unmarshal id payload w = elim (unmarshal payload) [
    | none ↦ (w, (none, fails))
    | some res ↦
        let (w₁, (files, result)) = sync_all res.resources [] [] w in
        let (w₂, ending) = call_back id res.callback result w₁ in (remove_all files w₂, ending)
  ]
