-- ===== src/Resource/Job.antt =====
-- Job trees, worker/resource/job.go lines 29 to 202: `doJob`, `getResult` and `cleanFiles`.
use bmw.Base.{
  Bool, Map, Option, String, [], bit_or, false, if◌then◌else◌, insert, lookup, nat_eq, none, not,
  some, string_eq, true, ℕ, ◌&&◌, ◌<>◌, ◌==◌, ◌||◌, ◌∷◌,
}
use bmw.Resource.Bucket.{get_bucket_pool, new_bucket, upload}
use bmw.Resource.Generate.{make_file}
use bmw.Resource.Types.{
  Buckets, Cloud, Error, JobNode, JobTree, JobTrees, NewKey, and, leaf, msg_blur_key, msg_cover_key,
  msg_webp_key, still_processing, tree, upload_err, user_avatar_thumb_key,
}

-- `originKey` to the new key.
unfoldable pub get_key : NewKey → String → String
get_key msg_cover_key key = "moment/cover/" <> key
get_key msg_blur_key key = ("moment/cover/" <> key) <> "_blur"
get_key msg_webp_key key = ("moment/cover/" <> key) <> "_webp"
get_key user_avatar_thumb_key key = ("moment/cover/" <> key) <> "_thumb"

unfoldable pub new_key : JobNode → String
unfolding get_key
new_key n = elim n.get_new_key [ none ↦ n.origin_key | some f ↦ get_key f n.origin_key ]

module _ (c : Cloud) (b : Buckets) where
  open c use {World, remove}

  -- What one goroutine of `doJob` does for one bucket: whether the bucket is marked, and whether an
  -- error is sent to `errChan`.
  unfoldable pub upload_to : JobNode → String → String → World → World × (Bool × Bool)
  unfolding new_key upload get_bucket_pool new_bucket
  upload_to n file dest w = elim (get_bucket_pool b dest) [
    | none ↦ (w, (false, false))
    | some provider ↦ elim (new_bucket b dest) [
      | none ↦ (w, (false, false))
      | some domain ↦
          let (w', failed) = upload c provider dest (new_key n) file w in (w', (not failed, failed))
    ]
  ]

  -- The goroutines of the buckets that are not marked, and `gWait.Wait`: the map that they leave,
  -- and whether there is an error in `errChan`. Each goroutine writes the key of its own bucket.
  unfoldable pub upload_all :
      JobNode → String → Map String Bool → World → World × (Map String Bool × Bool)
  unfolding upload_to
  upload_all n file [] w = (w, ([], false))
  upload_all n file ((dest, true) ∷ rest) w =
      let (w', (m, failed)) = upload_all n file rest w in (w', ((dest, true) ∷ m, failed))
  upload_all n file ((dest, false) ∷ rest) w =
      let (w₁, (marked, err)) = upload_to n file dest w in
      let (w₂, (m, failed)) = upload_all n file rest w₁ in (w₂, ((dest, marked) ∷ m, err || failed))

  abbrev is_ok : Option Error → Bool
  is_ok none = true
  is_ok (some e) = false

  -- The part of `doJob` under `len(n.inFile) > 0`. The flag `busy` says that `genFileErr` is set
  -- already; the last component says that `uploadErr` is returned.
  unfoldable pub create_and_upload : Bool → JobNode → World → World × (JobNode × Bool)
  unfolding make_file upload_all
  create_and_upload busy n w =
      let (w₁, (file, err)) = make_file c n.create_file n.in_file w in
      let n₁ = record n { out_file = file } in
      if busy || not (is_ok err)
      then (w₁, (n₁, false))
      else let (w₂, (m, failed)) = upload_all n₁ file n.result_map w₁ in
        (w₂, (record n₁ { result_map = m }, failed))

  -- `inFile`, or the parent's `outFile` where it is empty.
  unfoldable pub take_in_file : Option String → JobNode → JobNode
  take_in_file none n = n
  take_in_file (some out) n =
      if n.in_file == "" && not (out == "") then record n { in_file = out } else n

  -- `doJob` up to the children.
  unfoldable pub do_node : Option String → JobNode → World → World × (JobNode × Bool)
  unfolding create_and_upload take_in_file
  do_node parent_out n w =
      let n₁ = take_in_file parent_out (record n { is_processing = true }) in
      let (w', (n₂, failed)) =
        (if n₁.in_file == "" then (w, (n₁, false)) else create_and_upload n.is_processing n₁ w) in
      (w', (if failed then n₂ else record n₂ { is_done = true; is_processing = false }, failed))

  -- `doJob` after its own node: `uploadErr` before the children are tried, or what they answer.
  unfoldable pub after_node :
      World × (JobNode × Bool)
      → JobTrees
      → World × (JobTrees × Option Error)
      → World × (JobTree × Option Error)
  after_node (w, (n, true)) children below = (w, (tree n children, some upload_err))
  after_node (w, (n, false)) children (w', (children', err)) = (w', (tree n children', err))

  -- The loop over the children, after the first: its error, or what the others answer.
  unfoldable pub after_child :
      World × (JobTree × Option Error)
      → JobTrees
      → World × (JobTrees × Option Error)
      → World × (JobTrees × Option Error)
  after_child (w, (t, some e)) rest later = (w, (and t rest, some e))
  after_child (w, (t, none)) rest (w', (rest', err)) = (w', (and t rest', err))

  unfoldable mutual
    pub do_job : Option String → JobTree → World → World × (JobTree × Option Error)
    do_job parent_out (tree n children) w =
        let own = do_node parent_out n w in
        let below = do_jobs (some own.1.0.out_file) children own.0 in after_node own children below

    pub do_jobs : Option String → JobTrees → World → World × (JobTrees × Option Error)
    do_jobs parent_out leaf w = (w, (leaf, none))
    do_jobs parent_out (and t rest) w =
        let first = do_job parent_out t w in
        let later = do_jobs parent_out rest first.0 in after_child first rest later

  -- The files that `cleanFiles` removes, children first; a node that is not done keeps its file.
  unfoldable mutual
    pub clean_files : JobTree → World → World
    clean_files (tree n children) w =
        let w' = clean_all children w in if n.is_done then remove n.out_file w' else w'

    pub clean_all : JobTrees → World → World
    clean_all leaf w = w
    clean_all (and t rest) w = clean_all rest (clean_files t w)

-- One key of the loop of `getResult`.
unfoldable pub mark_result : ℕ → String → Map String ℕ → Map String ℕ
mark_result bit key found =
    insert key (elim (lookup key found) [ some old ↦ bit_or old bit | none ↦ bit ]) found

-- The loop over one node's `resultMap`.
unfoldable pub mark_results : ℕ → Map String Bool → Map String ℕ → Map String ℕ
unfolding mark_result
mark_results bit [] found = found
mark_results bit ((key, false) ∷ rest) found = mark_results bit rest found
mark_results bit ((key, true) ∷ rest) found = mark_results bit rest (mark_result bit key found)

-- The result map is written as far as the walk gets.
unfoldable mutual
  unfolding mark_results

  pub get_result : JobTree → Map String ℕ → Map String ℕ × Option Error
  get_result (tree n children) result =
      let rest = get_results children (mark_results n.bit_position n.result_map result) in
      if n.is_processing then (result, some still_processing) else rest

  pub get_results : JobTrees → Map String ℕ → Map String ℕ × Option Error
  get_results leaf result = (result, none)
  get_results (and t rest) result =
      let (result', err) = get_result t result in
      let later = get_results rest result' in elim err [ some e ↦ (result', some e) | none ↦ later ]
