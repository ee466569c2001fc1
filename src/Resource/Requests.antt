-- ===== src/Resource/Requests.antt =====
-- The handlers of the queue, worker/resource/request.go. The JSON decoders are arguments. What a
-- handler stores and posts is a list of effects, the earliest first.
use bmw.Base.{
  Bool, List, Map, Option, String, [], false, if◌then◌else◌, map, nat_eq, none, some, string_eq,
  true, ℕ, ◌++◌, ◌∷◌,
}
use bmw.Resource.Job.{do_job, get_result}
use bmw.Resource.Tree.{MadeTree, made_tree, make_jobs, nil_deref, nil_tree}
use bmw.Resource.Types.{
  BatchRequest, Buckets, CallbackBody, Cloud, Error, Request, bad_json, no_job_tree, no_such_type,
  upload_err,
}

pub data Effect : Type 0 where
  -- `store`: a row of the table; a nil map is `none`.
  store_row : String → Option (Map String ℕ) → Effect
  post_one : String → CallbackBody → Effect
  post_batch : String → List CallbackBody → Effect

-- How a handler ends.
pub data Outcome : Type 0 where
  handled retry panics : Outcome
  fails : Error → Outcome

module _ (c : Cloud) (b : Buckets) where
  open c use {World}

  -- `doJobs`: a nil result is `none`.
  unfoldable pub do_jobs_of : MadeTree → World → World × (Option (Map String ℕ) × Option Error)
  do_jobs_of nil_tree w = (w, (none, some no_job_tree))
  do_jobs_of nil_deref w = (w, (none, some no_job_tree))
  do_jobs_of (made_tree t) w =
      let (w', (t', err)) = do_job c b none t w in
      let (found, err') = get_result t' [] in
      elim err [
        | some e ↦ (w', (none, some e))
        | none ↦ elim err' [ some e ↦ (w', (none, some e)) | none ↦ (w', (some found, none)) ]
      ]

  abbrev pub is_upload_err : Option Error → Bool
  is_upload_err (some upload_err) = true
  is_upload_err _ = false

  -- Both handlers on one request, up to its row: the result to call back with, or an end.
  pub data Processed : Type 0 where
    ended : Outcome → Processed
    row : Option (Map String ℕ) → Processed

  unfoldable pub finish : MadeTree → World → World × Processed
  unfolding do_jobs_of
  finish made w =
      let (w', (found, err)) = do_jobs_of made w in
      (w', if is_upload_err err then ended retry else row found)

  unfoldable pub process_made : MadeTree → World → World × Processed
  unfolding finish
  process_made nil_deref w = (w, ended panics)
  process_made nil_tree w = finish nil_tree w
  process_made (made_tree t) w = finish (made_tree t) w

  unfoldable pub process : Request → World → World × Processed
  unfolding process_made
  process req w = elim (make_jobs b req) [
    | none ↦ (w, ended (fails (no_such_type req.type)))
    | some made ↦ process_made made w
  ]

  module _ {ℓ} {Bytes : Type ℓ} where
    -- `handleRequest`.
    unfoldable pub handle_request :
        (Bytes → Option Request) → Bytes → World → World × (List Effect × Outcome)
    handle_request unmarshal payload w = elim (unmarshal payload) [
      | none ↦ (w, ([], fails bad_json))
      | some req ↦
          let (w', p) = process req w in
          elim p [
            | ended o ↦ (w', ([], o))
            | row found ↦ (
              w',
              (
                store_row req.key found
                    ∷ post_one req.callback_url (record { req = req; result = found })
                    ∷ [],
                handled,
              ),
            )
          ]
    ]

  -- The loop of `handleBatchRequest`: the results so far, the last request that the loop variable
  -- `item` held, and the rows stored. The callbacks all point to `item`.
  unfoldable pub batch_loop :
      List Request
      → List (Option (Map String ℕ))
      → List Effect
      → World
      → World × (List (Option (Map String ℕ)) × (List Effect × Outcome))
  batch_loop [] results effects w = (w, (results, (effects, handled)))
  batch_loop (item ∷ items) results effects w =
      let (w', p) = process item w in
      elim p [
        | ended o ↦ (w', (results, (effects, o)))
        | row found ↦
            batch_loop items (results ++ found ∷ []) (effects ++ store_row item.key found ∷ []) w'
      ]

  -- The request that `item` holds after the loop.
  unfoldable pub last_item : Request → List Request → Request
  last_item item [] = item
  last_item item (next ∷ rest) = last_item next rest

  -- `CallbackBody{&item, result}` for each result, read after the loop.
  unfoldable pub callbacks : List Request → List (Option (Map String ℕ)) → List CallbackBody
  unfolding last_item
  callbacks [] results = []
  callbacks (item ∷ items) results =
      map (λ r. record { req = last_item item items; result = r }) results

  -- `handleBatchRequest` after its loop: the error that ended it, or the callback.
  unfoldable pub end_batch :
      BatchRequest
      → World × (List (Option (Map String ℕ)) × (List Effect × Outcome))
      → World × (List Effect × Outcome)
  end_batch req (w, (results, (effects, handled))) =
      (w, (effects ++ post_batch req.callback_url (callbacks req.requests results) ∷ [], handled))
  end_batch req (w, (results, (effects, retry))) = (w, (effects, retry))
  end_batch req (w, (results, (effects, panics))) = (w, (effects, panics))
  end_batch req (w, (results, (effects, fails e))) = (w, (effects, fails e))

  module _ {ℓ} {Bytes : Type ℓ} where
    -- `handleBatchRequest`.
    unfoldable pub handle_batch_request :
        (Bytes → Option BatchRequest) → Bytes → World → World × (List Effect × Outcome)
    handle_batch_request unmarshal payload w = elim (unmarshal payload) [
      | none ↦ (w, ([], fails bad_json))
      | some req ↦ end_batch req (batch_loop req.requests [] [] w)
    ]
