-- ===== src/Resource/Callbacks.antt =====
-- What the two queue handlers store and post, by how they end.
use mathlib.Core.List.{append_assoc, append-nil}
use bmw.Base.{
  Bool-cases, List, Map, Option, Option-cases, String, [], ap, arith, get_elem?, inl, inr, length,
  map, nat_eq, none, refl, some, string_eq, suc, sym, ℕ, ◌++◌, ◌-◌, ◌<◌, ◌∙◌, ◌∷◌, ◌≡◌, ◌⊎◌,
}
use bmw.Resource.Requests.{
  Effect, Outcome, Processed, batch_loop, callbacks, do_jobs_of, end_batch, ended, fails, finish,
  handle_batch_request, handle_request, handled, is_upload_err, last_item, panics, post_batch,
  post_one, process, process_made, retry, row, store_row,
}
use bmw.Resource.Tree.{MadeTree, made_tree, make_jobs, nil_deref, nil_tree}
use bmw.Resource.Types.{BatchRequest, Buckets, CallbackBody, Cloud, Request}

-- The rows of the requests that were processed, in order, each under its own key.
unfoldable pub rows : List Request → List (Option (Map String ℕ)) → List Effect
rows (item ∷ items) (found ∷ rest) = store_row item.key found ∷ rows items rest
rows items rest = []

module _ (c : Cloud) (b : Buckets) where
  open c use {World}

  -- How the loop ends: on every item or before one.
  abbrev Loop :
      List Request
      → List (Option (Map String ℕ))
      → List Effect
      → World × (List (Option (Map String ℕ)) × (List Effect × Outcome))
      → Type 0
  Loop items results effects (w', (results', (effects', o))) =
      (found : List (Option (Map String ℕ))) × ((results' ≡ results ++ found)
        × (effects' ≡ effects ++ rows items found)
        × (((o ≡ handled) × (length found ≡ length items))
            ⊎ ((¬ (o ≡ handled)) × (length found < length items))))

  -- Whether a request is left for a retry, or a result comes of it.
  abbrev Ends : Processed c b → Type 0
  Ends (ended o) = ¬ (o ≡ handled)
  Ends (row found) = Unit

  process_made-Ends : (made : MadeTree) (w : World) → Ends (process_made c b made w).1
  unfolding process_made finish
  process_made-Ends nil_deref w = λ e. cc
  process_made-Ends nil_tree w = tt
  process_made-Ends (made_tree t) w =
      elim (Bool-cases (is_upload_err c b (do_jobs_of c b (made_tree t) w).1.1)) [
        | inl e ↦ rw (e) (λ p. cc)
        | inr e ↦ rw (e) tt
      ]

  process-Ends : (req : Request) (w : World) → Ends (process c b req w).1
  unfolding process
  process-Ends req w = elim (Option-cases (make_jobs b req)) [
    | inl e ↦ rw (e, process) (λ p. cc)
    | inr (made, e) ↦ rw (e, process) (process_made-Ends made w)
  ]

  Processed-cases :
      (p : Processed c b)
      → Ends p
      → ((o : Outcome) × ((p ≡ ended o) × (¬ (o ≡ handled))))
        ⊎ ((found : Option (Map String ℕ)) × (p ≡ row found))
  Processed-cases (ended o) h = inl (o, (refl, h))
  Processed-cases (row found) h = inr (found, refl)

  -- One more request, and its result in front of those of the others.
  Loop-cons :
      (item : Request) (items : List Request) (r : Option (Map String ℕ))
      (results : List (Option (Map String ℕ))) (effects : List Effect)
      (end : World × (List (Option (Map String ℕ)) × (List Effect × Outcome)))
      → Loop items (results ++ r ∷ []) (effects ++ store_row item.key r ∷ []) end
      → Loop (item ∷ items) results effects end
  unfolding rows
  Loop-cons item items r results effects (w', (results', (effects', o))) (found, (h, e, how)) = (
    r ∷ found,
    (
      h ∙ append_assoc results (r ∷ []) found,
      e ∙ append_assoc effects (store_row item.key r ∷ []) (rows items found),
      elim how [
        | inl (done, same) ↦ inl (done, ap suc same)
        | inr (done, less) ↦ inr (done, omega arith)
      ],
    ),
  )

  batch_loop-lem :
      (items : List Request) (results : List (Option (Map String ℕ))) (effects : List Effect)
      (w : World)
      → Loop items results effects (batch_loop c b items results effects w)
  unfolding batch_loop rows
  batch_loop-lem [] results effects w =
      ([], (sym (append-nil results), sym (append-nil effects), inl (refl, refl)))
  batch_loop-lem (item ∷ items) results effects w =
      elim (Processed-cases (process c b item w).1 (process-Ends item w)) [
        | inl (o, (e, ne)) ↦
            rw (e, batch_loop)
              ([], (sym (append-nil results), sym (append-nil effects), inr (ne, omega arith)))
        | inr (found, e) ↦
            rw (e, batch_loop)
              (Loop-cons item items found results effects
                (batch_loop c b items (results ++ found ∷ [])
                  (effects ++ store_row item.key found ∷ []) (process c b item w).0)
                (batch_loop-lem items (results ++ found ∷ [])
                  (effects ++ store_row item.key found ∷ []) (process c b item w).0))
      ]

  -- What `end_batch` makes of the end of the loop.
  end_batch-lem :
      (req : BatchRequest) (end : World × (List (Option (Map String ℕ)) × (List Effect × Outcome)))
      → Loop req.requests [] [] end
      → let r = end_batch c b req end in
        (found : List (Option (Map String ℕ))) × (((r.1.1 ≡ handled)
            × (length found ≡ length req.requests)
            × (r.1.0
                ≡ rows req.requests found
                  ++ (post_batch req.callback_url (callbacks c b req.requests found) ∷ [])))
          ⊎ ((¬ (r.1.1 ≡ handled))
              × (length found < length req.requests)
              × (r.1.0 ≡ rows req.requests found)))
  unfolding end_batch
  end_batch-lem req (w, (results, (effects, handled))) (found, (same, stored, inl (done, all))) =
      (found, inl (refl, all, ground (arith, same, stored)))
  end_batch-lem req (w, (results, (effects, handled))) (found, (same, stored, inr (ne, less))) =
      absurd (ne refl)
  end_batch-lem req (w, (results, (effects, retry))) (found, (same, stored, inl (done, all))) = cc
  end_batch-lem req (w, (results, (effects, retry))) (found, (same, stored, inr (ne, less))) =
      (found, inr (ne, less, stored))
  end_batch-lem req (w, (results, (effects, panics))) (found, (same, stored, inl (done, all))) = cc
  end_batch-lem req (w, (results, (effects, panics))) (found, (same, stored, inr (ne, less))) =
      (found, inr (ne, less, stored))
  end_batch-lem req (w, (results, (effects, fails e))) (found, (same, stored, inl (done, all))) = cc
  end_batch-lem req (w, (results, (effects, fails e))) (found, (same, stored, inr (ne, less))) =
      (found, inr (ne, less, stored))

  pub handle_batch_request-ends :
      {Bytes : Type 0} (unmarshal : Bytes → Option BatchRequest) (payload : Bytes)
      (req : BatchRequest) (w : World)
      → unmarshal payload ≡ some req
      → let r = handle_batch_request c b unmarshal payload w in
        (found : List (Option (Map String ℕ))) × (((r.1.1 ≡ handled)
            × (length found ≡ length req.requests)
            × (r.1.0
                ≡ rows req.requests found
                  ++ (post_batch req.callback_url (callbacks c b req.requests found) ∷ [])))
          ⊎ ((¬ (r.1.1 ≡ handled))
              × (length found < length req.requests)
              × (r.1.0 ≡ rows req.requests found)))
  unfolding handle_batch_request
  handle_batch_request-ends unmarshal payload req w h =
      rw (h, handle_batch_request)
        (end_batch-lem req (batch_loop c b req.requests [] [] w)
          (batch_loop-lem req.requests [] [] w))

  abbrev pub of_request : Option Request → List (Option (Map String ℕ)) → List CallbackBody
  of_request none found = []
  of_request (some q) found = map (λ r. record { req = q; result = r }) found

  -- The results, each with the last request of the batch.
  abbrev pub of_last_request : List Request → List (Option (Map String ℕ)) → List CallbackBody
  of_last_request items found = of_request (get_elem? items (length items - 1)) found

  last_item-get_elem? :
      (item : Request) (items : List Request)
      → get_elem? (item ∷ items) (length items) ≡ some (last_item c b item items)
  unfolding last_item
  last_item-get_elem? item [] = refl
  last_item-get_elem? item (next ∷ rest) = last_item-get_elem? next rest

  callbacks-last :
      (items : List Request) (found : List (Option (Map String ℕ)))
      → length found ≡ length items
      → callbacks c b items found ≡ of_last_request items found
  unfolding callbacks
  callbacks-last [] found h = refl
  callbacks-last (item ∷ items) found h =
      let at : suc (length items) - 1 ≡ length items = omega arith in
      sym (
        ap (λ o. of_request o found)
          (ap (get_elem? (item ∷ items)) at ∙ last_item-get_elem? item items))

  -- A batch that can be read. If every request gives a result, the handler stores a row for each
  -- request in order, under its own key, and then posts one callback for all the results; the
  -- callback names the last request of the batch with every result. If not, it answers an error or
  -- panics: rows are stored for the requests before the one that failed, and nothing is posted.
  pub handle_batch_request_lem :
      {Bytes : Type 0} (unmarshal : Bytes → Option BatchRequest) (payload : Bytes)
      (req : BatchRequest) (w : World)
      → unmarshal payload ≡ some req
      → let r = handle_batch_request c b unmarshal payload w in
        (found : List (Option (Map String ℕ))) × (((r.1.1 ≡ handled)
            × (length found ≡ length req.requests)
            × (r.1.0
                ≡ rows req.requests found
                  ++ (post_batch req.callback_url (of_last_request req.requests found) ∷ [])))
          ⊎ ((¬ (r.1.1 ≡ handled))
              × (length found < length req.requests)
              × (r.1.0 ≡ rows req.requests found)))
  handle_batch_request_lem unmarshal payload req w h =
      let (found, ends) = handle_batch_request-ends unmarshal payload req w h in
      (
        found,
        elim ends [
          | inl (done, all, effects) ↦ inl (
            done,
            all,
            effects
                ∙ ap (λ l. rows req.requests found ++ (post_batch req.callback_url l ∷ []))
                    (callbacks-last req.requests found all),
          )
          | inr rest ↦ inr rest
        ],
      )

  -- A request that can be read. Either the handler is done, and it stored one row under the key of
  -- the request and then posted one callback, with the same result and that request; or it ends in
  -- another way, and nothing is stored or posted. In particular a request that is handed back for a
  -- retry leaves no row and no callback.
  pub handle_request_lem :
      {Bytes : Type 0} (unmarshal : Bytes → Option Request) (payload : Bytes) (req : Request)
      (w : World)
      → unmarshal payload ≡ some req
      → let r = handle_request c b unmarshal payload w in
        ((r.1.1 ≡ handled)
          × ((found : Option (Map String ℕ)) × (r.1.0
                ≡ store_row req.key found
                  ∷ post_one req.callback_url (record { req = req; result = found })
                  ∷ [])))
        ⊎ ((¬ (r.1.1 ≡ handled)) × (r.1.0 ≡ []))
  unfolding handle_request
  handle_request_lem unmarshal payload req w h =
      elim (Processed-cases (process c b req w).1 (process-Ends req w)) [
        | inl (o, (e, ne)) ↦ rw (h, handle_request) (rw (e) (inr (ne, refl)))
        | inr (found, e) ↦ rw (h, handle_request) (rw (e) (inl (refl, (found, refl))))
      ]
