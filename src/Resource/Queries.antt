-- ===== src/Resource/Queries.antt =====
-- What a query for a key answers after a batch.
use bmw.Base.{
  Bool-cases, List, Map, Option, String, [], ap, if◌then◌else◌, inl, inr, length, nat_eq, refl,
  some, string_eq, true, ℕ, ◌++◌, ◌<◌, ◌∙◌, ◌∷◌, ◌≡◌, ◌⊎◌,
}
use bmw.Resource.Callbacks.{handle_batch_request-ends, rows}
use bmw.Resource.Requests.{
  Effect, callbacks, handle_batch_request, handled, post_batch, post_one, store_row,
}
use bmw.Resource.Table.{
  Table, TableLaws, find_key, find_key_query, flat, result_answer, store, store_all,
}
use bmw.Resource.Types.{BatchRequest, Buckets, Cloud, Request}

module _ (c : Cloud) (b : Buckets) (t : Table) where
  -- The result of the last request whose key is not told apart from the one that is asked for.
  unfoldable pub last_result :
      String
      → List Request
      → List (Option (Map String ℕ))
      → Option (Map String ℕ)
      → Option (Map String ℕ)
  last_result key (item ∷ items) (found ∷ rest) old =
      last_result key items rest (if t.same key item.key then found else old)
  last_result key items rest old = old

  store_all-append :
      (es fs : List Effect) (w : t.World)
      → store_all t (es ++ fs) w ≡ store_all t fs (store_all t es w)
  unfolding store_all
  store_all-append [] fs w = refl
  store_all-append (store_row key result ∷ es) fs w =
      store_all-append es fs (store t key result w).0
  store_all-append (post_one url body ∷ es) fs w = store_all-append es fs w
  store_all-append (post_batch url bodies ∷ es) fs w = store_all-append es fs w

  module _ (laws : TableLaws t)
      (accepts : (key : String) (text : t.Text) (w : t.World)
        → (t.insert_or_update key text w).1 ≡ true) where
    find_key-store :
        (key other : String) (result : Option (Map String ℕ)) (w : t.World)
        → find_key t other (store t key result w).0
          ≡ (if t.same other key then result else find_key t other w)
    unfolding find_key store
    find_key-store key other result w =
        let text = t.marshal result in
        elim (Bool-cases (t.same other key)) [
          | inl e ↦
              let now : t.select other (t.insert_or_update key text w).0 ≡ some text =
                laws.written key other text w ∙ rw (accepts key text w, e) refl in
              rw (e, find_key, store, now) (ap (flat t) (laws.codec result))
          | inr e ↦
              let before : t.select other (t.insert_or_update key text w).0 ≡ t.select other w =
                laws.written key other text w ∙ rw (accepts key text w, e) refl in
              rw (e, find_key, store, before) refl
        ]

    find_key-rows :
        (key : String) (items : List Request) (found : List (Option (Map String ℕ))) (w : t.World)
        → find_key t key (store_all t (rows items found) w)
          ≡ last_result key items found (find_key t key w)
    unfolding store_all rows last_result
    find_key-rows key [] [] w = refl
    find_key-rows key [] (f ∷ found) w = refl
    find_key-rows key (item ∷ items) [] w = refl
    find_key-rows key (item ∷ items) (f ∷ found) w =
        find_key-rows key items found (store t item.key f w).0
        ∙ ap (last_result key items found) (find_key-store item.key key f w)

    pub handle_batch_request-find_key_query :
        {Bytes : Type 0} (unmarshal : Bytes → Option BatchRequest) (payload : Bytes)
        (req : BatchRequest) (w : c.World) (tw : t.World) (key : String)
        → unmarshal payload ≡ some req
        → let r = handle_batch_request c b unmarshal payload w in
          (found : List (Option (Map String ℕ))) × ((((r.1.1 ≡ handled)
                × (length found ≡ length req.requests)
                × (r.1.0
                    ≡ rows req.requests found
                      ++ (post_batch req.callback_url (callbacks c b req.requests found) ∷ [])))
              ⊎ ((¬ (r.1.1 ≡ handled))
                  × (length found < length req.requests)
                  × (r.1.0 ≡ rows req.requests found)))
            × (find_key_query t (some key) (store_all t r.1.0 tw)
                ≡ result_answer t (last_result key req.requests found (find_key t key tw))))
    unfolding find_key_query store_all
    handle_batch_request-find_key_query unmarshal payload req w tw key h =
        let (found, ends) = handle_batch_request-ends c b unmarshal payload req w h in
        let stored = ap (result_answer t) (find_key-rows key req.requests found tw) in
        (
          found,
          (
            ends,
            elim ends [
              | inl (done, all, effects) ↦
                  ap (λ es. result_answer t (find_key t key (store_all t es tw))) effects
                  ∙ ap (λ w'. result_answer t (find_key t key w'))
                      (store_all-append (rows req.requests found) _ tw)
                  ∙ stored
              | inr (ne, less, effects) ↦
                  ap (λ es. result_answer t (find_key t key (store_all t es tw))) effects ∙ stored
            ],
          ),
        )
