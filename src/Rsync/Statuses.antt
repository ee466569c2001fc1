-- ===== src/Rsync/Statuses.antt =====
-- What the callback of the rsync worker says of each resource.
use mathlib.Core.List.{append_assoc, append-nil}
use bmw.Base.{
  Bool, Bool-cases, List, Option, Option-cases, String, [], ap, false, if◌then◌else◌, inl, inr,
  nat_eq, none, refl, some, string_eq, subst, sym, true, ℕ, ◌++◌, ◌∙◌, ◌∷◌, ◌≡◌, ◌⊎◌,
}
use bmw.Rsync.Handler.{
  Ending, Synced, after_fetch, after_upload, call_back, check_obj_s3, crashes, fails, handle,
  handled, is_size, panics, status_of, store_download, sync_all, sync_one, upload_to_s3,
}
use bmw.Rsync.Types.{Body, Download, Outside, Resource, ResponseBody}

module _ (o : Outside) where
  open o use {World, head_object, fetch, file_size, can_open, put}

  -- What becomes of one resource, from a world to another: its status is 1 where the service has its key, or
  -- where it was fetched with the length of its header and put; otherwise it is 0.
  pub data Syncs (r : Resource) (w : World) : World → ℕ → Type 0 where
    already_there : (n : ℕ) → head_object r.key r.bucket r.region w ≡ some n → Syncs r w w 1
    not_fetched :
        head_object r.key r.bucket r.region w ≡ none
        → (fetch r.url w).1 ≡ none
        → Syncs r w (fetch r.url w).0 0
    wrong_size :
        (d : Download) (n : ℕ)
        → head_object r.key r.bucket r.region w ≡ none
        → (fetch r.url w).1 ≡ some d
        → file_size d.name (fetch r.url w).0 ≡ some n
        → is_size o n d.size ≡ false
        → Syncs r w (fetch r.url w).0 0
    not_opened :
        (d : Download) (n : ℕ)
        → head_object r.key r.bucket r.region w ≡ none
        → (fetch r.url w).1 ≡ some d
        → file_size d.name (fetch r.url w).0 ≡ some n
        → is_size o n d.size ≡ true
        → can_open d.name (fetch r.url w).0 ≡ false
        → Syncs r w (fetch r.url w).0 0
    was_put :
        (d : Download) (n : ℕ) (sent : Bool)
        → head_object r.key r.bucket r.region w ≡ none
        → (fetch r.url w).1 ≡ some d
        → file_size d.name (fetch r.url w).0 ≡ some n
        → is_size o n d.size ≡ true
        → can_open d.name (fetch r.url w).0 ≡ true
        → (put d.name r.key r.bucket r.region d.type (fetch r.url w).0).1 ≡ sent
        → Syncs r w
            (put d.name r.key r.bucket r.region d.type (fetch r.url w).0).0
            (if sent then 1 else 0)

  -- The service does not have the key, and the file of the download cannot be read back.
  abbrev pub Crashes : Resource → World → Type 0
  Crashes r w =
      (head_object r.key r.bucket r.region w ≡ none)
      × ((d : Download) × (((fetch r.url w).1 ≡ some d)
            × (file_size d.name (fetch r.url w).0 ≡ none)))

  -- All resources, in order, each with its status.
  abbrev pub ReportedAll : List Resource → World → List Resource → World → Type 0
  ReportedAll [] w [] w' = w' ≡ w
  ReportedAll (r ∷ rs) w (r' ∷ rs') w' =
      (w₁ : World) × ((n : ℕ) × (Syncs r w w₁ n
          × ((r' ≡ record r { status = n }) × ReportedAll rs w₁ rs' w')))
  ReportedAll [] w (r' ∷ rs') w' = ⊥
  ReportedAll (r ∷ rs) w [] w' = ⊥

  -- Some resource crashes, after those before it.
  abbrev pub Stops : List Resource → World → Type 0
  Stops [] w = ⊥
  Stops (r ∷ rs) w = Crashes r w ⊎ ((w₁ : World) × ((n : ℕ) × (Syncs r w w₁ n × Stops rs w₁)))

  abbrev One : Resource → World → World × Synced o → Type 0
  One r w (w', panics) = Crashes r w
  One r w (w', status_of n) = Syncs r w w' n

  store_download-One :
      (r : Resource) (d : Download) (w : World)
      → head_object r.key r.bucket r.region w ≡ none
      → (fetch r.url w).1 ≡ some d
      → One r w (store_download o r d (fetch r.url w).0)
  unfolding store_download upload_to_s3 after_upload
  store_download-One r d w missing got =
      let w₁ = (fetch r.url w).0 in
      elim (Option-cases (file_size d.name w₁)) [
        | inl e ↦ rw (e, store_download) (missing, (d, (got, e)))
        | inr (n, e) ↦ elim (Bool-cases (is_size o n d.size)) [
          | inl same ↦ elim (Bool-cases (can_open d.name w₁)) [
            | inl opens ↦
                rw (e, store_download, same, opens)
                  (was_put d n (put d.name r.key r.bucket r.region d.type w₁).1 missing got e same
                    opens refl)
            | inr shut ↦ rw (e, store_download, same, shut) (not_opened d n missing got e same shut)
          ]
          | inr differ ↦ rw (e, store_download, differ) (wrong_size d n missing got e differ)
        ]
      ]

  sync_one-One : (r : Resource) (w : World) → One r w ((sync_one o r w).0, (sync_one o r w).1.1)
  unfolding sync_one after_fetch check_obj_s3
  sync_one-One r w = elim (Option-cases (head_object r.key r.bucket r.region w)) [
    | inr (n, e) ↦ rw (e, sync_one) (already_there n e)
    | inl e ↦ elim (Option-cases (fetch r.url w).1) [
      | inl lost ↦ rw (e, sync_one, lost) (not_fetched e lost)
      | inr (d, got) ↦ rw (e, sync_one, got) (store_download-One r d w e got)
    ]
  ]

  Synced-cases : (s : Synced o) → (s ≡ panics) ⊎ ((n : ℕ) × (s ≡ status_of n))
  Synced-cases panics = inl refl
  Synced-cases (status_of n) = inr (n, refl)

  -- The loop panics at a resource that crashes, or it adds a report for each.
  abbrev Synchronized :
      List Resource
      → World
      → List Resource
      → World × (List String × Option (List Resource))
      → Type 0
  Synchronized rs w result (w', (files, end)) =
      ((end ≡ none) × Stops rs w)
      ⊎ ((out : List Resource) × ((end ≡ some (result ++ out)) × ReportedAll rs w out w'))

  Synchronized-cons :
      (r : Resource) (n : ℕ) (rs result : List Resource) (w w₁ : World)
      (end : World × (List String × Option (List Resource)))
      → Syncs r w w₁ n
      → Synchronized rs w₁ (result ++ record r { status = n } ∷ []) end
      → Synchronized (r ∷ rs) w result end
  Synchronized-cons r n rs result w w₁ end h (inl (e, stops)) = inl (e, inr (w₁, (n, (h, stops))))
  Synchronized-cons r n rs result w w₁ end h (inr (out, (e, all))) = inr (
    record r { status = n } ∷ out,
    (
      e ∙ ap some (append_assoc result (record r { status = n } ∷ []) out),
      (w₁, (n, (h, (refl, all)))),
    ),
  )

  sync_all-Synchronized :
      (rs : List Resource) (files : List String) (result : List Resource) (w : World)
      → Synchronized rs w result (sync_all o rs files result w)
  unfolding sync_all
  sync_all-Synchronized [] files result w = inr ([], (ap some (sym (append-nil result)), refl))
  sync_all-Synchronized (r ∷ rs) files result w =
      let one = sync_one o r w in
      elim (Synced-cases one.1.1) [
        | inl e ↦
            rw (e, sync_all)
              (inl (refl, inl (subst (λ s. One r w (one.0, s)) e (sync_one-One r w))))
        | inr (n, e) ↦
            rw (e, sync_all)
              (Synchronized-cons r n rs result w one.0
                (sync_all o rs (one.1.0 ++ files) (result ++ record r { status = n } ∷ []) one.0)
                (subst (λ s. One r w (one.0, s)) e (sync_one-One r w))
                (sync_all-Synchronized rs (one.1.0 ++ files)
                  (result ++ record r { status = n } ∷ []) one.0))
      ]

  -- What `Handle` posts of the resources of a request, and how it ends.
  abbrev pub Answered : String → List Resource → World → Option Body × Ending o → Type 0
  Answered id rs w (posted, end) =
      ((posted ≡ none) × (end ≡ crashes) × Stops rs w)
      ⊎ ((out : List Resource) × ((w' : World) × ((posted
                ≡ some (record { id = id; resources = out }))
              × (¬ (end ≡ crashes))
              × ReportedAll rs w out w')))

  sent-ends :
      (sent : Bool) → let end : Ending o = if sent then handled else fails in ¬ (end ≡ crashes)
  sent-ends true e = cc
  sent-ends false e = cc

  call_back-Answered :
      (id url : String) (rs : List Resource) (w : World)
      (loop : World × (List String × Option (List Resource)))
      → Synchronized rs w [] loop
      → Answered id rs w (call_back o id url loop.1.1 loop.0).1
  unfolding call_back
  call_back-Answered id url rs w (w', (files, none)) (inl (e, stops)) = inl (refl, refl, stops)
  call_back-Answered id url rs w (w', (files, none)) (inr (out, (e, all))) = cc
  call_back-Answered id url rs w (w', (files, some result)) (inl (e, stops)) = cc
  call_back-Answered id url rs w (w', (files, some result)) (inr (out, (e, all))) =
      let same : result ≡ out = cc e in
      inr (
        out,
        (
          w',
          (
            ap (λ l. some (record { id = id; resources = l })) same,
            sent-ends (o.post url (record { id = id; resources = result }) w').1,
            all,
          ),
        ),
      )

  -- A payload that can be read. Either one callback is posted, with the identifier of the job and with all the
  -- resources of the request in order, each as it came but for its status: 1 where the service has the
  -- key, or where the resource was fetched in full and put, and 0 otherwise. Or the download of some resource,
  -- after others that were synchronized so, leaves a file that cannot be read back, and the program crashes
  -- without posting anything.
  pub handle-Answered :
      {Bytes : Type 0} (unmarshal : Bytes → Option ResponseBody) (id : String) (payload : Bytes)
      (res : ResponseBody) (w : World)
      → unmarshal payload ≡ some res
      → Answered id res.resources w (handle o unmarshal id payload w).1
  unfolding handle
  handle-Answered unmarshal id payload res w h =
      rw (h, handle)
        (call_back-Answered id res.callback res.resources w (sync_all o res.resources [] [] w)
          (sync_all-Synchronized res.resources [] [] w))
