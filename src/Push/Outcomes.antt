-- ===== src/Push/Outcomes.antt =====
-- How a push job ends, by what was sent.
use bmw.Base.{
  Bool, Bool-cases, List, Option, Option-cases, Post, Post-pure, Post-split, Post-weaken, Result,
  String, [], aborts, append-nil, atoi, fails, false, inl, inr, is_pos, lookup, nat_eq, none, ok,
  refl, some, string_eq, sym, true, ℕ, ◌<>◌, ◌>>=◌, ◌∷◌, ◌≡◌, ◌⊎◌,
}
use bmw.Push.Handler.{Values, bind_value, get, handle, send_payload}
use bmw.Push.Services.{
  apns_send, check_answer, fill, gcm_body, gcm_key, gcm_send, send_filled, take_pooled, with_pooled,
}
use bmw.Push.Types.{
  Config, Error, Event, Notification, Outside, PushPayload, Run, State, apns_sent, attempt,
  gcm_sent, other_error, retry_error,
}

module _ (o : Outside) (cfg : Config) where
  abbrev pub trace_of : State o → List Event
  trace_of s = s.trace

  -- The notification of a job, with the identifier of the one that the pool gave.
  abbrev pub notice : ℕ → PushPayload → Notification
  notice n job = record {
    identifier = n;
    device_token = job.addressee;
    alert = job.title;
    badge = job.badge;
  }

  -- One message to APNs, with the certificate of its service.
  abbrev pub SentApns : PushPayload → Bool → List Event → Type 0
  SentApns job accepted es =
      (is_pos 1 job.job_type ≡ true)
      × ((file : String) × ((lookup job.push_service cfg.cert_files ≡ some file)
            × ((n : ℕ) × (es ≡ apns_sent (cfg.cert_dir <> file) (notice n job) accepted ∷ []))))

  -- One message to GCM, with the key of its service or none.
  abbrev pub SentGcm : PushPayload → Bool → List Event → Type 0
  SentGcm job accepted es =
      (is_pos 2 job.job_type ≡ true)
      × (es ≡ gcm_sent ("key=" <> gcm_key o cfg job) (gcm_body o cfg job) accepted ∷ [])

  abbrev pub Delivered : PushPayload → List Event → Result Error (Unit {0}) → Type 0
  Delivered job es (ok u) =
      SentApns job true es
      ⊎ (SentGcm job true es
          ⊎ ((es ≡ []) × ((is_pos 1 job.job_type ≡ false) × (is_pos 2 job.job_type ≡ false))))
  Delivered job es (fails retry_error) = SentApns job false es
  Delivered job es (fails other_error) =
      SentGcm job false es ⊎ ((is_pos 1 job.job_type ≡ true) × (es ≡ []))
  Delivered job es aborts = ⊥

  -- Every call is noted once.
  attempt_then :
      (P : List Event → Result Error (Unit {0}) → Type 0) (f : o.World → o.World × Bool)
      (event : Bool → Event) (e : Error)
      → P (event true ∷ []) (ok tt)
      → P (event false ∷ []) (fails e)
      → Post trace_of P (attempt o f event >>= check_answer o cfg e)
  unfolding attempt check_answer ◌>>=◌
  attempt_then P f event e good bad = record {
    post = λ s. elim (Bool-cases (f s.world).1) [
      | inl h ↦ rw (h) (event true ∷ [], (refl, good))
      | inr h ↦ rw (h) (event false ∷ [], (refl, bad))
    ];
  }

  with_pooled-Post :
      (P : List Event → Result Error (Unit {0}) → Type 0) (job : PushPayload)
      (rest : Notification → Run o (Unit {0}))
      → ((n : ℕ) → Post trace_of P (rest (notice n job)))
      → Post trace_of P (with_pooled o cfg job rest)
  unfolding with_pooled fill
  with_pooled-Post P job rest h = record {
    post = λ s.
        let (w, (pn, pool)) = take_pooled o cfg s.pool s.world in
        (h pn.identifier).post (record s { world = w; pool = pool });
  }

  send_filled-Delivered :
      (n : ℕ) (job : PushPayload)
      → is_pos 1 job.job_type ≡ true
      → Post trace_of (Delivered job) (send_filled o cfg job (notice n job))
  unfolding send_filled
  send_filled-Delivered n job h = elim (Option-cases (lookup job.push_service cfg.cert_files)) [
    | inl e ↦
        rw (e, send_filled) (record { post = λ s. ([], (sym (append-nil s.trace), inr (h, refl))) })
    | inr (file, e) ↦
        rw (e, send_filled)
          (record {
            post = λ s.
                let cert = cfg.cert_dir <> file in
                let send =
                  attempt_then (Delivered job) (o.send_apns cert (notice n job))
                    (apns_sent cert (notice n job)) retry_error (inl (h, (file, (e, (n, refl)))))
                    (h, (file, (e, (n, refl)))) in
                elim (Bool-cases (o.has_file cert s.world)) [
                  | inl there ↦ rw (there) (send.post s)
                  | inr gone ↦ rw (gone) ([], (sym (append-nil s.trace), inr (h, refl)))
                ];
          })
  ]

  apns_send-Delivered :
      (job : PushPayload)
      → is_pos 1 job.job_type ≡ true
      → Post trace_of (Delivered job) (apns_send o cfg job)
  unfolding apns_send
  apns_send-Delivered job h = rw (h) (
      with_pooled-Post (Delivered job) job (send_filled o cfg job)
        (λ n. send_filled-Delivered n job h))

  gcm_send-Delivered :
      (job : PushPayload)
      → is_pos 2 job.job_type ≡ true
      → Post trace_of (Delivered job) (gcm_send o cfg job)
  unfolding gcm_send
  gcm_send-Delivered job h =
      let auth = "key=" <> gcm_key o cfg job in
      rw (h) (
        attempt_then (Delivered job) (o.post_gcm auth (gcm_body o cfg job))
          (gcm_sent auth (gcm_body o cfg job)) other_error (inr (inl (h, refl))) (inl (h, refl)))

  send_payload-Delivered :
      (job : PushPayload) → Post trace_of (Delivered job) (send_payload o cfg job)
  unfolding send_payload
  send_payload-Delivered job =
      Post-split _ (is_pos 1 job.job_type) (apns_send-Delivered job) (λ other.
        Post-split _ (is_pos 2 job.job_type) (gcm_send-Delivered job)
          (λ neither. Post-pure _ _ tt (inr (inr (refl, (other, neither))))))

  -- How a query ends: a crash where its type is no number, or the delivery of what it says.
  abbrev pub Ends : Values → String → List Event → Result Error (Unit {0}) → Type 0
  Ends values id es r =
      (((atoi (get "job_type" values)).1 ≡ true) × ((es ≡ []) × (r ≡ aborts)))
      ⊎ ((job : PushPayload) × ((job.id ≡ id)
            × (job.job_type ≡ (atoi (get "job_type" values)).0)
            × (job.addressee ≡ get "addressee" values)
            × (job.title ≡ get "title" values)
            × (job.push_service ≡ get "push_service" values)
            × (job.badge ≡ (atoi (get "badge" values)).0)
            × Delivered job es r))

  bound :
      (values : Values) (id : String)
      → ((bind_value values id ≡ none) × ((atoi (get "job_type" values)).1 ≡ true))
        ⊎ ((job : PushPayload) × ((bind_value values id ≡ some job)
              × (job.id ≡ id)
              × (job.job_type ≡ (atoi (get "job_type" values)).0)
              × (job.addressee ≡ get "addressee" values)
              × (job.title ≡ get "title" values)
              × (job.push_service ≡ get "push_service" values)
              × (job.badge ≡ (atoi (get "badge" values)).0)))
  unfolding bind_value
  bound values id = elim (Bool-cases (atoi (get "job_type" values)).1) [
    | inl bad ↦ inl (rw (bad) refl, bad)
    | inr good ↦ inr (
      record {
        id = id;
        job_type = (atoi (get "job_type" values)).0;
        addressee = get "addressee" values;
        title = get "title" values;
        badge = (atoi (get "badge" values)).0;
        sound = get "sound" values;
        push_service = get "push_service" values;
      },
      (rw (good) refl, refl, refl, refl, refl, refl, refl),
    )
  ]

  pub handle-Ends :
      {Bytes : Type 0} (parse_query : Bytes → Option Values) (id : String) (payload : Bytes)
      (values : Values)
      → parse_query payload ≡ some values
      → Post trace_of (Ends values id) (handle o cfg parse_query id payload)
  unfolding handle
  handle-Ends parse_query id payload values h =
      rw (h, handle)
        (elim (bound values id) [
          | inl (e, bad) ↦
              rw (e)
                (record { post = λ s. ([], (sym (append-nil s.trace), inl (bad, (refl, refl)))) })
          | inr (job, (e, a, b, c, d, f, g)) ↦ rw (e) (
              Post-weaken _ (λ es r p. inr (job, (a, b, c, d, f, g, p)))
                (send_payload-Delivered job))
        ])
