-- ===== src/Http/Ends.antt =====
-- How the calls of lib/http.go end.
use bmw.Base.{
  Bool, Bool-cases, List, Option, Option-cases, Post, Post-bind, Post-split, Post-weaken, Result,
  String, [], aborts, ap, append-nil, append_assoc, arith, fails, false, inl, inr, insert,
  lookup-insert_self, nat_eq, none, ok, refl, some, string_eq, subst, sym, true, ◌++◌, ◌==◌, ◌>>=◌,
  ◌∙◌, ◌∷◌, ◌≡◌,
}
use bmw.Http.Fetch.{
  answered, client_of, do_request, get_into, http_get, http_get_file, http_post, if_ok,
  make_request, read_body, status_ok, write_body,
}
use bmw.Http.Request.{Asks, DistinctHeaders, DistinctKeys, new_http_request-Asks}
use bmw.Http.Traces.{Ends, FileEnds, Opened, ReadBody, Written, trace_of}
use bmw.Http.Types.{
  Error, Event, Outside, Request, RequestConfig, Response, Run, bad_request, body_read, closed,
  file_closed, file_made, file_written, no_answer, opened, sent,
}

module _ (o : Outside) where
  abbrev MakeEnds :
      String → String → RequestConfig → Option String → List Event → Result Error Request → Type 0
  MakeEnds method url config body es (ok req) = (es ≡ []) × Asks o method url config body req
  MakeEnds method url config body es (fails e) =
      (e ≡ bad_request) × (o.new_request method url ≡ none) × (es ≡ [])
  MakeEnds method url config body es aborts = ⊥

  make_request-Post :
      (method url : String) (config : RequestConfig) (body : Option String)
      → DistinctKeys o config.params
      → DistinctHeaders o config.headers
      → Post (trace_of o) (MakeEnds method url config body) (make_request o method url config body)
  unfolding make_request
  make_request-Post method url config body hq hh = record {
    post = λ s. elim (new_http_request-Asks o method url config body hq hh) [
      | inl (e, bad) ↦ rw (e, make_request) ([], (sym (append-nil s.trace), (refl, bad, refl)))
      | inr (req, (e, asks)) ↦ rw (e, make_request) ([], (sym (append-nil s.trace), (refl, asks)))
    ];
  }

  abbrev DoEnds : RequestConfig → Request → List Event → Result Error Response → Type 0
  DoEnds config req es (ok res) =
      es ≡ sent (client_of config.client) config.timeout req ∷ opened res ∷ []
  DoEnds config req es (fails e) =
      (e ≡ no_answer) × (es ≡ sent (client_of config.client) config.timeout req ∷ [])
  DoEnds config req es aborts = ⊥

  do_request-Post :
      (config : RequestConfig) (req : Request)
      → Post (trace_of o) (DoEnds config req) (do_request o config req)
  unfolding do_request answered
  do_request-Post config req = record {
    post = λ s.
        let client = client_of config.client in
        let timeouts = insert client config.timeout s.timeouts in
        let set = lookup-insert_self client config.timeout s.timeouts in
        elim (Option-cases (o.send client config.timeout req s.world).1) [
          | inl e ↦ rw (set, e) (sent client config.timeout req ∷ [], (refl, (refl, refl)))
          | inr (res, e) ↦
              rw (set, e)
                (sent client config.timeout req ∷ opened res ∷ [], (append_assoc s.trace _ _, refl))
        ];
  }

  read_body-Post : Post (trace_of o) (λ es r. ReadBody o r es) (read_body o)
  unfolding read_body
  read_body-Post = record {
    post = λ s. elim (Option-cases (o.read_all s.world).1) [
      | inl e ↦
          rw (e, read_body)
            (
              body_read none ∷ closed ∷ [],
              (ap (λ b. s.trace ++ body_read b ∷ closed ∷ []) e, (refl, refl)),
            )
      | inr (b, e) ↦
          rw (e, read_body)
            (
              body_read (some b) ∷ closed ∷ [],
              (ap (λ b. s.trace ++ body_read b ∷ closed ∷ []) e, refl),
            )
    ];
  }

  write_body-Post :
      (name : String) (res : Response)
      → Post (trace_of o) (λ es r. Written o name res r es) (write_body o name res)
  unfolding write_body
  write_body-Post name res = record {
    post = λ s. elim (Bool-cases (o.write_to name s.world).1) [
      | inl e ↦
          rw (e)
            (file_written name true ∷ closed ∷ [], (refl, (refl, refl, refl, inl (refl, refl))))
      | inr e ↦
          rw (e)
            (file_written name false ∷ closed ∷ [], (refl, (refl, refl, refl, inr (refl, refl))))
    ];
  }

  module _ {A : Type 0} (checked : Bool)
      (Body : Response → Result Error A → List Event → Type 0) where
    -- The three calls in order.
    fetch-Ends :
        (method url : String) (config : RequestConfig) (body : Option String)
        (rest : Response → Run o A)
        → DistinctKeys o config.params
        → DistinctHeaders o config.headers
        → ((res : Response) → Post (trace_of o) (Opened o checked Body res) (rest res))
        → Post
            (trace_of o)
            (Ends o method url config body checked Body)
            (make_request o method url config body >>= λ req. do_request o config req >>= rest)
    fetch-Ends method url config body rest hq hh h =
        let Q = Ends o method url config body checked Body in
        let act = do_request o config in
        Post-bind (trace_of o) (MakeEnds method url config body) Q
          (make_request o method url config body) (λ req. act req >>= rest)
          (make_request-Post method url config body hq hh)
          (λ es req (none_yet, asks).
            subst (λ l. Post (trace_of o) (λ fs. Q (l ++ fs)) (act req >>= rest)) (sym none_yet)
              (Post-bind (trace_of o) (DoEnds config req) Q (act req) rest
                (do_request-Post config req)
                (λ es res p.
                  Post-weaken (trace_of o)
                    (λ fs r op. inr (
                      opened res ∷ fs,
                      (
                        record { req = req; asks = asks; done = ap (λ l. l ++ fs) p },
                        inr (res, (fs, (refl, op))),
                      ),
                    ))
                    (h res))
                (λ es e (same, p).
                  inr
                    ([], (record { req = req; asks = asks; done = p }, inl (ap fails same, refl))))
                (λ es p. absurd p)))
          (λ es e (same, bad, p). inl (bad, (ap fails same, p))) (λ es p. absurd p)

  if_ok-Opened :
      {A : Type 0} (Body : Response → Result Error A → List Event → Type 0) (res : Response)
      (rest : Run o A)
      → Post (trace_of o) (λ es r. Body res r es) rest
      → Post (trace_of o) (Opened o true Body res) (if_ok o res rest)
  if_ok-Opened Body res rest h =
      Post-split (trace_of o) (res.status_code == status_ok)
        (λ good. Post-weaken (trace_of o) (λ es r p. inr (ground (arith, good), p)) h)
        (λ bad. record {
          post = λ s. ([], (sym (append-nil s.trace), inl (refl, bad, refl, refl)));
        })

  read_body-Opened :
      (res : Response) → Post (trace_of o) (Opened o false (λ _. ReadBody o) res) (read_body o)
  read_body-Opened res = Post-weaken (trace_of o) (λ es r p. inr (refl, p)) read_body-Post

  get_into-Ends :
      (name url : String) (config : RequestConfig)
      → DistinctKeys o config.params
      → DistinctHeaders o config.headers
      → Post
          (trace_of o)
          (Ends o "GET" url config none true (Written o name))
          (get_into o name url config)
  unfolding get_into
  get_into-Ends name url config hq hh =
      fetch-Ends true (Written o name) "GET" url config none
        (λ res. if_ok o res (write_body o name res)) hq hh
        (λ res.
          if_ok-Opened (Written o name) res (write_body o name res) (write_body-Post name res))

  http_get_file-FileEnds :
      (url : String) (config : RequestConfig)
      → DistinctKeys o config.params
      → DistinctHeaders o config.headers
      → Post (trace_of o) (FileEnds o url config) (http_get_file o url config)
  unfolding http_get_file
  http_get_file-FileEnds url config hq hh = record {
    post = λ s. elim (Option-cases (o.temp_file s.world).1) [
      | inl e ↦ rw (e, http_get_file) ([], (sym (append-nil s.trace), inl (refl, refl)))
      | inr (name, e) ↦
          let start = record s {
            world = (o.temp_file s.world).0;
            trace = s.trace ++ file_made name ∷ [];
          } in
          let (inner, (added, p)) = (get_into-Ends name url config hq hh).post start in
          rw (e, http_get_file)
            (
              file_made name ∷ (inner ++ file_closed name ∷ []),
              (
                ap (λ l. l ++ file_closed name ∷ []) added
                    ∙ append_assoc (s.trace ++ file_made name ∷ []) inner (file_closed name ∷ [])
                    ∙ append_assoc s.trace (file_made name ∷ []) (inner ++ file_closed name ∷ []),
                inr (name, (inner, (_, (refl, (refl, p))))),
              ),
            )
    ];
  }

  -- How HTTPGet, HTTPPost and HTTPGetFile end, for maps of parameters and headers without a key twice. They
  -- make at most one request, which asks what their arguments say, with the timeout and the client of the
  -- configuration. Where there is an answer, HTTPGet and HTTPGetFile refuse every status but 200 and leave
  -- the body open; otherwise the body is read to its end or an error and closed. HTTPGetFile
  -- closes its file and returns its name in every case, without removing it after an error.
  pub http_get-Ends :
      (url : String) (config : RequestConfig)
      → DistinctKeys o config.params
      → DistinctHeaders o config.headers
      → Post
          (trace_of o)
          (Ends o "GET" url config none true (λ _. ReadBody o))
          (http_get o url config)
        × (Post
              (trace_of o)
              (Ends o "POST" url config config.body false (λ _. ReadBody o))
              (http_post o url config)
            × Post (trace_of o) (FileEnds o url config) (http_get_file o url config))
  unfolding http_get http_post http_get_file get_into
  http_get-Ends url config hq hh = (
    fetch-Ends true (λ _. ReadBody o) "GET" url config none (λ res. if_ok o res (read_body o)) hq hh
        (λ res. if_ok-Opened (λ _. ReadBody o) res (read_body o) read_body-Post),
    (
      fetch-Ends false (λ _. ReadBody o) "POST" url config config.body (λ res. read_body o) hq hh
          read_body-Opened,
      http_get_file-FileEnds url config hq hh,
    ),
  )
