-- ===== src/Http/Fetch.antt =====
-- `HTTPGet`, `HTTPGetFile` and `HTTPPost` of lib/http.go.
use bmw.Base.{
  Option, Result, String, [], aborts, fail, fails, if◌then◌else◌, insert, lookup, nat_eq, none, ok,
  or_zero, pos, some, string_eq, ℕ, ℤ, ◌++◌, ◌==◌, ◌>>=◌, ◌∷◌,
}
use bmw.Http.Request.{new_http_request}
use bmw.Http.Types.{
  Error, Outside, Request, RequestConfig, Response, Run, State, bad_request, bad_status, body_read,
  closed, file_closed, file_made, file_written, no_answer, no_file, note, opened, sent, unreadable,
}

abbrev pub status_ok : ℕ
status_ok = 200

pub record FileResult : Type 0 where
  pub out_fname : String
  pub content_type : String
  pub content_length : ℤ
  pub err : Option Error

-- `http.DefaultClient`, or the client of the configuration.
abbrev pub client_of : Option ℕ → ℕ
client_of none = 0
client_of (some client) = client

-- The results that a return with an error leaves.
abbrev pub failed_file : String → Error → FileResult
failed_file name e = record {
  out_fname = name;
  content_type = "";
  content_length = pos 0;
  err = some e;
}

abbrev pub with_name : String → Result Error FileResult → Result Error FileResult
with_name name (ok out) = ok out
with_name name (fails e) = ok (failed_file name e)
with_name name aborts = aborts

module _ (o : Outside) where
  -- `NewHTTPReqeust` of a configuration.
  unfoldable pub make_request : String → String → RequestConfig → Option String → Run o Request
  make_request method url config body s =
      elim (new_http_request o method url config.params config.headers body) [
        | none ↦ (s, fails bad_request)
        | some req ↦ (s, ok req)
      ]

  unfoldable pub answered : Option Response → State o → State o × Result Error Response
  answered none s = (s, fails no_answer)
  answered (some res) s = (note o (opened res) s, ok res)

  -- The client with its timeout, and `Do`.
  unfoldable pub do_request : RequestConfig → Request → Run o Response
  unfolding answered
  do_request config req s =
      let client = client_of config.client in
      let timeouts = insert client config.timeout s.timeouts in
      let timeout = or_zero (lookup client timeouts) 0 in
      let (w, res) = o.send client timeout req s.world in
      answered res
        (record { world = w; timeouts = timeouts; trace = s.trace ++ sent client timeout req ∷ [] })

  -- `ReadAll`, and the deferred `Close`.
  unfoldable pub read_body : Run o String
  read_body s =
      let (w, b) = o.read_all s.world in
      let s' = record s { world = w; trace = s.trace ++ body_read b ∷ closed ∷ [] } in
      elim b [ none ↦ (s', fails unreadable) | some bytes ↦ (s', ok bytes) ]

  abbrev pub if_ok : {A : Type 0} → Response → Run o A → Run o A
  if_ok res rest = if res.status_code == status_ok then rest else fail (bad_status res.status_code)

  -- `HTTPGet`
  unfoldable pub http_get : String → RequestConfig → Run o String
  unfolding make_request do_request read_body
  http_get url config = do
    req ← make_request "GET" url config none
    res ← do_request config req
    if_ok res read_body

  -- `HTTPPost`
  unfoldable pub http_post : String → RequestConfig → Run o String
  unfolding make_request do_request read_body
  http_post url config = do
    req ← make_request "POST" url config config.body
    res ← do_request config req
    read_body

  -- `WriteTo` of the file, and the deferred `Close` of the body.
  unfoldable pub write_body : String → Response → Run o FileResult
  write_body name res s =
      let (w, done) = o.write_to name s.world in
      (
        record s { world = w; trace = s.trace ++ file_written name done ∷ closed ∷ [] },
        ok (record {
          out_fname = name;
          content_type = res.content_type;
          content_length = o.parse_int res.content_length;
          err = if done then none else some unreadable;
        }),
      )

  -- `HTTPGetFile` behind `TempFile`.
  unfoldable pub get_into : String → String → RequestConfig → Run o FileResult
  unfolding make_request do_request write_body
  get_into name url config = do
    req ← make_request "GET" url config none
    res ← do_request config req
    if_ok res (write_body name res)

  -- `HTTPGetFile`, with the deferred `Close` of the file.
  unfoldable pub http_get_file : String → RequestConfig → Run o FileResult
  unfolding get_into
  http_get_file url config s =
      let (w, file) = o.temp_file s.world in
      elim file [
        | none ↦ (record s { world = w }, ok (failed_file "" no_file))
        | some name ↦
            let (s', r) =
              get_into name url config
                (record s { world = w; trace = s.trace ++ file_made name ∷ [] }) in
            (note o (file_closed name) s', with_name name r)
      ]
