-- ===== src/Http/Traces.antt =====
-- What the calls of lib/http.go do, by how they end.
use bmw.Base.{
  Bool, List, Option, Result, String, [], aborts, fails, false, nat_eq, none, not, ok, some,
  string_eq, true, ◌&&◌, ◌++◌, ◌==◌, ◌∷◌, ◌≡◌, ◌⊎◌,
}
use bmw.Http.Fetch.{FileResult, client_of, failed_file, status_ok, with_name}
use bmw.Http.Request.{Asks}
use bmw.Http.Types.{
  Error, Event, Outside, Request, RequestConfig, Response, State, bad_request, bad_status,
  body_read, closed, file_closed, file_made, file_written, no_answer, no_file, opened, sent,
  unreadable,
}

module _ (o : Outside) where
  abbrev pub trace_of : State o → List Event
  trace_of s = s.trace

  -- One request of a configuration, with its timeout, and what was done then.
  pub record Sent (method url : String) (config : RequestConfig) (body : Option String)
      (after es : List Event) : Type 0 where
    pub req : Request
    pub asks : Asks o method url config body req
    pub done : es ≡ sent (client_of config.client) config.timeout req ∷ after

  -- What the calls do with the body of an answer.
  abbrev pub ReadBody : Result Error String → List Event → Type 0
  ReadBody (ok b) es = es ≡ body_read (some b) ∷ closed ∷ []
  ReadBody (fails e) es = (e ≡ unreadable) × (es ≡ body_read none ∷ closed ∷ [])
  ReadBody aborts es = ⊥

  abbrev pub Written : String → Response → Result Error FileResult → List Event → Type 0
  Written name res (ok out) es =
      (out.out_fname ≡ name)
      × (out.content_type ≡ res.content_type)
      × (out.content_length ≡ o.parse_int res.content_length)
      × (((out.err ≡ none) × (es ≡ file_written name true ∷ closed ∷ []))
          ⊎ ((out.err ≡ some unreadable) × (es ≡ file_written name false ∷ closed ∷ [])))
  Written name res (fails e) es = ⊥
  Written name res aborts es = ⊥

  -- How a request ends, by what was done after it.
  module _ {A : Type 0} where
    -- A status that is refused, with the body left open, or what is done with the body.
    abbrev pub Opened :
        Bool
        → (Response → Result Error A → List Event → Type 0)
        → Response
        → List Event
        → Result Error A
        → Type 0
    Opened checked Body res es r =
        ((checked ≡ true)
          × ((res.status_code == status_ok) ≡ false)
          × (r ≡ fails (bad_status res.status_code))
          × (es ≡ []))
        ⊎ (((checked && not (res.status_code == status_ok)) ≡ false) × Body res r es)

    -- No answer, or an answer with its body.
    abbrev pub After :
        Bool
        → (Response → Result Error A → List Event → Type 0)
        → List Event
        → Result Error A
        → Type 0
    After checked Body es r =
        ((r ≡ fails no_answer) × (es ≡ []))
        ⊎ ((res : Response) × ((rest : List Event) × ((es ≡ opened res ∷ rest)
                × Opened checked Body res rest r)))

    -- No request, or one request and what follows.
    abbrev pub Ends :
        String
        → String
        → RequestConfig
        → Option String
        → Bool
        → (Response → Result Error A → List Event → Type 0)
        → List Event
        → Result Error A
        → Type 0
    Ends method url config body checked Body es r =
        ((o.new_request method url ≡ none) × ((r ≡ fails bad_request) × (es ≡ [])))
        ⊎ ((after : List Event) × (Sent method url config body after es
              × After checked Body after r))

  -- `HTTPGetFile`: nothing but an error where there is no temporary file. Otherwise the file is named and
  -- closed, whatever happens, and in between is one request as above.
  abbrev pub FileEnds : String → RequestConfig → List Event → Result Error FileResult → Type 0
  FileEnds url config es r =
      ((es ≡ []) × (r ≡ ok (failed_file "" no_file)))
      ⊎ ((name : String) × ((inner : List Event) × ((r' : Result Error FileResult) × ((es
                  ≡ file_made name ∷ (inner ++ file_closed name ∷ []))
                × ((r ≡ with_name name r')
                    × Ends "GET" url config none true (Written name) inner r')))))
