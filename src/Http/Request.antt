-- ===== src/Http/Request.antt =====
-- `NewHTTPReqeust` and `NewReqeustConfig` of lib/http.go, and what a request asks.
use bmw.Base.{
  Bool-cases, Distinct, List, Map, Option, Option-cases, String, [], ap, contains-keys, eq_of_==,
  if◌then◌else◌, inl, inr, insert, keys, lookup, lookup-insert, map, nat_eq, none, refl, some,
  string_eq, ℕ, ◌==◌, ◌∙◌, ◌∷◌, ◌≡◌, ◌⊎◌,
}
use bmw.Http.Types.{Outside, Request, RequestConfig}

-- `if timeout <= 0`, of 16 bits without a sign.
unfoldable pub new_request_config :
    Option (Map String String)
    → Option (Map String String)
    → ℕ
    → Option String
    → Option ℕ
    → RequestConfig
new_request_config params headers timeout body client = record {
  params = params;
  headers = headers;
  timeout = if timeout == 0 then 10 else timeout;
  body = body;
  client = client;
}

-- The loop over the queries.
unfoldable pub set_queries : Map String String → Map String (List String) → Map String (List String)
set_queries [] query = query
set_queries ((key, val) ∷ rest) query = set_queries rest (insert key (val ∷ []) query)

module _ (o : Outside) where
  -- The loop over the headers.
  unfoldable pub set_headers :
      Map String String → Map String (List String) → Map String (List String)
  set_headers [] header = header
  set_headers ((key, val) ∷ rest) header =
      set_headers rest (insert (o.canonical key) (val ∷ []) header)

  abbrev pub query_with : Option (Map String String) → String → String
  query_with none raw = raw
  query_with (some queries) raw = o.encode (set_queries queries (o.query raw))

  abbrev pub header_with :
      Option (Map String String) → Map String (List String) → Map String (List String)
  header_with none header = header
  header_with (some headers) header = set_headers headers header

  abbrev pub body_with : Option String → Option String → Option String
  body_with none old = old
  body_with (some body) old = some body

  -- `NewHTTPReqeust`
  unfoldable pub new_http_request :
      String
      → String
      → Option (Map String String)
      → Option (Map String String)
      → Option String
      → Option Request
  unfolding set_queries set_headers
  new_http_request method url queries headers body = elim (o.new_request method url) [
    | none ↦ none
    | some req ↦ some (record req {
      raw_query = query_with queries req.raw_query;
      header = header_with headers req.header;
      body = body_with body req.body;
    })
  ]

  -- The values that a map of single values has.
  abbrev pub one : Option String → Option (List String) → Option (List String)
  one none old = old
  one (some val) old = some (val ∷ [])

  abbrev pub canonical_keys : Map String String → Map String String
  canonical_keys headers = map (λ (key, val). (o.canonical key, val)) headers

  -- The query has the given queries, and what else stood in the URL.
  abbrev pub AsksQuery : Option (Map String String) → String → String → Type 0
  AsksQuery none plain raw = raw ≡ plain
  AsksQuery (some queries) plain raw =
      (query : Map String (List String)) × ((raw ≡ o.encode query)
        × ((key : String)
            → lookup key query ≡ one (lookup key queries) (lookup key (o.query plain))))

  abbrev pub AsksHeader :
      Option (Map String String) → Map String (List String) → Map String (List String) → Type 0
  AsksHeader none plain header = header ≡ plain
  AsksHeader (some headers) plain header =
      (key : String)
      → lookup key header ≡ one (lookup key (canonical_keys headers)) (lookup key plain)

  -- What the request of a configuration asks.
  pub record Asks (method url : String) (config : RequestConfig) (body : Option String)
      (req : Request) : Type 0 where
    pub plain : Request
    pub made : o.new_request method url ≡ some plain
    pub target : (req.method ≡ plain.method) × (req.address ≡ plain.address)
    pub queries : AsksQuery config.params plain.raw_query req.raw_query
    pub header : AsksHeader config.headers plain.header req.header
    pub content : body_with body plain.body ≡ req.body

  -- The keys of a map of Go are distinct; those of the headers also stay so.
  abbrev pub DistinctKeys : Option (Map String String) → Type 0
  DistinctKeys none = Unit {0}
  DistinctKeys (some m) = Distinct (keys m)

  abbrev pub DistinctHeaders : Option (Map String String) → Type 0
  DistinctHeaders none = Unit {0}
  DistinctHeaders (some m) = Distinct (keys (canonical_keys m))

  lookup-set_queries :
      (m : Map String String) (old : Map String (List String)) (key : String)
      → Distinct (keys m)
      → lookup key (set_queries m old) ≡ one (lookup key m) (lookup key old)
  unfolding set_queries lookup keys
  lookup-set_queries [] old key h = refl
  lookup-set_queries ((k, v) ∷ m) old key h =
      lookup-set_queries m (insert k (v ∷ []) old) key h.1 ∙ elim (Bool-cases (key == k)) [
        | inl same ↦
            let e : key ≡ k = eq_of_== key k same in
            rw (lookup-insert key k (v ∷ []) old, same, e, contains-keys m k h.0) refl
        | inr other ↦ rw (lookup-insert key k (v ∷ []) old, other) refl
      ]

  set_headers-canonical :
      (m : Map String String) (old : Map String (List String))
      → set_headers m old ≡ set_queries (canonical_keys m) old
  unfolding set_headers set_queries
  set_headers-canonical [] old = refl
  set_headers-canonical ((k, v) ∷ m) old =
      set_headers-canonical m (insert (o.canonical k) (v ∷ []) old)

  query_with-AsksQuery :
      (params : Option (Map String String)) (plain : String)
      → DistinctKeys params
      → AsksQuery params plain (query_with params plain)
  query_with-AsksQuery none plain h = refl
  query_with-AsksQuery (some m) plain h =
      let old = o.query plain in (set_queries m old, (refl, λ key. lookup-set_queries m old key h))

  header_with-AsksHeader :
      (headers : Option (Map String String)) (plain : Map String (List String))
      → DistinctHeaders headers
      → AsksHeader headers plain (header_with headers plain)
  header_with-AsksHeader none plain h = refl
  header_with-AsksHeader (some m) plain h = λ key.
      ap (lookup key) (set_headers-canonical m plain)
      ∙ lookup-set_queries (canonical_keys m) plain key h

  -- Every request that is made asks what its arguments say.
  pub new_http_request-Asks :
      (method url : String) (config : RequestConfig) (body : Option String)
      → DistinctKeys config.params
      → DistinctHeaders config.headers
      → ((new_http_request method url config.params config.headers body ≡ none)
          × (o.new_request method url ≡ none))
        ⊎ ((req : Request) × ((new_http_request method url config.params config.headers body
                ≡ some req)
              × Asks method url config body req))
  unfolding new_http_request
  new_http_request-Asks method url config body hq hh =
      elim (Option-cases (o.new_request method url)) [
        | inl e ↦ inl (rw (e, new_http_request) refl, e)
        | inr (plain, e) ↦ inr (
          _,
          (
            rw (e, new_http_request) refl,
            record {
              plain = plain;
              made = e;
              target = (refl, refl);
              queries = query_with-AsksQuery config.params plain.raw_query hq;
              header = header_with-AsksHeader config.headers plain.header hh;
              content = refl;
            },
          ),
        )
      ]
