-- ===== src/Http/Types.antt =====
-- The data of lib/http.go, and what it calls outside. The state of a call is the world outside, the
-- `Timeout` of each client in seconds, and a trace of what was done.
use bmw.Base.{Bool, Exec, List, Map, Option, String, [], nat_eq, string_eq, ℕ, ℤ, ◌++◌, ◌∷◌}

-- `http.Request`, as far as it is set.
pub record Request : Type 0 where
  pub method : String
  pub address : String
  pub raw_query : String
  pub header : Map String (List String)
  pub body : Option String

-- The client of a configuration is a number, and 0 is `http.DefaultClient`. A nil map is `none`.
pub record RequestConfig : Type 0 where
  pub params : Option (Map String String)
  pub headers : Option (Map String String)
  pub timeout : ℕ
  pub body : Option String
  pub client : Option ℕ

pub record Response : Type 0 where
  pub status_code : ℕ
  pub content_type : String
  pub content_length : String

pub record Outside : Type 1 where
  pub World : Type 0
  -- `http.NewRequest` without a body, of a method and a URL.
  pub new_request : String → String → Option Request
  -- `Query` of a URL, and `Encode`.
  pub query : String → Map String (List String)
  pub encode : Map String (List String) → String
  -- The key that `Header.Set` uses.
  pub canonical : String → String
  -- `Do` of a client with a timeout; an error is `none`.
  pub send : ℕ → ℕ → Request → World → World × Option Response
  -- `ReadAll` of the body of the last answer; an error is `none`.
  pub read_all : World → World × Option String
  -- `ioutil.TempFile`
  pub temp_file : World → World × Option String
  -- `WriteTo` of the body of the last answer to a file; `false` is an error.
  pub write_to : String → World → World × Bool
  -- `strconv.ParseInt(…, 10, 64)`, without its error.
  pub parse_int : String → ℤ

-- A request of a client with its timeout, an answer whose body is open, what was read of the body, the
-- close of the body, and a file that was made, written from the body or closed.
pub data Event : Type 0 where
  sent : ℕ → ℕ → Request → Event
  opened : Response → Event
  body_read : Option String → Event
  closed : Event
  file_made : String → Event
  file_written : String → Bool → Event
  file_closed : String → Event

pub data Error : Type 0 where
  bad_request no_answer : Error
  bad_status : ℕ → Error
  unreadable no_file : Error

module _ (o : Outside) where
  pub record State : Type 0 where
    pub world : o.World
    pub timeouts : Map ℕ ℕ
    pub trace : List Event

  abbrev pub Run : Type 0 → Type 0
  Run A = Exec State Error A

  abbrev pub note : Event → State → State
  note e s = record s { trace = s.trace ++ e ∷ [] }
