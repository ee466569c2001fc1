-- ===== src/Http/Examples.antt =====
-- The theorem on lib/http.go with a server that answers 200 to one address and 404 to all others.
use bmw.Base.{
  Post, [], atoi, fails, false, if◌then◌else◌, insert, keys, lookup, nat_eq, none, refl, some,
  string_eq, suc, true, ℕ, ◌==◌, ◌>>=◌, ◌∷◌, ◌≡◌,
}
use bmw.Http.Ends.{http_get-Ends}
use bmw.Http.Fetch.{do_request, http_get, http_get_file, http_post, make_request}
use bmw.Http.Request.{new_http_request, new_request_config, set_headers}
use bmw.Http.Traces.{Ends, FileEnds, ReadBody, trace_of}
use bmw.Http.Types.{Outside, RequestConfig, State, bad_status, opened, sent}

abbrev server : Outside
server = record {
  World = ℕ;
  new_request = λ method url.
      some (record { method = method; address = url; raw_query = ""; header = []; body = none });
  query = λ raw. [];
  encode = λ query. "q";
  canonical = λ key. key;
  send = λ client timeout req w. (
    suc w,
    some (record {
      status_code = if req.address == "a" then 200 else 404;
      content_type = "text/plain";
      content_length = "2";
    }),
  );
  read_all = λ w. (suc w, some "ok");
  temp_file = λ w. (suc w, some "dl1");
  write_to = λ name w. (suc w, true);
  parse_int = λ s. (atoi s).0;
}

abbrev config_of_test : RequestConfig
config_of_test = record {
  params = some (("k", "v") ∷ []);
  headers = some (("App-Id", "7") ∷ []);
  timeout = 10;
  body = none;
  client = none;
}

abbrev idle : State server
idle = record { world = 0; timeouts = []; trace = [] }

default_timeout :
    new_request_config (some (("k", "v") ∷ [])) (some (("App-Id", "7") ∷ [])) 0 none none
    ≡ config_of_test
unfolding new_request_config nat_eq
default_timeout = refl

-- A status of 404 leaves the body open.
refused_status :
    ((http_get server "b" config_of_test idle).1 ≡ fails (bad_status 404))
    × ((http_get server "b" config_of_test idle).0.trace
        ≡ sent 0 10 (record {
          method = "GET";
          address = "b";
          raw_query = "q";
          header = ("App-Id", "7" ∷ []) ∷ [];
          body = none;
        })
          ∷ opened (record { status_code = 404; content_type = "text/plain"; content_length = "2" })
          ∷ [])
unfolding http_get make_request do_request new_http_request insert lookup set_headers ◌>>=◌ nat_eq
    string_eq
refused_status = (refl, refl)

http_get-Ends_example :
    Post
      (trace_of server)
      (Ends server "GET" "a" config_of_test none true (λ _. ReadBody server))
      (http_get server "a" config_of_test)
    × (Post
          (trace_of server)
          (Ends server "POST" "a" config_of_test none false (λ _. ReadBody server))
          (http_post server "a" config_of_test)
        × Post
            (trace_of server)
            (FileEnds server "a" config_of_test)
            (http_get_file server "a" config_of_test))
unfolding keys
http_get-Ends_example = http_get-Ends server "a" config_of_test (refl, tt) (refl, tt)
