-- ===== src/Push/Examples.antt =====
-- The theorem on worker/push at a job for APNs, and what two jobs in a row leave in the pool.
use bmw.Base.{
  Post, [], atoi, is_pos, lookup, nat_eq, ok, pos, refl, some, string_eq, suc, true, ℕ, ◌==◌, ◌>>=◌,
  ◌∷◌, ◌≡◌,
}
use bmw.Push.Handler.{Values, handle}
use bmw.Push.Outcomes.{Ends, handle-Ends, trace_of}
use bmw.Push.Types.{Config, Notification, Outside, State, apns_sent, gcm_sent}

abbrev outside : Outside
outside = record {
  World = ℕ;
  new_identifier = λ n. (n, 9);
  has_file = λ name n. true;
  send_apns = λ cert pn n. (suc n, n == 0);
  post_gcm = λ auth body n. (suc n, true);
}

abbrev config : Config
config = record {
  cert_files = ("shop", "shop.pem") ∷ [];
  cert_dir = "certs/";
  gcm_keys = ("shop", "k1") ∷ [];
}

abbrev apns_job : Values
apns_job =
    ("job_type", "1")
    ∷ ("addressee", "t1")
    ∷ ("title", "hello")
    ∷ ("badge", "3")
    ∷ ("push_service", "shop")
    ∷ []

abbrev gcm_job : Values
gcm_job = ("job_type", "2") ∷ ("addressee", "t2") ∷ ("title", "hi") ∷ ("push_service", "other") ∷ []

handle-Ends_example :
    Post
      (trace_of outside config)
      (Ends outside config apns_job "job")
      (handle outside config some "job" apns_job)
handle-Ends_example = handle-Ends outside config some "job" apns_job apns_job refl

abbrev start : State outside
start = record { world = 0; pool = []; trace = [] }

abbrev hello : Notification
hello = record { identifier = 9; device_token = "t1"; alert = "hello"; badge = pos 3 }

apns_job_run : handle outside config some "job" apns_job start ≡ (
  record { world = 1; pool = hello ∷ []; trace = apns_sent "certs/shop.pem" hello true ∷ [] },
  ok tt,
)
unfolding handle atoi lookup string_eq nat_eq is_pos ◌>>=◌
apns_job_run = refl

gcm_job_run :
    (handle outside config some "job" gcm_job start).0.trace
    ≡ gcm_sent "key=" (record { to = "t2"; title = "hi"; message_id = "job"; content = "hi" }) true
      ∷ []
unfolding handle atoi lookup string_eq nat_eq is_pos ◌>>=◌
gcm_job_run = refl
