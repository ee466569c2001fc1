-- ===== src/Push/Types.antt =====
-- The data of worker/push and what it calls outside. The state of a call is the world outside and a
-- trace of what was sent, with whether it was accepted.
use bmw.Base.{Bool, Exec, List, Map, String, [], nat_eq, ok, string_eq, ℕ, ℤ, ◌++◌, ◌∷◌}

pub record PushPayload : Type 0 where
  pub id : String
  pub job_type : ℤ
  pub addressee : String
  pub title : String
  pub badge : ℤ
  pub sound : String
  pub push_service : String

-- A `PushNotification` of the pool: its identifier, the token of the device, and the alert and the badge.
pub record Notification : Type 0 where
  pub identifier : ℕ
  pub device_token : String
  pub alert : String
  pub badge : ℤ

-- The body that goes to GCM, with `bodyData` and `dataMessage`.
pub record Body : Type 0 where
  pub to : String
  pub title : String
  pub message_id : String
  pub content : String

-- `certFiles`, `certDir` and `gcmKeys`.
pub record Config : Type 0 where
  pub cert_files : Map String String
  pub cert_dir : String
  pub gcm_keys : Map String String

pub record Outside : Type 1 where
  pub World : Type 0
  -- The identifier that `NewPushNotification` chooses.
  pub new_identifier : World → World × ℕ
  -- `os.Stat`; `false` is an error.
  pub has_file : String → World → Bool
  -- `Send` of a client with a certificate; `false` is an error of the response.
  pub send_apns : String → Notification → World → World × Bool
  -- `lib.HTTPPost` to GCM with an Authorization header; `false` is an error.
  pub post_gcm : String → Body → World → World × Bool

pub data Event : Type 0 where
  apns_sent : String → Notification → Bool → Event
  gcm_sent : String → Body → Bool → Event

-- What `Handle` returns: `RetryError` or another error.
pub data Error : Type 0 where
  retry_error other_error : Error

module _ (o : Outside) where
  -- The pool of notifications is part of the state: a notification comes back as it was left.
  pub record State : Type 0 where
    pub world : o.World
    pub pool : List Notification
    pub trace : List Event

  abbrev pub Run : Type 0 → Type 0
  Run A = Exec State Error A

  -- A call outside, noted with its answer.
  unfoldable pub attempt : (o.World → o.World × Bool) → (Bool → Event) → Run Bool
  attempt f event s =
      let (w, done) = f s.world in
      (record s { world = w; trace = s.trace ++ event done ∷ [] }, ok done)
