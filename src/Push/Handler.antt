-- ===== src/Push/Handler.antt =====
-- `Handle` and `bindValue` of worker/push/main.go. `url.ParseQuery` is an argument.
use bmw.Base.{
  Map, Option, String, aborts, atoi, fail, if◌then◌else◌, is_pos, lookup, nat_eq, none, or_zero,
  pure, some, string_eq,
}
use bmw.Push.Services.{apns_send, gcm_send, type_apns_job, type_gcm_job}
use bmw.Push.Types.{Config, Outside, PushPayload, Run, other_error}

-- A parsed query: `Get` of a missing name is empty.
abbrev pub Values : Type 0
Values = Map String String

abbrev pub get : String → Values → String
get name values = or_zero (lookup name values) ""

-- `bindValue`; a nil payload is `none`. The error of `badge` is dropped.
unfoldable pub bind_value : Values → String → Option PushPayload
bind_value values id =
    let (job_type, bad) = atoi (get "job_type" values) in
    if bad
    then none
    else some (record {
      id = id;
      job_type = job_type;
      addressee = get "addressee" values;
      title = get "title" values;
      badge = (atoi (get "badge" values)).0;
      sound = get "sound" values;
      push_service = get "push_service" values;
    })

module _ (o : Outside) (cfg : Config) where
  -- The switch of `Handle`; another type is only logged.
  unfoldable pub send_payload : PushPayload → Run o (Unit {0})
  unfolding apns_send gcm_send
  send_payload job =
      if is_pos type_apns_job job.job_type
      then apns_send o cfg job
      else if is_pos type_gcm_job job.job_type
      then gcm_send o cfg job
      else pure tt

  -- `Handle` reads the payload also where it is nil.
  unfoldable pub handle {ℓ} :
      {Bytes : Type ℓ} → (Bytes → Option Values) → String → Bytes → Run o (Unit {0})
  unfolding bind_value send_payload
  handle parse_query id payload = elim (parse_query payload) [
    | none ↦ fail other_error
    | some values ↦ elim (bind_value values id) [
      | none ↦ (λ s. (s, aborts))
      | some job ↦ send_payload job
    ]
  ]
