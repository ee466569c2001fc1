-- ===== src/Push/Services.antt =====
-- `send` of worker/push/apns.go and of worker/push/gcm.go.
use bmw.Base.{
  Bool, List, String, [], fail, fails, false, if◌then◌else◌, is_pos, lookup, nat_eq, none, or_zero,
  pos, pure, some, string_eq, true, ℕ, ◌<>◌, ◌>>=◌, ◌∷◌,
}
use bmw.Push.Types.{
  Body, Config, Error, Notification, Outside, PushPayload, Run, apns_sent, attempt, gcm_sent,
  other_error, retry_error,
}

abbrev pub type_apns_job : ℕ
type_apns_job = 1

abbrev pub type_gcm_job : ℕ
type_gcm_job = 2

module _ (o : Outside) (cfg : Config) where
  -- `pushPool.Get`, which makes a notification where the pool is empty.
  unfoldable pub take_pooled :
      List Notification → o.World → o.World × (Notification × List Notification)
  take_pooled [] w =
      let (w', identifier) = o.new_identifier w in
      (w', (record { identifier = identifier; device_token = ""; alert = ""; badge = pos 0 }, []))
  take_pooled (pn ∷ rest) w = (w, (pn, rest))

  -- The fields that `send` sets; the identifier stays.
  unfoldable pub fill : PushPayload → Notification → Notification
  fill job pn = record pn { device_token = job.addressee; alert = job.title; badge = job.badge }

  -- `pushPool.Get`, the fields, the rest of `send`, and the deferred `pushPool.Put`.
  unfoldable pub with_pooled : PushPayload → (Notification → Run o (Unit {0})) → Run o (Unit {0})
  unfolding take_pooled fill
  with_pooled job rest s =
      let (w, (pn, pool)) = take_pooled s.pool s.world in
      let filled = fill job pn in
      let (s', r) = rest filled (record s { world = w; pool = pool }) in
      (record s' { pool = filled ∷ s'.pool }, r)

  unfoldable pub check_answer : Error → Bool → Run o (Unit {0})
  check_answer e true = pure tt
  check_answer e false = fail e

  -- `send` of apns.go after the pool: the certificate, and the message.
  unfoldable pub send_filled : PushPayload → Notification → Run o (Unit {0})
  unfolding attempt check_answer
  send_filled job pn = elim (lookup job.push_service cfg.cert_files) [
    | none ↦ fail other_error
    | some file ↦ λ s.
        let cert = cfg.cert_dir <> file in
        if o.has_file cert s.world
        then (attempt o (o.send_apns cert pn) (apns_sent cert pn) >>= check_answer retry_error) s
        else (s, fails other_error)
  ]

  -- `send` of apns.go.
  unfoldable pub apns_send : PushPayload → Run o (Unit {0})
  unfolding with_pooled send_filled
  apns_send job =
      if is_pos type_apns_job job.job_type
      then with_pooled job (send_filled job)
      else fail other_error

  unfoldable pub gcm_body : PushPayload → Body
  gcm_body job = record {
    to = job.addressee;
    title = job.title;
    message_id = job.id;
    content = job.title;
  }

  -- The key of a service, or nothing: an unknown service is only logged.
  unfoldable pub gcm_key : PushPayload → String
  gcm_key job = or_zero (lookup job.push_service cfg.gcm_keys) ""

  -- `send` of gcm.go.
  unfoldable pub gcm_send : PushPayload → Run o (Unit {0})
  unfolding attempt gcm_body gcm_key check_answer
  gcm_send job =
      let auth = "key=" <> gcm_key job in
      if is_pos type_gcm_job job.job_type
      then attempt o (o.post_gcm auth (gcm_body job)) (gcm_sent auth (gcm_body job))
        >>= check_answer other_error
      else fail other_error
