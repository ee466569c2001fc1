-- ===== src/Recorder/Server.antt =====
-- The functions of worker/recorder/main.go on its state.
use bmw.Base.{
  Bool, List, Map, Option, String, [], contains, drop, erase, false, get_elem?, if◌then◌else◌, inl,
  inr, insert, keys, lookup, ltb, nat_eq, none, or_zero, some, string_eq, suc, take, true, ℕ, ◌++◌,
  ◌+◌, ◌<>◌, ◌==◌, ◌∷◌, ◌⊎◌,
}
use bmw.Recorder.Types.{
  Input, Outside, Query, Recorder, Reply, State, Stored, Upload, end_request, message, missing,
  no_file, result_ok, silent, start_request, tick, upload_turn,
}

pub record Target : Type 0 where
  pub topic : String
  pub key : String
  pub bucket : String
  pub region : String

-- The query of `startRecorder`, or the name that is missing first.
unfoldable pub start_target : Query → String ⊎ Target
start_target query = elim (lookup "sub_topic" query) [
  | none ↦ inl "sub_topic"
  | some topic ↦ elim (lookup "key" query) [
    | none ↦ inl "key"
    | some key ↦ elim (lookup "bucket" query) [
      | none ↦ inl "bucket"
      | some bucket ↦ elim (lookup "region" query) [
        | none ↦ inl "region"
        | some region ↦ inr (record { topic = topic; key = key; bucket = bucket; region = region })
      ]
    ]
  ]
]

-- A goroutine of a topic ends; another one of the topic stays.
unfoldable pub leave : String → List String → List String
leave topic [] = []
leave topic (t ∷ ts) = if t == topic then ts else t ∷ leave topic ts

abbrev pub text_of : String → Map String String → String
text_of file texts = or_zero (lookup file texts) ""

abbrev pub queue_upload : Recorder → Bool → List Upload → List Upload
queue_upload r remove us =
    us
    ++ record { file = r.file; key = r.key; bucket = r.bucket; region = r.region; remove = remove }
      ∷ []

-- `stopRecorder` from the look at `recorders` on. An error of `Unsubscribe` is only logged.
unfoldable pub end_recorder : String → State → State
end_recorder topic s = elim (lookup topic s.recorders) [
  | none ↦ s
  | some r ↦ record s {
    recorders = erase topic s.recorders;
    uploads = queue_upload r true s.uploads;
  }
]

unfoldable pub stop_topic : State → Option String → State × Reply
unfolding end_recorder
stop_topic s none = (s, missing "sub_topic")
stop_topic s (some topic) = (end_recorder topic s, result_ok)

unfoldable pub stop_recorder : Query → State → State × Reply
unfolding stop_topic
stop_recorder query s = stop_topic s (lookup "sub_topic" query)

-- The end of `syncFile` for a topic without messages for two hours.
unfoldable pub give_up : String → Recorder → State → State
unfolding leave
give_up topic r s = record s {
  recorders = erase topic s.recorders;
  texts = erase r.file s.texts;
  watched = leave topic s.watched;
}

-- One tick of `syncFile`.
unfoldable pub sync_file : String → ℕ → State → State
unfolding give_up leave
sync_file topic now s = elim (lookup topic s.recorders) [
  | none ↦ record s { watched = leave topic s.watched }
  | some r ↦
      if ltb now (r.update_at + 300)
      then record s { uploads = queue_upload r false s.uploads }
      else if ltb (r.update_at + 7200) now
      then give_up topic r s
      else s
]

module _ (o : Outside) where
  -- `onMessageReceived`. Errors of both writes are only logged.
  unfoldable pub on_message_received : String → String → ℕ → State → State
  on_message_received topic body now s = elim (lookup topic s.recorders) [
    | none ↦ s
    | some r ↦ record s {
      recorders = insert topic (record r { update_at = now }) s.recorders;
      texts =
          insert r.file (text_of r.file s.texts <> (o.written body now <> o.written "\n" now))
            s.texts;
    }
  ]

  -- The part of `startRecorder` that makes a recorder, and the `syncFile` of a subscribed one.
  unfoldable pub make_recorder : Target → ℕ → State → State
  make_recorder target now s =
      let file = o.fresh (keys s.texts) now in
      record s {
        recorders =
            insert target.topic
              (record {
                file = file;
                key = target.key;
                bucket = target.bucket;
                region = target.region;
                update_at = now;
              })
              s.recorders;
        texts = insert file "" s.texts;
        watched = if o.subscribe target.topic now then target.topic ∷ s.watched else s.watched;
      }

  -- A topic that has a recorder is answered nothing.
  unfoldable pub start_new : Target → ℕ → State → Option Recorder → State × Reply
  unfolding make_recorder
  start_new target now s (some r) = (s, silent)
  start_new target now s none =
      if o.can_make now then (make_recorder target now s, result_ok) else (s, no_file)

  unfoldable pub start_at : ℕ → State → String ⊎ Target → State × Reply
  unfolding start_new
  start_at now s (inl name) = (s, missing name)
  start_at now s (inr target) = start_new target now s (lookup target.topic s.recorders)

  unfoldable pub start_recorder : Query → ℕ → State → State × Reply
  unfolding start_target start_at
  start_recorder query now s = start_at now s (start_target query)

  -- `uploadFile`. Its turn is when it reads the file and the storage answers; it removes the file only
  -- then. `stored` is the log of the uploads made: a later one overwrites an earlier one of its key.
  unfoldable pub upload_file : Upload → ℕ → State → State
  upload_file u now s = elim (lookup u.file s.texts) [
    | none ↦ s
    | some text ↦
        let item : Stored = record {
          key = u.key;
          bucket = u.bucket;
          region = u.region;
          text = text;
        } in
        if o.upload item now
        then record s {
          stored = s.stored ++ item ∷ [];
          texts = if u.remove then erase u.file s.texts else s.texts;
        }
        else s
  ]

  unfoldable pub next_upload : ℕ → ℕ → State → State
  unfolding upload_file
  next_upload n now s = elim (get_elem? s.uploads n) [
    | none ↦ s
    | some u ↦ upload_file u now (record s { uploads = take n s.uploads ++ drop (suc n) s.uploads })
  ]

  unfoldable pub serve : Input → State → State
  unfolding on_message_received start_recorder stop_recorder sync_file next_upload
  serve (message topic body now) s = on_message_received topic body now s
  serve (start_request query now) s = (start_recorder query now s).0
  serve (end_request query) s = (stop_recorder query s).0
  serve (tick topic now) s = if contains s.watched topic then sync_file topic now s else s
  serve (upload_turn n now) s = next_upload n now s

  unfoldable pub serve_all : List Input → State → State
  unfolding serve
  serve_all [] s = s
  serve_all (i ∷ is) s = serve_all is (serve i s)
