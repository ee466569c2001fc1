-- ===== src/Recorder/Book.antt =====
-- What the recorder promises, without files and goroutines: a log for each topic that is recorded, and
-- the topics that are watched.
use bmw.Base.{
  List, Map, Option, String, [], contains, if◌then◌else◌, inl, inr, lookup, ltb, nat_eq, none, some,
  string_eq, ℕ, ◌+◌, ◌<>◌, ◌==◌, ◌∷◌, ◌⊎◌,
}
use bmw.Recorder.Server.{Target, leave, start_target, text_of}
use bmw.Recorder.Types.{
  Input, Outside, Recorder, State, end_request, message, start_request, tick, upload_turn,
}

pub record Log : Type 0 where
  pub key : String
  pub bucket : String
  pub region : String
  pub text : String
  pub update_at : ℕ

pub record Book : Type 0 where
  pub logs : String → Option Log
  pub watched : List String

abbrev pub at_topic : String → Option Log → (String → Option Log) → String → Option Log
at_topic topic l logs t = if t == topic then l else logs t

abbrev pub drop_log : String → Book → Book
drop_log topic b = record b { logs = at_topic topic none b.logs }

abbrev pub end_log : Book → Option String → Book
end_log b none = b
end_log b (some topic) = drop_log topic b

abbrev pub tick_log : String → ℕ → Book → Option Log → Book
tick_log topic now b none = record b { watched = leave topic b.watched }
tick_log topic now b (some l) =
    if ltb now (l.update_at + 300)
    then b
    else if ltb (l.update_at + 7200) now
    then record (drop_log topic b) { watched = leave topic b.watched }
    else b

module _ (o : Outside) where
  abbrev pub add_text : String → String → ℕ → Book → Option Log → Book
  add_text topic body now b none = b
  add_text topic body now b (some l) = record b {
    logs =
        at_topic topic
          (some (record l {
            text = l.text <> (o.written body now <> o.written "\n" now);
            update_at = now;
          }))
          b.logs;
  }

  abbrev pub open_log : Target → ℕ → Book → Option Log → Book
  open_log target now b (some l) = b
  open_log target now b none =
      if o.can_make now
      then record {
        logs =
            at_topic target.topic
              (some (record {
                key = target.key;
                bucket = target.bucket;
                region = target.region;
                text = "";
                update_at = now;
              }))
              b.logs;
        watched = if o.subscribe target.topic now then target.topic ∷ b.watched else b.watched;
      }
      else b

  abbrev pub start_log : ℕ → Book → String ⊎ Target → Book
  start_log now b (inl name) = b
  start_log now b (inr target) = open_log target now b (b.logs target.topic)

  unfoldable pub spec : Input → Book → Book
  unfolding start_target
  spec (message topic body now) b = add_text topic body now b (b.logs topic)
  spec (start_request query now) b = start_log now b (start_target query)
  spec (end_request query) b = end_log b (lookup "sub_topic" query)
  spec (tick topic now) b =
      if contains b.watched topic then tick_log topic now b (b.logs topic) else b
  spec (upload_turn n now) b = b

  unfoldable pub spec_all : List Input → Book → Book
  unfolding spec
  spec_all [] b = b
  spec_all (i ∷ is) b = spec_all is (spec i b)

-- The log of a recorder is what its file holds.
abbrev pub log_of : Map String String → Recorder → Log
log_of texts r = record {
  key = r.key;
  bucket = r.bucket;
  region = r.region;
  text = text_of r.file texts;
  update_at = r.update_at;
}

abbrev pub log_at : Option Recorder → Map String String → Option Log
log_at none texts = none
log_at (some r) texts = some (log_of texts r)

unfoldable pub view : State → Book
view s = record { logs = λ topic. log_at (lookup topic s.recorders) s.texts; watched = s.watched }
