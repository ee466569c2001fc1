-- ===== src/Recorder/Refines.antt =====
-- The state of worker/recorder/main.go seen as a book of logs follows the book's own rules.
use bmw.Base.{
  Bool, Bool-cases, Map, Option, Option-cases, String, arith, contains-keys, erase, false,
  if◌then◌else◌, inl, inr, insert, keys, lookup, lookup-erase, lookup-insert, lookup-insert_self,
  ltb, nat_eq, none, refl, some, string_eq, true, ℕ, ◌+◌, ◌<>◌, ◌==◌, ◌∙◌, ◌∷◌, ◌≡◌, ◌⊎◌,
}
use bmw.Recorder.Book.{
  Book, add_text, at_topic, drop_log, end_log, log_at, log_of, open_log, start_log, tick_log, view,
}
use bmw.Recorder.Kept.{Fresh}
use bmw.Recorder.Owners.{OneOwner, copies-le, held-erase, held_twice}
use bmw.Recorder.Server.{
  Target, end_recorder, give_up, leave, make_recorder, on_message_received, start_at, start_new,
  stop_topic, sync_file, text_of,
}
use bmw.Recorder.Types.{Outside, Recorder, State}

log_at-insert :
    (file text : String) (texts : Map String String) (q : Option Recorder)
    → ((r : Recorder) → q ≡ some r → (r.file == file) ≡ false)
    → log_at q (insert file text texts) ≡ log_at q texts
log_at-insert file text texts none h = refl
log_at-insert file text texts (some r) h =
    let same : lookup r.file (insert file text texts) ≡ lookup r.file texts =
      lookup-insert r.file file text texts ∙ rw (h r refl) refl in
    rw (same) refl

pub log_at-erase :
    (file : String) (texts : Map String String) (q : Option Recorder)
    → ((r : Recorder) → q ≡ some r → (r.file == file) ≡ false)
    → log_at q (erase file texts) ≡ log_at q texts
log_at-erase file texts none h = refl
log_at-erase file texts (some r) h =
    let same : lookup r.file (erase file texts) ≡ lookup r.file texts =
      lookup-erase r.file file texts ∙ rw (h r refl) refl in
    rw (same) refl

-- Two books with the same logs and topics.
pub book : (b c : Book) → ((t : String) → b.logs t ≡ c.logs t) → b.watched ≡ c.watched → b ≡ c
book b c h w i = record { logs = λ t. h t i; watched = w i }

module _ (s : State) (inv : OneOwner s) where
  -- Another topic has another file.
  others :
      (topic t : String) (r : Recorder)
      → lookup topic s.recorders ≡ some r
      → (t == topic) ≡ false
      → (q : Recorder) → lookup t s.recorders ≡ some q
      → (q.file == r.file) ≡ false
  others topic t r h ne q hq = ground (
    arith,
    inv r.file,
    held_twice r.file topic t r q s.recorders h hq ne,
    copies-le r.file r.file s.texts,
  )

  -- A file that is not there has no recorder.
  unused :
      (file : String)
      → lookup file s.texts ≡ none
      → (t : String) (q : Recorder) → lookup t s.recorders ≡ some q
      → (q.file == file) ≡ false
  unused file h t q hq = ground (arith, inv file, held-erase file t q s.recorders hq)

  end_recorder-view : (topic : String) → view (end_recorder topic s) ≡ drop_log topic (view s)
  unfolding end_recorder view
  end_recorder-view topic = elim (Option-cases (lookup topic s.recorders)) [
    | inl h ↦
        rw (h, end_recorder) (book (view s) (drop_log topic (view s)) (λ t. ground (arith, h)) refl)
    | inr (r, h) ↦
        rw (h, end_recorder)
          (book _ (drop_log topic (view s)) (λ t. ground (arith, lookup-erase t topic s.recorders))
            refl)
  ]

  pub end_log-view : (topic : Option String) → view (stop_topic s topic).0 ≡ end_log (view s) topic
  unfolding stop_topic
  end_log-view none = refl
  end_log-view (some topic) = end_recorder-view topic

  give_up-view :
      (topic : String) (r : Recorder)
      → lookup topic s.recorders ≡ some r
      → view (give_up topic r s)
        ≡ record (drop_log topic (view s)) { watched = leave topic s.watched }
  unfolding give_up view
  give_up-view topic r h =
      book (view (give_up topic r s))
        (record (drop_log topic (view s)) { watched = leave topic s.watched })
        (λ t. elim (Bool-cases (t == topic)) [
          | inl e ↦ rw (lookup-erase t topic s.recorders, e) refl
          | inr ne ↦
              rw (lookup-erase t topic s.recorders, ne)
                (log_at-erase r.file s.texts (lookup t s.recorders) (others topic t r h ne))
        ])
        refl

  sync_file-view :
      (topic : String) (now : ℕ)
      → view (sync_file topic now s)
        ≡ tick_log topic now (view s) (log_at (lookup topic s.recorders) s.texts)
  unfolding sync_file view
  sync_file-view topic now = elim (Option-cases (lookup topic s.recorders)) [
    | inl h ↦ rw (h, sync_file) refl
    | inr (r, h) ↦
        rw (h, sync_file)
          (elim (Bool-cases (ltb now (r.update_at + 300))) [
            | inl recent ↦ rw (recent) refl
            | inr quiet ↦ rw (quiet) (elim (Bool-cases (ltb (r.update_at + 7200) now)) [
              | inl old ↦ rw (old) (give_up-view topic r h)
              | inr young ↦ rw (young) refl
            ])
          ])
  ]

  pub tick-view :
      (watched : Bool) (topic : String) (now : ℕ)
      → view (if watched then sync_file topic now s else s) ≡ (
          if watched
          then tick_log topic now (view s) (log_at (lookup topic s.recorders) s.texts)
          else view s)
  tick-view true topic now = sync_file-view topic now
  tick-view false topic now = refl

  module _ (o : Outside) where
    pub on_message_received-view :
        (topic body : String) (now : ℕ)
        → view (on_message_received o topic body now s)
          ≡ add_text o topic body now (view s) (log_at (lookup topic s.recorders) s.texts)
    unfolding on_message_received view
    on_message_received-view topic body now = elim (Option-cases (lookup topic s.recorders)) [
      | inl h ↦ rw (h, on_message_received) refl
      | inr (r, h) ↦
          let text = text_of r.file s.texts <> (o.written body now <> o.written "\n" now) in
          let later : Recorder = record r { update_at = now } in
          rw (h, on_message_received)
            (book _ (add_text o topic body now (view s) (some (log_of s.texts r)))
              (λ t. elim (Bool-cases (t == topic)) [
                | inl e ↦
                    rw
                      (
                        lookup-insert t topic later s.recorders,
                        e,
                        lookup-insert_self r.file text s.texts,
                      )
                      refl
                | inr ne ↦
                    rw (lookup-insert t topic later s.recorders, ne)
                      (log_at-insert r.file text s.texts (lookup t s.recorders)
                        (others topic t r h ne))
              ])
              refl)
    ]

    make_recorder-view :
        (fresh : Fresh o) (target : Target) (now : ℕ)
        → view (make_recorder o target now s) ≡ record {
          logs =
              at_topic target.topic
                (some (record {
                  key = target.key;
                  bucket = target.bucket;
                  region = target.region;
                  text = "";
                  update_at = now;
                }))
                (view s).logs;
          watched = if o.subscribe target.topic now then target.topic ∷ s.watched else s.watched;
        }
    unfolding make_recorder view
    make_recorder-view fresh target now =
        let file = o.fresh (keys s.texts) now in
        let r : Recorder = record {
          file = file;
          key = target.key;
          bucket = target.bucket;
          region = target.region;
          update_at = now;
        } in
        let gone = contains-keys s.texts file (fresh (keys s.texts) now) in
        book _ _
          (λ t. elim (Bool-cases (t == target.topic)) [
            | inl e ↦
                rw
                  (
                    lookup-insert t target.topic r s.recorders,
                    e,
                    lookup-insert_self file "" s.texts,
                  )
                  refl
            | inr ne ↦
                rw (lookup-insert t target.topic r s.recorders, ne)
                  (log_at-insert file "" s.texts (lookup t s.recorders) (unused file gone t))
          ])
          refl

    start_new-view :
        (fresh : Fresh o) (target : Target) (now : ℕ) (old : Option Recorder)
        → view (start_new o target now s old).0
          ≡ open_log o target now (view s) (log_at old s.texts)
    unfolding start_new view
    start_new-view fresh target now (some r) = refl
    start_new-view fresh target now none = elim (Bool-cases (o.can_make now)) [
      | inl made ↦ rw (made) (make_recorder-view fresh target now)
      | inr full ↦ rw (full) refl
    ]

    pub start_at-view :
        (fresh : Fresh o) (now : ℕ) (target : String ⊎ Target)
        → view (start_at o now s target).0 ≡ start_log o now (view s) target
    unfolding start_at view
    start_at-view fresh now (inl name) = refl
    start_at-view fresh now (inr target) =
        start_new-view fresh target now (lookup target.topic s.recorders)
