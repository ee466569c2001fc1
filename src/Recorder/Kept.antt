-- ===== src/Recorder/Kept.antt =====
-- Every input of worker/recorder/main.go keeps one owner for each temporary file.
use bmw.Base.{
  Bool, Bool-cases, List, Option, Option-cases, String, [], arith, contains, contains-keys, drop,
  false, get_elem?, if◌then◌else◌, inl, inr, keys, lookup, ltb, nat_eq, none, refl, some, string_eq,
  suc, take, true, ℕ, ◌&&◌, ◌++◌, ◌+◌, ◌<>◌, ◌==◌, ◌≡◌, ◌≤◌, ◌⊎◌,
}
use bmw.Recorder.Owners.{
  OneOwner, copies, copies-erase, copies-insert, copies-le, held-erase, held-insert_new,
  held-insert_same, one_if, owners, removals, removals-append, removals-take,
}
use bmw.Recorder.Server.{
  Target, end_recorder, give_up, make_recorder, next_upload, on_message_received, queue_upload,
  serve, start_at, start_new, start_recorder, start_target, stop_recorder, stop_topic, sync_file,
  text_of, upload_file,
}
use bmw.Recorder.Types.{
  Input, Outside, Recorder, State, Upload, end_request, message, start_request, tick, upload_turn,
}

-- What `ioutil.TempFile` documents: the name of a new file is not taken.
abbrev pub Fresh : Outside → Type 0
Fresh o = (names : List String) (now : ℕ) → contains names (o.fresh names now) ≡ false

pub end_recorder-OneOwner :
    (topic : String) (s : State) → OneOwner s → OneOwner (end_recorder topic s)
unfolding end_recorder removals
end_recorder-OneOwner topic s inv = elim (Option-cases (lookup topic s.recorders)) [
  | inl h ↦ rw (h, end_recorder) inv
  | inr (r, h) ↦
      rw (h, end_recorder)
        (λ n. omega (
          arith,
          inv n,
          held-erase n topic r s.recorders h,
          removals-append n s.uploads (queue_upload r true []),
        ))
]

give_up-OneOwner :
    (topic : String) (r : Recorder) (s : State)
    → lookup topic s.recorders ≡ some r
    → OneOwner s
    → OneOwner (give_up topic r s)
unfolding give_up
give_up-OneOwner topic r s h inv n = ground (
  arith,
  inv n,
  held-erase n topic r s.recorders h,
  copies-erase n r.file s.texts,
  copies-le n r.file s.texts,
)

sync_file-OneOwner :
    (topic : String) (now : ℕ) (s : State) → OneOwner s → OneOwner (sync_file topic now s)
unfolding sync_file removals
sync_file-OneOwner topic now s inv = elim (Option-cases (lookup topic s.recorders)) [
  | inl h ↦ rw (h, sync_file) inv
  | inr (r, h) ↦
      let queued : OneOwner (record s { uploads = queue_upload r false s.uploads }) =
        λ n. omega (arith, inv n, removals-append n s.uploads (queue_upload r false [])) in
      rw (h, sync_file)
        (elim (Bool-cases (ltb now (r.update_at + 300))) [
          | inl recent ↦ rw (recent) queued
          | inr quiet ↦ rw (quiet) (elim (Bool-cases (ltb (r.update_at + 7200) now)) [
            | inl old ↦ rw (old) (give_up-OneOwner topic r s h inv)
            | inr young ↦ rw (young) inv
          ])
        ])
]

module _ (o : Outside) where
  on_message_received-OneOwner :
      (topic body : String) (now : ℕ) (s : State)
      → OneOwner s
      → OneOwner (on_message_received o topic body now s)
  unfolding on_message_received
  on_message_received-OneOwner topic body now s inv =
      elim (Option-cases (lookup topic s.recorders)) [
        | inl h ↦ rw (h, on_message_received) inv
        | inr (r, h) ↦
            rw (h, on_message_received)
              (λ n.
                let later : Recorder = record r { update_at = now } in
                let text = text_of r.file s.texts <> (o.written body now <> o.written "\n" now) in
                ground (
                  arith,
                  inv n,
                  held-insert_same n topic later r s.recorders h refl,
                  copies-insert n r.file s.texts text,
                  copies-le n r.file s.texts,
                ))
      ]

  make_recorder-OneOwner :
      (fresh : Fresh o) (target : Target) (now : ℕ) (s : State)
      → lookup target.topic s.recorders ≡ none
      → OneOwner s
      → OneOwner (make_recorder o target now s)
  unfolding make_recorder
  make_recorder-OneOwner fresh target now s h inv n =
      let file = o.fresh (keys s.texts) now in
      let r : Recorder = record {
        file = file;
        key = target.key;
        bucket = target.bucket;
        region = target.region;
        update_at = now;
      } in
      ground (
        arith,
        inv n,
        held-insert_new n target.topic r s.recorders h,
        copies-insert n file s.texts "",
        contains-keys s.texts file (fresh (keys s.texts) now),
      )

  start_at-OneOwner :
      (fresh : Fresh o) (target : String ⊎ Target) (now : ℕ) (s : State)
      → OneOwner s
      → OneOwner (start_at o now s target).0
  unfolding start_at start_new
  start_at-OneOwner fresh (inl name) now s inv = inv
  start_at-OneOwner fresh (inr target) now s inv =
      elim (Option-cases (lookup target.topic s.recorders)) [
        | inr (r, h) ↦ rw (h) inv
        | inl h ↦ rw (h) (elim (Bool-cases (o.can_make now)) [
          | inl made ↦ rw (made) (make_recorder-OneOwner fresh target now s h inv)
          | inr full ↦ rw (full) inv
        ])
      ]

  -- An upload that removes its file is an owner of it.
  upload_file-OneOwner :
      (u : Upload) (now : ℕ) (s : State)
      → ((n : String) → one_if (u.remove && u.file == n) + owners n s ≤ copies n s.texts)
      → OneOwner (upload_file o u now s)
  unfolding upload_file
  upload_file-OneOwner u now s inv n =
      ground (arith, inv n, copies-erase n u.file s.texts, copies-le n u.file s.texts)

  next_upload-OneOwner : (n now : ℕ) (s : State) → OneOwner s → OneOwner (next_upload o n now s)
  unfolding next_upload
  next_upload-OneOwner i now s inv = elim (Option-cases (get_elem? s.uploads i)) [
    | inl h ↦ rw (h, next_upload) inv
    | inr (u, h) ↦
        rw (h, next_upload)
          (upload_file-OneOwner u now
            (record s { uploads = take i s.uploads ++ drop (suc i) s.uploads })
            (λ n. omega (arith, inv n, removals-take n i s.uploads u h)))
  ]

  stop_topic-OneOwner :
      (topic : Option String) (s : State) → OneOwner s → OneOwner (stop_topic s topic).0
  unfolding stop_topic
  stop_topic-OneOwner none s inv = inv
  stop_topic-OneOwner (some topic) s inv = end_recorder-OneOwner topic s inv

  tick-OneOwner :
      (watched : Bool) (topic : String) (now : ℕ) (s : State)
      → OneOwner s
      → OneOwner (if watched then sync_file topic now s else s)
  tick-OneOwner true topic now s inv = sync_file-OneOwner topic now s inv
  tick-OneOwner false topic now s inv = inv

  -- Every input keeps the owners.
  pub serve-OneOwner : Fresh o → (i : Input) (s : State) → OneOwner s → OneOwner (serve o i s)
  unfolding serve stop_recorder start_recorder
  serve-OneOwner fresh (message topic body now) s inv =
      on_message_received-OneOwner topic body now s inv
  serve-OneOwner fresh (start_request query now) s inv =
      start_at-OneOwner fresh (start_target query) now s inv
  serve-OneOwner fresh (end_request query) s inv =
      stop_topic-OneOwner (lookup "sub_topic" query) s inv
  serve-OneOwner fresh (tick topic now) s inv =
      tick-OneOwner (contains s.watched topic) topic now s inv
  serve-OneOwner fresh (upload_turn n now) s inv = next_upload-OneOwner n now s inv
