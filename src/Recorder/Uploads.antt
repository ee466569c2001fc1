-- ===== src/Recorder/Uploads.antt =====
-- What the uploads of worker/recorder/main.go leave of the logs, and the main theorems.
-- An upload that removes its file has it alone.
use bmw.Base.{
  Bool-cases, List, Option-cases, String, [], ap, arith, contains, drop, get_elem?, inl, inr,
  lookup, nat_eq, refl, string_eq, suc, take, ℕ, ◌&&◌, ◌++◌, ◌+◌, ◌==◌, ◌∙◌, ◌∷◌, ◌≡◌, ◌≤◌,
}
use bmw.Recorder.Book.{spec, spec_all, view}
use bmw.Recorder.Kept.{Fresh, serve-OneOwner}
use bmw.Recorder.Owners.{OneOwner, copies, copies-le, held-erase, one_if, owners, removals-take}
use bmw.Recorder.Refines.{
  book, end_log-view, log_at-erase, on_message_received-view, start_at-view, tick-view,
}
use bmw.Recorder.Server.{
  next_upload, serve, serve_all, start_recorder, start_target, stop_recorder, upload_file,
}
use bmw.Recorder.Types.{
  Input, Outside, State, Stored, Upload, end_request, message, start_request, tick, upload_turn,
}

upload_file-view :
    (o : Outside) (u : Upload) (now : ℕ) (s : State)
    → ((n : String) → one_if (u.remove && u.file == n) + owners n s ≤ copies n s.texts)
    → view (upload_file o u now s) ≡ view s
unfolding upload_file view
upload_file-view o u now s inv = elim (Option-cases (lookup u.file s.texts)) [
  | inl h ↦ rw (h, upload_file) refl
  | inr (text, h) ↦
      let item : Stored = record {
        key = u.key;
        bucket = u.bucket;
        region = u.region;
        text = text;
      } in
      rw (h, upload_file)
        (elim (Bool-cases (o.upload item now)) [
          | inr lost ↦ rw (lost) refl
          | inl sent ↦ rw (sent) (elim (Bool-cases u.remove) [
            | inr stays ↦ rw (stays) refl
            | inl gone ↦ rw (gone) (
                book _ (view s)
                  (λ t. log_at-erase u.file s.texts (lookup t s.recorders) (λ q hq. ground (
                    arith,
                    inv u.file,
                    held-erase u.file t q s.recorders hq,
                    copies-le u.file u.file s.texts,
                  )))
                  refl)
          ])
        ])
]

next_upload-view :
    (o : Outside) (i now : ℕ) (s : State) → OneOwner s → view (next_upload o i now s) ≡ view s
unfolding next_upload view
next_upload-view o i now s inv = elim (Option-cases (get_elem? s.uploads i)) [
  | inl h ↦ rw (h, next_upload) refl
  | inr (u, h) ↦
      rw (h, next_upload)
        (upload_file-view o u now
          (record s { uploads = take i s.uploads ++ drop (suc i) s.uploads })
          (λ n. omega (arith, inv n, removals-take n i s.uploads u h)))
]

serve-view :
    (o : Outside)
    → Fresh o
    → (i : Input) (s : State) → OneOwner s
    → view (serve o i s) ≡ spec o i (view s)
unfolding serve spec view stop_recorder start_recorder
serve-view o fresh (message topic body now) s inv = on_message_received-view s inv o topic body now
serve-view o fresh (start_request query now) s inv =
    start_at-view s inv o fresh now (start_target query)
serve-view o fresh (end_request query) s inv = end_log-view s inv (lookup "sub_topic" query)
serve-view o fresh (tick topic now) s inv = tick-view s inv (contains s.watched topic) topic now
serve-view o fresh (upload_turn n now) s inv = next_upload-view o n now s inv

-- Where each temporary file has one owner at most, and `ioutil.TempFile` never chooses a name that is
-- taken, any sequence of messages, requests, ticks and uploads keeps it so: no two recorders write to
-- one file, and no upload removes a file that a recorder writes to.
pub serve_all-OneOwner :
    (o : Outside)
    → Fresh o
    → (is : List Input) (s : State) → OneOwner s
    → OneOwner (serve_all o is s)
unfolding serve_all
serve_all-OneOwner o fresh [] s inv = inv
serve_all-OneOwner o fresh (i ∷ is) s inv =
    serve_all-OneOwner o fresh is (serve o i s) (serve-OneOwner o fresh i s inv)

-- Where each temporary file has one owner at most, and `ioutil.TempFile` never chooses a name that is taken, the worker implements a book of logs without files and goroutines. A
-- message adds its text and a line break to the log of its topic, a start request opens an empty log
-- unless there is one, an end request closes it, two hours without a message close the log of a
-- watched topic at its next tick, and uploads change no log, in whatever order they run.
pub serve_all-spec_all :
    (o : Outside)
    → Fresh o
    → (is : List Input) (s : State) → OneOwner s
    → view (serve_all o is s) ≡ spec_all o is (view s)
unfolding serve_all spec_all
serve_all-spec_all o fresh [] s inv = refl
serve_all-spec_all o fresh (i ∷ is) s inv =
    serve_all-spec_all o fresh is (serve o i s) (serve-OneOwner o fresh i s inv)
    ∙ ap (spec_all o is) (serve-view o fresh i s inv)
