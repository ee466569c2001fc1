-- ===== src/Recorder/Examples.antt =====
-- The theorems on worker/recorder/main.go at a recorder of one topic, which takes a message, ends and is
-- stored. A new file's name is longer than all that are taken.
use bmw.Base.{
  Bool-cases, List, String, [], ap, arith, contains, eq_of_==, erase, false, inl, inr, insert, keys,
  lookup, nat_eq, refl, string_eq, suc, true, zero, ℕ, ◌+◌, ◌<◌, ◌==◌, ◌∷◌, ◌≡◌,
}
use bmw.Recorder.Book.{spec_all, view}
use bmw.Recorder.Kept.{Fresh}
use bmw.Recorder.Owners.{OneOwner, held, removals}
use bmw.Recorder.Server.{serve, serve_all, stop_recorder}
use bmw.Recorder.Types.{
  Input, Outside, Query, State, end_request, message, start_request, upload_turn,
}
use bmw.Recorder.Uploads.{serve_all-OneOwner, serve_all-spec_all}

unfoldable letters : ℕ → String
letters zero = String.[]
letters (suc n) = String.◌∷◌ "a" (letters n)

unfoldable size : String → ℕ
size String.[] = 0
size (String.◌∷◌ c s) = suc (size s)

unfoldable total : List String → ℕ
unfolding size
total [] = 0
total (s ∷ ss) = size s + total ss

size-letters : (n : ℕ) → size (letters n) ≡ n
unfolding size letters
size-letters zero = refl
size-letters (suc n) = rw (size-letters n) refl

long_absent : (names : List String) (s : String) → total names < size s → contains names s ≡ false
unfolding total
long_absent [] s h = refl
long_absent (name ∷ names) s h =
    let later = long_absent names s (omega arith) in
    elim (Bool-cases (name == s)) [
      | inl e ↦ let same : size name ≡ size s = ap size (eq_of_== name s e) in absurd (omega arith)
      | inr ne ↦ rw (ne) later
    ]

abbrev outside : Outside
outside = record {
  can_make = λ now. true;
  fresh = λ names now. letters (suc (total names));
  written = λ text now. text;
  subscribe = λ topic now. true;
  upload = λ item now. true;
}

outside-Fresh : Fresh outside
outside-Fresh names now =
    long_absent names (letters (suc (total names)))
      (omega (arith, size-letters (suc (total names))))

abbrev empty : State
empty = record { recorders = []; texts = []; watched = []; uploads = []; stored = [] }

abbrev room : Query
room = ("sub_topic", "room") ∷ ("key", "k") ∷ ("bucket", "b") ∷ ("region", "eu") ∷ []

abbrev inputs : List Input
inputs = start_request room 10 ∷ message "room" "hi" 20 ∷ message "hall" "no" 21 ∷ []

empty-OneOwner : OneOwner empty
unfolding held removals lookup
empty-OneOwner n = omega arith

serve_all-OneOwner_example : OneOwner (serve_all outside inputs empty)
serve_all-OneOwner_example = serve_all-OneOwner outside outside-Fresh inputs empty empty-OneOwner

serve_all-spec_all_example :
    view (serve_all outside inputs empty) ≡ spec_all outside inputs (view empty)
serve_all-spec_all_example = serve_all-spec_all outside outside-Fresh inputs empty empty-OneOwner

abbrev recorded : State
recorded = record {
  recorders =
      ("room", record { file = "a"; key = "k"; bucket = "b"; region = "eu"; update_at = 20 }) ∷ [];
  texts = ("a", "hi\n") ∷ [];
  watched = "room" ∷ [];
  uploads = [];
  stored = [];
}

recorded_run : serve_all outside inputs empty ≡ recorded
unfolding serve_all lookup string_eq insert letters total keys
recorded_run = refl

-- The text is stored, and the file is gone.
stored_run : (serve outside (upload_turn 0 30) (stop_recorder room recorded).0) ≡ record {
  recorders = [];
  texts = [];
  watched = "room" ∷ [];
  uploads = [];
  stored = record { key = "k"; bucket = "b"; region = "eu"; text = "hi\n" } ∷ [];
}
unfolding serve lookup string_eq erase
stored_run = refl

-- A topic that is ended and started again before the next tick is watched twice.
watched_twice :
    (serve_all outside
      (start_request room 10 ∷ end_request room ∷ start_request room 20 ∷ [])
      empty).watched
    ≡ "room" ∷ "room" ∷ []
unfolding serve_all lookup string_eq insert erase
watched_twice = refl
