-- ===== src/Beanstalk/Examples.antt =====
-- The theorem on queue/beanstalk.go with a server that closes the first connection after one job.
use bmw.Base.{
  Bool, List, String, [], arith, contains, false, if◌then◌else◌, inl, inr, nat_eq, none, refl, some,
  string_eq, suc, true, zero, ℕ, ◌++◌, ◌==◌, ◌∷◌, ◌≡◌, ◌⊎◌,
}
use bmw.Beanstalk.Conserved.{Among, Landed, run-Among}
use bmw.Beanstalk.Producer.{Producer, Turn, new_producer_pusher, pushes, run, waits}
use bmw.Beanstalk.Types.{Client, Deletes, Protocol, Reserved, eof, job, other_error}

-- Whether the first connection is closed, and the jobs of the tube "jobs".
abbrev TestWorld : Type 0
TestWorld = Bool × List String

-- Connection 0 watches the tube "jobs" also, the others the default tube only, which stays empty.
abbrev test_watched : ℕ → List String
test_watched zero = "jobs" ∷ "default" ∷ []
test_watched (suc c) = "default" ∷ []

unfoldable take_job : ℕ → TestWorld → TestWorld × Reserved
take_job (suc c) w = (w, other_error)
take_job zero (true, bodies) = ((true, bodies), eof)
take_job zero (false, []) = ((false, []), other_error)
take_job zero (false, body ∷ bodies) = ((true, bodies), job 7 body)

abbrev test_ready : String → TestWorld → List String
test_ready tube w = if tube == "jobs" then w.1 else []

abbrev test_client : Client
test_client = record {
  World = TestWorld;
  dial = λ w. (w, some 1);
  watch = λ c tube w. (w, true);
  use_tube = λ c tube w. (w, true);
  reserve = take_job;
  delete = λ c id w. (w, true);
  put = λ c body w. ((w.0, w.1 ++ body ∷ []), true);
  watched = λ c w. test_watched c;
  used = λ c w. "jobs";
  ready = test_ready;
  idle = λ w. true;
}

new_watches : (c : ℕ) → some 1 ≡ some c → test_watched c ≡ "default" ∷ []
new_watches zero e = ground (arith, e)
new_watches (suc c) e = refl

take_first :
    (w : TestWorld) (c id : ℕ) (body : String)
    → (take_job c w).1 ≡ job id body
    → (from : String) × ((contains (test_watched c) from ≡ true)
        × ((tube : String)
            → test_ready tube w ≡ (
                if tube == from
                then body ∷ test_ready tube (take_job c w).0
                else test_ready tube (take_job c w).0)))
unfolding take_job string_eq
take_first w (suc c) id body e = absurd (ground (arith, e))
take_first (true, bodies) zero id body e = absurd (ground (arith, e))
take_first (false, []) zero id body e = absurd (ground (arith, e))
take_first (false, b ∷ bodies) zero id body e = ("jobs", (refl, λ tube. ground (arith, e)))

take_nothing :
    (w : TestWorld) (c : ℕ) (tube : String)
    → ((take_job c w).1 ≡ eof) ⊎ ((take_job c w).1 ≡ other_error)
    → test_ready tube (take_job c w).0 ≡ test_ready tube w
unfolding take_job
take_nothing w (suc c) tube e = refl
take_nothing (true, bodies) zero tube e = refl
take_nothing (false, []) zero tube e = refl
take_nothing (false, b ∷ bodies) zero tube e = elim e [
  | inl h ↦ absurd (ground (arith, h))
  | inr h ↦ absurd (ground (arith, h))
]

test_protocol : Protocol test_client
unfolding string_eq
test_protocol = record {
  dial_keeps = λ w c. (refl, refl);
  dial_watches = λ w c e. new_watches c e;
  dial_ready = λ w quiet. ((λ tube. refl), refl);
  delete_keeps = λ c id w c'. (refl, refl);
  put_keeps = λ c body w c'. (refl, refl);
  put_idle = λ w c body. refl;
  put_done = λ w c body quiet done. refl;
  put_refused = λ w c body quiet e. absurd (ground (arith, e));
  reserve_keeps = λ c w c'. (refl, refl);
  reserve_takes = λ w c id body quiet e done. (refl, take_first w c id body e);
  reserve_nothing = λ w c quiet e. ((λ tube. take_nothing w c tube e), refl);
}

abbrev test_producer : Producer test_client
unfolding new_producer_pusher
test_producer = new_producer_pusher test_client "jobs" 0 5 (false, [])

-- A job is taken, the connection is lost, and the second job stays.
abbrev test_turns : List Turn
test_turns = pushes "a" ∷ pushes "b" ∷ waits ∷ waits ∷ waits ∷ waits ∷ []

job_stays :
    ((run test_client test_turns test_producer).world ≡ (true, "b" ∷ []))
    × ((run test_client test_turns test_producer).answers ≡ some "a" ∷ none ∷ none ∷ [])
unfolding run take_job new_producer_pusher
job_stays = (refl, refl)

test_deletes : Deletes test_client
test_deletes w c id body quiet e = refl

run-Among_example :
    (taken : List String) × ((come : List String) × (Among taken
          (run test_client test_turns test_producer).answers
        × (Landed (run test_client test_turns test_producer).pushed come
            × (taken ++ test_ready "jobs" (run test_client test_turns test_producer).world
                ≡ test_ready "jobs" test_producer.world ++ come)
            × ((test_producer.dialling ≡ false) ⊎ (taken ≡ [])))))
unfolding new_producer_pusher string_eq
run-Among_example =
    run-Among test_client test_protocol test_deletes "jobs" refl test_turns test_producer refl refl
      refl refl
