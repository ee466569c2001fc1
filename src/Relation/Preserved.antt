-- ===== src/Relation/Preserved.antt =====
-- The invariant of worker/relation under the operations of its containers and of `User`.
use bmw.Base.{
  All, All-append, List, String, [], append-Distinct, arith, contains-append, contains-without,
  lookup, lookup-insert, nat_eq, none, refl, string_eq, subst, suc, sym, without-Distinct, ℕ, ◌<◌,
  ◌∷◌, ◌≡◌, ◌≢◌,
}
use bmw.Relation.Handled.{input_user-same_uid}
use bmw.Relation.Input.{
  after_input, cands_of, handle_input_done, input_jobs, input_user, merged_user, merged_user-uid,
  uid_at-update,
}
use bmw.Relation.Invariant.{Inv, JobValid, Keeps-Inv, all_candidates-valid, send_jobs-valid}
use bmw.Relation.Match.{handle_input, store_user}
use bmw.Relation.Registry.{append_uid, remove_uid, set_user, uids}
use bmw.Relation.Resolve.{all_candidates}
use bmw.Relation.Types.{CheckFriendsJob, InputRequest, State, User, modify, update}
use bmw.Relation.Uids.{uids-append_uid, uids-remove_uid}
use bmw.Relation.User.{friends_of}

pub modify-Inv :
    (p : ℕ) (f : User → User) (s : State)
    → ((u : User) → (f u).uid ≡ u.uid)
    → Inv s
    → Inv (modify p f s)
unfolding uids
modify-Inv p f s e v =
    Keeps-Inv s (modify p f s) v
      (record {
        users = refl;
        next = refl;
        names = uid_at-update s.heap p (f (s.heap p)) (e (s.heap p));
      })
      v.distinct v.known v.jobs_valid

pub handle_input-Inv :
    (p : ℕ) (input : InputRequest) (s : State) → p < s.next → Inv s → Inv (handle_input p input s)
unfolding uids
handle_input-Inv p input s h v =
    let r = handle_input_done p input s in
    let t = modify p (merged_user input) s in
    let u = input_user s p input in
    let tp = input.type in
    subst Inv (sym (r.2)) (
      Keeps-Inv s (after_input s p input r.0) v
        (record {
          users = refl;
          next = refl;
          names = uid_at-update s.heap p u (input_user-same_uid s p input);
        })
        (λ tp'. rw (r.1 tp') (v.distinct tp')) (λ tp' uid. rw (r.1 tp') (v.known tp' uid))
        (All-append (JobValid s.next) s.jobs (input_jobs s p input) v.jobs_valid (
          send_jobs-valid p s.next tp (all_candidates (cands_of t p tp) (friends_of (t.heap p) tp))
            h
            (all_candidates-valid t tp (t.heap p).uid (uids tp t) (friends_of (t.heap p) tp)
              (modify-Inv p (merged_user input) s (merged_user-uid input) v)))))

pub store_user-Inv : (p : ℕ) (s : State) → Inv s → Inv (store_user p s)
unfolding store_user uids
store_user-Inv p s v = record {
  distinct = v.distinct;
  named = v.named;
  owned = v.owned;
  known = v.known;
  jobs_valid = v.jobs_valid;
}

pub remove_uid-Inv : (tp uid : String) (s : State) → Inv s → Inv (remove_uid tp uid s)
unfolding remove_uid
remove_uid-Inv tp uid s v =
    Keeps-Inv s (remove_uid tp uid s) v (record { users = refl; next = refl; names = λ q. refl })
      (λ tp'. ground (
        arith,
        uids-remove_uid tp tp' uid s (v.distinct tp),
        v.distinct tp,
        v.distinct tp',
        without-Distinct uid (uids tp s),
      ))
      (λ tp' uid' h. v.known tp' uid' (
        ground (
          arith,
          uids-remove_uid tp tp' uid s (v.distinct tp),
          contains-without uid uid' (uids tp s),
        )))
      v.jobs_valid

pub append_uid-Inv :
    (tp uid : String) (s : State) → lookup uid s.users ≢ none → Inv s → Inv (append_uid tp uid s)
unfolding append_uid
append_uid-Inv tp uid s u v =
    Keeps-Inv s (append_uid tp uid s) v (record { users = refl; next = refl; names = λ q. refl })
      (λ tp'. ground (
        arith,
        uids-append_uid tp tp' uid s,
        v.distinct tp,
        v.distinct tp',
        append-Distinct (uids tp s) uid,
      ))
      (λ tp' uid' h. ground (
        arith,
        uids-append_uid tp tp' uid s,
        contains-append (uids tp s) (uid ∷ []) uid',
        v.known tp' uid',
        v.known tp uid',
      ))
      v.jobs_valid

jobs-grow :
    (n : ℕ) (jobs : List CheckFriendsJob) → All (JobValid n) jobs → All (JobValid (suc n)) jobs
jobs-grow n [] h = tt
jobs-grow n (job ∷ jobs) h = ((omega arith, omega arith), jobs-grow n jobs h.1)

-- A user is registered at a fresh address, under a UID that nobody has.
pub registered-Inv :
    (uid : String) (u : User) (s : State)
    → lookup uid s.users ≡ none
    → u.uid ≡ uid
    → Inv s
    → Inv (set_user uid s.next (record s { heap = update s.heap s.next u; next = suc s.next }))
unfolding set_user uids
registered-Inv uid u s e eu v = record {
  distinct = v.distinct;
  named = λ uid' p h. ground (arith, lookup-insert uid' uid s.next s.users, v.named uid' p);
  owned = λ p h. ground (
    arith,
    lookup-insert (s.heap p).uid uid s.next s.users,
    lookup-insert uid uid s.next s.users,
    v.owned p,
  );
  known = λ tp uid' h. ground (arith, lookup-insert uid' uid s.next s.users, v.known tp uid');
  jobs_valid = jobs-grow s.next s.jobs v.jobs_valid;
}
