-- ===== src/Relation/Input.antt =====
-- `handleInput` of worker/relation/relation.go, described without its loops, and its parts.
use mathlib.Core.Path.{fun_ext}
use bmw.Base.{
  List, Map, String, [], ap, arith, if◌then◌else◌, insert-insert, lookup-insert, map, nat_eq, refl,
  string_eq, ℕ, ◌++◌, ◌==◌, ◌∙◌, ◌≡◌,
}
use bmw.Relation.Match.{
  bind_input, handle_input, merge_input, scan_all_friends, send_jobs, store_user,
}
use bmw.Relation.Registry.{uids}
use bmw.Relation.Resolve.{
  SameUids, all_candidates, candidates_in, candidates_in-same, fresh, ready_to_merge_lem, resolved,
  scan_all_friends_lem, uid_at,
}
use bmw.Relation.Types.{
  CheckFriendsJob, InputRequest, State, User, UserFriend, modify, stored_with, update,
}
use bmw.Relation.User.{
  append_friends, friends_of, get_friends_by_type, get_tp_id, set_friends, set_tp_id,
}

pub heap-modify : (p : ℕ) (f : User → User) (s : State) → (modify p f s).heap p ≡ f (s.heap p)
heap-modify p f s = ground arith

-- A write that keeps the UID and the bindings changes no candidate.
pub tp_ids-update :
    (tp : String) (h : ℕ → User) (p : ℕ) (u : User)
    → u.bind_app ≡ (h p).bind_app
    → (q : ℕ) → get_tp_id (update h p u q) tp ≡ get_tp_id (h q) tp
unfolding get_tp_id
tp_ids-update tp h p u e q = ground arith

pub uid_at-update :
    (h : ℕ → User) (p : ℕ) (u : User)
    → u.uid ≡ (h p).uid
    → (q : ℕ) → (update h p u q).uid ≡ (h q).uid
uid_at-update h p u e q = ground arith

pub friends_of-set_friends :
    (tp tp' : String) (fs : List UserFriend) (u : User)
    → friends_of (set_friends tp fs u) tp' ≡ (if tp' == tp then fs else friends_of u tp')
unfolding friends_of set_friends
friends_of-set_friends tp tp' fs u = ground (arith, lookup-insert tp' tp fs u.friends)

pub friends_of-get :
    (tp tp' : String) (u : User) → friends_of (get_friends_by_type tp u) tp' ≡ friends_of u tp'
unfolding friends_of get_friends_by_type
friends_of-get tp tp' u = ground (arith, lookup-insert tp' tp [] u.friends)

pub friends_of-append_friends :
    (tp tp' : String) (fs : List UserFriend) (u : User)
    → friends_of (append_friends tp fs u) tp'
      ≡ (if tp' == tp then friends_of u tp ++ fs else friends_of u tp')
unfolding append_friends
friends_of-append_friends tp tp' fs u = rw (
  friends_of-set_friends tp tp' (friends_of u tp ++ fs) (get_friends_by_type tp u),
  friends_of-get tp tp' u,
)

pub friends_of-bind_input :
    (input : InputRequest) (tp : String) (u : User)
    → friends_of (bind_input input u) tp ≡ friends_of u tp
unfolding friends_of bind_input set_tp_id
friends_of-bind_input input tp u = ground arith

-- The user after the binding and the merge, as the scan finds it.
abbrev pub merged_user : InputRequest → User → User
merged_user input u =
    append_friends input.type (fresh (friends_of u input.type) input.friends) (bind_input input u)

pub update_self : (h : ℕ → User) (p : ℕ) (u : User) → update h p u p ≡ u
update_self h p u = ground arith

pub update-update : (h : ℕ → User) (p : ℕ) (u v : User) → update (update h p u) p v ≡ update h p v
update-update h p u v = fun_ext (λ q. ground arith)

merge_input_lem :
    (p : ℕ) (input : InputRequest) (s : State)
    → merge_input p input (modify p (bind_input input) s) ≡ modify p (merged_user input) s
unfolding merge_input
merge_input_lem p input s =
    let b = bind_input input (s.heap p) in
    rw (
      update_self s.heap p b,
      update-update s.heap p b,
      friends_of-bind_input input input.type (s.heap p),
      ready_to_merge_lem (friends_of (s.heap p) input.type) input.friends [],
    )

-- `handleInput` with the loop over the request done.
handle_input_merged :
    (p : ℕ) (input : InputRequest) (s : State)
    → handle_input p input s
      ≡ store_user p (scan_all_friends p input.type (modify p (merged_user input) s))
unfolding handle_input
handle_input_merged p input s =
    ap (λ t. store_user p (scan_all_friends p input.type t)) (merge_input_lem p input s)

pub set_friends-get :
    (tp : String) (fs : List UserFriend) (u : User)
    → set_friends tp fs (get_friends_by_type tp u) ≡ set_friends tp fs u
unfolding set_friends get_friends_by_type
set_friends-get tp fs u = ground (arith, insert-insert tp fs [] u.friends)

pub get-bind_app : (tp : String) (u : User) → (get_friends_by_type tp u).bind_app ≡ u.bind_app
unfolding get_friends_by_type
get-bind_app tp u = refl

pub get-uid : (tp : String) (u : User) → (get_friends_by_type tp u).uid ≡ u.uid
unfolding get_friends_by_type
get-uid tp u = refl

-- The users that the scan matches with the user at `p`, by account.
abbrev pub cands_of : State → ℕ → String → String → List ℕ
cands_of s p tp = candidates_in s (s.heap p).uid tp (uids tp s)

-- The user after the scan.
abbrev pub scan_user : State → ℕ → String → User
scan_user s p tp =
    set_friends tp (map (resolved (uid_at s) (cands_of s p tp)) (friends_of (s.heap p) tp))
      (s.heap p)

cands_of-get :
    (p : ℕ) (tp : String) (s : State)
    → candidates_in
        (modify p (get_friends_by_type tp) s)
        (get_friends_by_type tp (s.heap p)).uid
        tp
        (uids tp s)
      ≡ cands_of s p tp
unfolding uids get_friends_by_type
cands_of-get p tp s =
    let u = s.heap p in
    candidates_in-same s (modify p (get_friends_by_type tp) s) u.uid tp (uids tp s) refl
      (tp_ids-update tp s.heap p (get_friends_by_type tp u) (get-bind_app tp u))

scan_all_friends_done :
    (p : ℕ) (tp : String) (s : State)
    → (m : Map String (List String)) × SameUids m s
      × (scan_all_friends p tp s ≡ record s {
        type_uid = m;
        heap = update s.heap p (scan_user s p tp);
        jobs =
            s.jobs ++ send_jobs p tp (all_candidates (cands_of s p tp) (friends_of (s.heap p) tp));
      })
unfolding uids
scan_all_friends_done p tp s =
    let r = scan_all_friends_lem p tp s in
    let u = s.heap p in
    let g = get_friends_by_type tp u in
    let same_uid : uid_at (modify p (get_friends_by_type tp) s) ≡ uid_at s =
      fun_ext (uid_at-update s.heap p g (get-uid tp u)) in
    (
      r.0,
      r.1,
      r.2
          ∙ rw
              (
                update_self s.heap p g,
                update-update s.heap p g,
                same_uid,
                cands_of-get p tp s,
                set_friends-get,
              )
              refl,
    )

-- The user that `handleInput` leaves at `p`.
abbrev pub input_user : State → ℕ → InputRequest → User
input_user s p input = scan_user (modify p (merged_user input) s) p input.type

abbrev pub input_jobs : State → ℕ → InputRequest → List CheckFriendsJob
input_jobs s p input =
    let t = modify p (merged_user input) s in
    let tp = input.type in
    send_jobs p tp (all_candidates (cands_of t p tp) (friends_of (t.heap p) tp))

-- `handleInput` writes one user, sends its jobs and stores the user.
abbrev pub after_input : State → ℕ → InputRequest → Map String (List String) → State
after_input s p input m =
    let u = input_user s p input in
    record s {
      type_uid = m;
      heap = update s.heap p u;
      jobs = s.jobs ++ input_jobs s p input;
      stored = stored_with s u;
    }

pub handle_input_done :
    (p : ℕ) (input : InputRequest) (s : State)
    → (m : Map String (List String)) × SameUids m s
      × (handle_input p input s ≡ after_input s p input m)
unfolding store_user uids
handle_input_done p input s =
    let t = modify p (merged_user input) s in
    let r = scan_all_friends_done p input.type t in
    let u = input_user s p input in
    (
      r.0,
      r.1,
      handle_input_merged p input s
          ∙ ap (store_user p) (r.2)
          ∙ rw (update_self t.heap p u, update-update s.heap p (merged_user input (s.heap p)) u)
              refl,
    )

pub merged_user-uid : (input : InputRequest) (u : User) → (merged_user input u).uid ≡ u.uid
unfolding append_friends bind_input set_tp_id
merged_user-uid input u = ground arith
