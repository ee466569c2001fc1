-- ===== src/Relation/Match.antt =====
-- Matching friends, worker/relation/relation.go lines 183 to 322: `handleInput`, `handleUnbind`,
-- `scanAllFriends`, `checkFriend` and `getRelation`. The user is an address `p` of the heap.
use bmw.Base.{
  Bool, List, String, [], false, if◌then◌else◌, nat_eq, none, some, string_eq, true, ℕ, ◌++◌, ◌==◌,
  ◌∷◌,
}
use bmw.Relation.Registry.{find_user, get_uids, remove_uid, uids}
use bmw.Relation.Types.{
  CheckFriendsJob, FriendResult, InputFriend, InputRequest, State, UnbindRequest, User, UserFriend,
  modify, stored_with,
}
use bmw.Relation.User.{
  append_friends, friends_of, get_friends_by_type, get_tp_id, remove_friends_by_type, remove_tp_id,
  set_friends, set_tp_id,
}

-- `storeUser`: the whole user goes to the file under its UID, and an error of the file is only logged.
unfoldable pub store_user : ℕ → State → State
store_user p s = record s { stored = stored_with s (s.heap p) }

unfoldable pub handle_unbind : ℕ → UnbindRequest → State → State
unfolding store_user
handle_unbind p req s =
    let unbound = modify p (λ u. remove_friends_by_type req.type (remove_tp_id req.type u)) s in
    store_user p (remove_uid req.type req.uid unbound)

-- The inner loop of `handleInput`.
unfoldable pub has_tp_id : String → List UserFriend → Bool
has_tp_id tp_id [] = false
has_tp_id tp_id (old ∷ rest) =
    let later = has_tp_id tp_id rest in if tp_id == old.tp_id then true else later

-- The outer loop: the friends of the request that are new to the user, `ready` so far.
unfoldable pub ready_to_merge :
    List UserFriend → List InputFriend → List UserFriend → List UserFriend
unfolding has_tp_id
ready_to_merge old [] ready = ready
ready_to_merge old (item ∷ items) ready = ready_to_merge old items (
    if has_tp_id item.tp_id old
    then ready
    else ready ++ (record { tp_name = item.tp_name; tp_id = item.tp_id; uid = "" } ∷ []))

-- The closure that `scanAllFriends` hands to `iter`, on the UID found so far and the users to
-- check back.
unfoldable pub scan_uid :
    State → User → String → UserFriend → String → String × List ℕ → String × List ℕ
unfolding find_user
scan_uid s user tp_type item uid (other_uid, back) =
    if user.uid == uid then (other_uid, back) else elim (find_user uid s) [
      | none ↦ (other_uid, back)
      | some q ↦
          if get_tp_id (s.heap q) tp_type == item.tp_id
          then ((s.heap q).uid, back ++ (q ∷ []))
          else (other_uid, back)
    ]

unfoldable pub iter :
    State → User → String → UserFriend → List String → String × List ℕ → String × List ℕ
unfolding scan_uid
iter s user tp_type item [] found = found
iter s user tp_type item (uid ∷ rest) found =
    iter s user tp_type item rest (scan_uid s user tp_type item uid found)

-- The loop over the user's friends: the state (for `getUIDs`), the friends and the users to check.
unfoldable pub scan_loop :
    User
    → String
    → List UserFriend
    → State × List UserFriend × List ℕ
    → State × List UserFriend × List ℕ
unfolding iter get_uids
scan_loop user tp_type [] acc = acc
scan_loop user tp_type (item ∷ rest) (s, friends, back) =
    let s' = get_uids tp_type s in
    let found = iter s' user tp_type item (uids tp_type s) ("", back) in
    scan_loop user tp_type rest (s', friends ++ (record item { uid = found.0 } ∷ []), found.1)

unfoldable pub send_jobs : ℕ → String → List ℕ → List CheckFriendsJob
send_jobs p tp_type [] = []
send_jobs p tp_type (q ∷ back) =
    record { user = q; other = p; tp_type = tp_type } ∷ send_jobs p tp_type back

unfoldable pub scan_all_friends : ℕ → String → State → State
unfolding scan_loop
scan_all_friends p tp_type s =
    let user_friends = friends_of (s.heap p) tp_type in
    let s₁ = modify p (get_friends_by_type tp_type) s in
    let out = scan_loop (s₁.heap p) tp_type user_friends (s₁, [], []) in
    let s₂ = modify p (set_friends tp_type out.1) out.0 in
    record s₂ { jobs = s₂.jobs ++ send_jobs p tp_type out.2 }

-- `handleInput` binds the account if the request names one.
unfoldable pub bind_input : InputRequest → User → User
bind_input input user = if input.tp_id == "" then user else set_tp_id input.type input.tp_id user

-- Its loop and the append that follows.
unfoldable pub merge_input : ℕ → InputRequest → State → State
merge_input p input s =
    let old = friends_of (s.heap p) input.type in
    modify p (append_friends input.type (ready_to_merge old input.friends [])) s

unfoldable pub handle_input : ℕ → InputRequest → State → State
unfolding scan_all_friends store_user bind_input merge_input
handle_input p input s =
    let bound = modify p (bind_input input) s in
    store_user p (scan_all_friends p input.type (merge_input p input bound))

-- The loop of `checkFriend`.
unfoldable pub mark_friends : String → String → List UserFriend → List UserFriend
mark_friends tp_id uid [] = []
mark_friends tp_id uid (item ∷ rest) =
    (if item.tp_id == tp_id then record item { uid = uid } else item) ∷ mark_friends tp_id uid rest

-- `friends` is nil unless the test passes, and is stored either way.
unfoldable pub checked_friends : User → String → List UserFriend → List UserFriend
unfolding mark_friends
checked_friends jerry tp_type user_friends =
    let jerry_tp_id = get_tp_id jerry tp_type in
    if jerry_tp_id == "" then [] else mark_friends jerry_tp_id jerry.uid user_friends

unfoldable pub check_friend : ℕ → ℕ → String → State → State × Bool
unfolding checked_friends store_user has_tp_id
check_friend p other tp_type s =
    let jerry = s.heap other in
    let user_friends = friends_of (s.heap p) tp_type in
    let s₁ = modify p (get_friends_by_type tp_type) s in
    let s₂ = modify p (set_friends tp_type (checked_friends jerry tp_type user_friends)) s₁ in
    let jerry_tp_id = get_tp_id jerry tp_type in
    (store_user p s₂, if jerry_tp_id == "" then false else has_tp_id jerry_tp_id user_friends)

-- The loop of `getRelation`.
unfoldable pub relation_of : List UserFriend → List FriendResult
relation_of [] = []
relation_of (val ∷ rest) =
    let later = relation_of rest in
    if val.uid == "" then later else record { uid = val.uid; tp_name = val.tp_name } ∷ later

unfoldable pub get_relation : ℕ → String → State → State × List FriendResult
unfolding relation_of
get_relation p tp_type s =
    (modify p (get_friends_by_type tp_type) s, relation_of (friends_of (s.heap p) tp_type))
