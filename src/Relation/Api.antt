-- ===== src/Relation/Api.antt =====
-- Requests to the relation worker: worker/relation/main.go, `startWork` and `unbindAccount` of
-- worker/relation/relation.go, `restore` of worker/relation/storage.go. The JSON decoders are
-- arguments.
use bmw.Base.{
  Bool, List, Option, String, [], contains, if◌then◌else◌, length, nat_eq, none, some, string_eq,
  suc, ℕ, ◌∷◌,
}
use bmw.Relation.Match.{check_friend, get_relation, handle_input, handle_unbind}
use bmw.Relation.Registry.{append_uid, create_new_user, find_user, set_user}
use bmw.Relation.Types.{
  CheckFriendsJob, FriendResult, InputRequest, State, UnbindRequest, User, update,
}
use bmw.Relation.User.{get_bound_app_types}

unfoldable pub is_valid_type : String → State → Bool
is_valid_type tp_type s = contains s.valid_types tp_type

-- `decodeInput`; `unmarshal` answers `none` for an error.
unfoldable pub decode_input {ℓ} :
    {Bytes : Type ℓ} → (Bytes → Option InputRequest) → Bytes → State → Option InputRequest
unfolding is_valid_type
decode_input unmarshal payload s = elim (unmarshal payload) [
  | none ↦ none
  | some req ↦ if is_valid_type req.type s then some req else none
]

-- `findUser`, or else `createNewUser`, under `createUserLock`.
unfoldable pub find_or_create : InputRequest → State → ℕ × State
unfolding find_user create_new_user
find_or_create req s = elim (find_user req.uid s) [ some p ↦ (p, s) | none ↦ create_new_user req s ]

-- What `startWork` does with a decoded request.
unfoldable pub work : InputRequest → State → State
unfolding find_or_create append_uid handle_input
work req s =
    let (p, s₁) = find_or_create req s in handle_input p req (append_uid req.type req.uid s₁)

unfoldable pub start_work {ℓ} :
    {Bytes : Type ℓ} → (Bytes → Option InputRequest) → Bytes → State → State
unfolding decode_input work
start_work unmarshal payload s = elim (decode_input unmarshal payload s) [
  | none ↦ s
  | some req ↦ work req s
]

pub data UnbindError : Type 0 where
  req_is_nil : UnbindError
  user_not_found : String → UnbindError

unfoldable pub decode_unbind_req {ℓ} :
    {Bytes : Type ℓ} → (Bytes → Option UnbindRequest) → Bytes → State → Option UnbindRequest
unfolding is_valid_type
decode_unbind_req unmarshal payload s = elim (unmarshal payload) [
  | none ↦ none
  | some req ↦ if is_valid_type req.type s then some req else none
]

unfoldable pub unbind : UnbindRequest → State → State × Option UnbindError
unfolding find_user handle_unbind
unbind req s = elim (find_user req.uid s) [
  | none ↦ (s, some (user_not_found req.uid))
  | some p ↦ (handle_unbind p req s, none)
]

unfoldable pub unbind_account {ℓ} :
    {Bytes : Type ℓ} → (Bytes → Option UnbindRequest) → Bytes → State → State × Option UnbindError
unfolding decode_unbind_req unbind
unbind_account unmarshal payload s = elim (decode_unbind_req unmarshal payload s) [
  | none ↦ (s, some req_is_nil)
  | some req ↦ unbind req s
]

-- What a handler writes by `cxt.JSON`.
pub data Reply : Type 0 where
  missing_uid missing_type user_is_nil ok : Reply
  unbind_failed : UnbindError → Reply
  result : List FriendResult → Reply
  user_count : ℕ → Reply

-- `postUnbind`, with a body that can be read: each `cxt.JSON` in turn.
unfoldable pub post_unbind {ℓ} :
    {Bytes : Type ℓ} → (Bytes → Option UnbindRequest) → Bytes → State → State × List Reply
unfolding unbind_account
post_unbind unmarshal payload s =
    let out = unbind_account unmarshal payload s in
    (out.0, elim out.1 [ none ↦ ok ∷ [] | some e ↦ unbind_failed e ∷ ok ∷ [] ])

-- The handler `getRelation` of main.go, on its two query values.
unfoldable pub get_relation_query : Option String → Option String → State → State × Reply
unfolding find_user get_relation
get_relation_query none tp_type s = (s, missing_uid)
get_relation_query (some uid) none s = (s, missing_type)
get_relation_query (some uid) (some tp_type) s = elim (find_user uid s) [
  | none ↦ (s, user_is_nil)
  | some p ↦ let out = get_relation p tp_type s in (out.0, result out.1)
]

unfoldable pub get_status : State → Reply
get_status s = user_count (length s.users)

-- One round of the goroutine of `startCheckFriends`.
unfoldable pub check_next : List CheckFriendsJob → State → State
unfolding check_friend
check_next [] s = s
check_next (job ∷ rest) s =
    (check_friend job.user job.other job.tp_type (record s { jobs = rest })).0

unfoldable pub append_types : List String → String → State → State
unfolding append_uid
append_types [] uid s = s
append_types (value ∷ types) uid s = append_types types uid (append_uid value uid s)

-- The closure of `restore`: a user read from the file gets an address of its own.
unfoldable pub restore_user : String → User → State → State
unfolding set_user append_types get_bound_app_types
restore_user uid user s =
    let allocated = record s { heap = update s.heap s.next user; next = suc s.next } in
    append_types (get_bound_app_types user) uid (set_user uid s.next allocated)

-- `restore` over the file's entries; a value that does not decode ends the loop.
unfoldable pub restore : List (String × Option User) → State → State
unfolding restore_user
restore [] s = s
restore ((k, none) ∷ entries) s = s
restore ((k, some user) ∷ entries) s = restore entries (restore_user k user s)

-- The requests and the check rounds of the worker, in any order.
pub data Event {ℓ} (Bytes : Type ℓ) : Type ℓ where
  bind_request : Bytes → Event Bytes
  unbind_request : Bytes → Event Bytes
  friends_query : Option String → Option String → Event Bytes
  check_round : Event Bytes

module _ {ℓ} {Bytes : Type ℓ} (input_of : Bytes → Option InputRequest)
    (unbind_of : Bytes → Option UnbindRequest) where
  unfoldable pub serve : Event Bytes → State → State
  unfolding start_work post_unbind get_relation_query check_next
  serve (bind_request payload) s = start_work input_of payload s
  serve (unbind_request payload) s = (post_unbind unbind_of payload s).0
  serve (friends_query uid tp_type) s = (get_relation_query uid tp_type s).0
  serve check_round s = check_next s.jobs s

  unfoldable pub serve_all : List (Event Bytes) → State → State
  unfolding serve
  serve_all [] s = s
  serve_all (e ∷ es) s = serve_all es (serve e s)
