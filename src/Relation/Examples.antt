-- ===== src/Relation/Examples.antt =====
-- The theorems on worker/relation at two users, of whom the first lists the second's account.
use mathlib.Core.List.{Memᴰ}
use bmw.Base.{
  Bool, Bool-cases, Distinct, List, Option, String, [], arith, eq_of_==, false, get_elem?,
  if◌then◌else◌, inl, inr, insert, keys, lookup, nat_eq, ne_of_==, none, refl, some, string_eq,
  subst, suc, true, without, zero, ℕ, ◌<◌, ◌==◌, ◌∷◌, ◌≡◌,
}
use bmw.Relation.Api.{
  Event, append_types, bind_request, check_round, friends_query, restore, restore_user, serve_all,
  unbind, unbind_request,
}
use bmw.Relation.Checked.{check_friend_lem, marked}
use bmw.Relation.Durable.{Durable, last_write}
use bmw.Relation.Handled.{InputResolves, handle_input_resolves}
use bmw.Relation.Invariant.{Inv}
use bmw.Relation.Match.{check_friend, handle_input, has_tp_id, ready_to_merge}
use bmw.Relation.Mutual.{mutual_relation}
use bmw.Relation.Reachable.{Entries, empty_state, empty_state-Inv, restore-Inv, serve_all-Inv}
use bmw.Relation.Registry.{append_uid, get_uids, remove_uid, set_user, uids}
use bmw.Relation.Reports.{reports}
use bmw.Relation.Restart.{IsFile, Survives, read_back, restore-serve_all, served}
use bmw.Relation.Served.{empty_state-Durable, serve_all-Durable}
use bmw.Relation.Types.{InputRequest, State, UnbindRequest, User, UserFriend}
use bmw.Relation.Uids.{uids-remove_uid}
use bmw.Relation.Unbind.{Unbound, unbind_lem, unbound_input_loses_friends}
use bmw.Relation.User.{append_friends, friends_of, get_bound_app_types, get_tp_id, set_tp_id}

abbrev tom : User
tom = record { uid = "1"; bind_app = ("tw", "t1") ∷ []; friends = [] }

abbrev jerry_friend : UserFriend
jerry_friend = record { tp_name = "tom"; tp_id = "t1"; uid = "" }

abbrev jerry : User
jerry = record { uid = "2"; bind_app = ("tw", "t2") ∷ []; friends = ("tw", jerry_friend ∷ []) ∷ [] }

-- The file refuses the empty key.
abbrev named_only : List (String × User) → String → User → Bool
named_only writes uid u = if uid == "" then false else true

abbrev two_users : State
two_users = record {
  valid_types = "tw" ∷ [];
  type_uid = ("tw", "1" ∷ "2" ∷ []) ∷ [];
  users = ("1", 0) ∷ ("2", 1) ∷ [];
  heap = λ q. if q == 0 then tom else jerry;
  next = 2;
  jobs = [];
  stored = [];
  accepts = named_only;
}

abbrev tom_input : InputRequest
tom_input = record {
  uid = "1";
  type = "tw";
  tp_id = "t1";
  tp_name = "tom";
  friends = record { tp_name = "jerry"; tp_id = "t2" } ∷ [];
}

abbrev tom_unbinds : UnbindRequest
tom_unbinds = record { uid = "1"; type = "tw" }

two_users-uids : (tp : String) → uids tp two_users ≡ (if tp == "tw" then "1" ∷ "2" ∷ [] else [])
unfolding uids lookup
two_users-uids tp = ground arith

two_users-lookup :
    (uid : String)
    → lookup uid two_users.users
      ≡ (if uid == "1" then some 0 else if uid == "2" then some 1 else none)
unfolding lookup
two_users-lookup uid = ground arith

two_users-owned : (p : ℕ) → p < 2 → lookup (two_users.heap p).uid two_users.users ≡ some p
unfolding lookup string_eq nat_eq
two_users-owned zero h = refl
two_users-owned (suc zero) h = refl
two_users-owned (suc (suc p)) h = absurd (omega (arith, h))

two_users-Distinct : (tp : String) → Distinct (uids tp two_users)
unfolding string_eq
two_users-Distinct tp =
    rw (two_users-uids tp)
      (elim (Bool-cases (tp == "tw")) [ inl e ↦ rw (e) (refl, (refl, tt)) | inr e ↦ rw (e) tt ])

two_users-Inv : Inv two_users
two_users-Inv = record {
  distinct = two_users-Distinct;
  named = λ uid p h. ground (arith, two_users-lookup uid);
  owned = two_users-owned;
  known = λ tp uid h. ground (arith, two_users-uids tp, two_users-lookup uid);
  jobs_valid = tt;
}

abbrev jerry_input : InputRequest
jerry_input = record {
  uid = "2";
  type = "tw";
  tp_id = "t2";
  tp_name = "jerry";
  friends = record { tp_name = "tom"; tp_id = "t1" } ∷ [];
}

abbrev events : List (Event InputRequest)
events =
    bind_request tom_input
    ∷ bind_request jerry_input
    ∷ check_round
    ∷ friends_query (some "1") (some "tw")
    ∷ unbind_request tom_input
    ∷ []

abbrev unbind_of : InputRequest → Option UnbindRequest
unbind_of req = some (record { uid = req.uid; type = req.type })

serve_all-Inv_example : Inv (serve_all some unbind_of events two_users)
serve_all-Inv_example = serve_all-Inv some unbind_of events two_users two_users-Inv

abbrev started : State
started = empty_state named_only ("tw" ∷ [])

serve_all-Durable_example : Durable (serve_all some unbind_of events started)
serve_all-Durable_example =
    serve_all-Durable some unbind_of events started (empty_state-Inv named_only ("tw" ∷ []))
      (empty_state-Durable named_only ("tw" ∷ []))

abbrev saved : List (String × Option User)
saved = ("1", some tom) ∷ ("2", some jerry) ∷ []

saved-second : lookup "2" (restore_user "1" tom started).users ≡ none
unfolding empty_state lookup insert restore_user string_eq set_user append_types append_uid
    get_bound_app_types get_uids keys
saved-second = refl

saved-Entries : Entries started saved
unfolding empty_state lookup
saved-Entries = (refl, refl, (refl, saved-second, tt))

restore-Inv_example : Inv (restore saved started)
restore-Inv_example =
    restore-Inv saved started saved-Entries (empty_state-Inv named_only ("tw" ∷ []))

handle_input_resolves_example :
    InputResolves 0 tom_input two_users (handle_input 0 tom_input two_users)
handle_input_resolves_example = handle_input_resolves 0 tom_input two_users

check_friend_lem_example :
    get_elem? (friends_of ((check_friend 1 0 "tw" two_users).0.heap 1) "tw") 0
    ≡ marked "t1" "1" (get_elem? (friends_of jerry "tw") 0)
unfolding nat_eq string_eq get_tp_id lookup
check_friend_lem_example = check_friend_lem 1 1 0 0 "tw" "tw" two_users

abbrev no_account : State
no_account = record two_users { heap = λ q. if q == 0 then record tom { bind_app = [] } else jerry }

abbrev nameless_input : InputRequest
nameless_input = record tom_input { tp_id = "" }

unbound_input_loses_friends_example :
    friends_of ((check_friend 1 0 "tw" (handle_input 0 nameless_input no_account)).0.heap 1) "tw"
    ≡ []
unfolding nat_eq get_tp_id lookup
unbound_input_loses_friends_example =
    unbound_input_loses_friends no_account 0 1 nameless_input (λ e. omega arith) refl refl

unbind_lem_example :
    let (s', err) = unbind tom_unbinds two_users in Unbound tom_unbinds two_users s' err
unbind_lem_example = unbind_lem tom_unbinds two_users two_users-Inv

uids-remove_uid_example :
    uids "tw" (remove_uid "tw" "1" two_users) ≡ without "1" (uids "tw" two_users)
unfolding string_eq
uids-remove_uid_example = uids-remove_uid "tw" "tw" "1" two_users (two_users-Distinct "tw")

only_jerry :
    (uid : String) (q : ℕ)
    → lookup uid two_users.users ≡ some q
    → get_tp_id (two_users.heap q) "tw" ≡ get_tp_id jerry "tw"
    → uid ≡ "2"
unfolding get_tp_id lookup string_eq nat_eq
only_jerry uid q h e = elim (Bool-cases (uid == "2")) [
  | inl same ↦ eq_of_== uid "2" same
  | inr differ ↦ elim (Bool-cases (uid == "1")) [
    | inl one ↦
        let zeroth : q ≡ 0 = ground (arith, h, two_users-lookup uid, one) in
        absurd
          (ne_of_== "t1" "t2" refl (subst (λ r. get_tp_id (two_users.heap r) "tw" ≡ "t2") zeroth e))
    | inr other ↦ ground (arith, h, two_users-lookup uid, differ, other)
  ]
]

mutual_relation_example :
    let s₁ = handle_input 0 tom_input two_users in
    let s₂ = (check_friend 1 0 "tw" s₁).0 in
    Memᴰ (record { user = 1; other = 0; tp_type = "tw" }) s₁.jobs
    × (reports (s₂.heap 0) "tw" "2" ≡ true)
    × (reports (s₂.heap 1) "tw" "1" ≡ true)
unfolding get_tp_id lookup string_eq nat_eq friends_of has_tp_id uids
mutual_relation_example =
    mutual_relation two_users 0 1 tom_input "2" two_users-Inv refl refl (ne_of_== "1" "2" refl) refl
      only_jerry (ne_of_== "1" "" refl) (ne_of_== "2" "" refl) (ne_of_== "t1" "" refl) refl refl

abbrev tom_binds : List (Event InputRequest)
tom_binds =
    bind_request (record { uid = "1"; type = "tw"; tp_id = "t1"; tp_name = "tom"; friends = [] })
    ∷ []

abbrev tom_served : State
tom_served = served some unbind_of named_only ("tw" ∷ []) tom_binds

abbrev tom_saved : User
tom_saved = record { uid = "1"; bind_app = ("tw", "t1") ∷ []; friends = ("tw", []) ∷ [] }

tom_written : tom_served.stored ≡ ("1", tom_saved) ∷ []
unfolding serve_all empty_state string_eq friends_of lookup nat_eq append_friends insert set_tp_id
    ready_to_merge
tom_written = refl

one_write :
    (uid : String)
    → lookup uid (("1", some tom_saved) ∷ []) ≡ read_back (last_write uid (("1", tom_saved) ∷ []))
unfolding lookup last_write
one_write uid = ground arith

tom-IsFile : IsFile tom_served.stored (("1", some tom_saved) ∷ [])
unfolding keys
tom-IsFile = record { once = (refl, tt); holds = λ uid. rw (tom_written) (one_write uid) }

tom_registered : lookup "1" tom_served.users ≡ some 0
unfolding serve_all empty_state string_eq friends_of lookup nat_eq append_friends insert set_tp_id
    ready_to_merge
tom_registered = refl

restore-serve_all_example :
    Survives "1" (tom_served.heap 0) (restore (("1", some tom_saved) ∷ []) started)
unfolding serve_all empty_state string_eq friends_of lookup nat_eq append_friends insert set_tp_id
    ready_to_merge
restore-serve_all_example =
    restore-serve_all some unbind_of named_only ("tw" ∷ []) tom_binds (("1", some tom_saved) ∷ [])
      "1" 0 tom-IsFile tom_registered (λ writes u. refl)
