-- ===== src/Relation/Reachable.antt =====
-- The invariant of worker/relation under requests and check rounds, the empty state and `restore`.
use bmw.Base.{
  All, Bool, List, Option, Option-cases, String, [], inl, inr, insert, lookup, lookup-insert_self,
  nat_eq, none, refl, some, string_eq, subst, ℕ, ◌∷◌, ◌≡◌, ◌≢◌,
}
use bmw.Relation.Api.{
  Event, append_types, bind_request, check_next, check_round, decode_input, decode_unbind_req,
  find_or_create, friends_query, get_relation_query, post_unbind, restore, restore_user, serve,
  serve_all, start_work, unbind, unbind_account, unbind_request, work,
}
use bmw.Relation.Input.{get-uid}
use bmw.Relation.Invariant.{Inv, JobValid, Keeps-Inv}
use bmw.Relation.Match.{check_friend, checked_friends, get_relation, handle_unbind}
use bmw.Relation.Preserved.{
  append_uid-Inv, handle_input-Inv, modify-Inv, registered-Inv, remove_uid-Inv, store_user-Inv,
}
use bmw.Relation.Registry.{append_uid, find_user, set_user, uids}
use bmw.Relation.Types.{CheckFriendsJob, InputRequest, State, UnbindRequest, User, UserFriend}
use bmw.Relation.User.{
  friends_of, get_bound_app_types, get_friends_by_type, remove_friends_by_type, remove_tp_id,
  set_friends,
}

pub get_relation-Inv : (p : ℕ) (tp : String) (s : State) → Inv s → Inv (get_relation p tp s).0
unfolding get_relation
get_relation-Inv p tp s v = modify-Inv p (get_friends_by_type tp) s (get-uid tp) v

set_friends-uid :
    (tp : String) (fs : List UserFriend) (u : User) → (set_friends tp fs u).uid ≡ u.uid
unfolding set_friends
set_friends-uid tp fs u = refl

pub check_friend-Inv :
    (p other : ℕ) (tp : String) (s : State) → Inv s → Inv (check_friend p other tp s).0
unfolding check_friend
check_friend-Inv p other tp s v = store_user-Inv p _ (
    modify-Inv p (set_friends tp (checked_friends (s.heap other) tp (friends_of (s.heap p) tp))) _
      (set_friends-uid tp _) (modify-Inv p (get_friends_by_type tp) s (get-uid tp) v))

-- Taking the first job off the channel.
pub drop_job-Inv :
    (job : CheckFriendsJob) (rest : List CheckFriendsJob) (s : State)
    → s.jobs ≡ job ∷ rest
    → Inv s
    → Inv (record s { jobs = rest })
drop_job-Inv job rest s e v =
    Keeps-Inv s (record s { jobs = rest }) v
      (record { users = refl; next = refl; names = λ q. refl }) (unfold uids in v.distinct)
      (unfold uids in v.known) ((subst (All (JobValid s.next)) e v.jobs_valid).1)

check_next-Inv :
    (jobs : List CheckFriendsJob) (s : State) → s.jobs ≡ jobs → Inv s → Inv (check_next jobs s)
unfolding check_next
check_next-Inv [] s e v = v
check_next-Inv (job ∷ rest) s e v =
    check_friend-Inv job.user job.other job.tp_type (record s { jobs = rest })
      (drop_job-Inv job rest s e v)

handle_unbind-Inv : (p : ℕ) (req : UnbindRequest) (s : State) → Inv s → Inv (handle_unbind p req s)
unfolding handle_unbind
handle_unbind-Inv p req s v = store_user-Inv p _ (
    remove_uid-Inv req.type req.uid _ (
      modify-Inv p (λ u. remove_friends_by_type req.type (remove_tp_id req.type u)) s
        (λ u. unfold remove_friends_by_type remove_tp_id in refl) v))

pub unbind-Inv : (req : UnbindRequest) (s : State) → Inv s → Inv (unbind req s).0
unfolding unbind
unbind-Inv req s v = elim (Option-cases (find_user req.uid s)) [
  | inl e ↦ rw (e, unbind) v
  | inr (p, e) ↦ rw (e, unbind) (handle_unbind-Inv p req s v)
]

-- What `startWork` finds or makes: a registered address.
pub find_or_create-Inv :
    (req : InputRequest) (s : State)
    → Inv s
    → let (p, s₁) = find_or_create req s in Inv s₁ × (lookup req.uid s₁.users ≡ some p)
unfolding find_or_create find_user
find_or_create-Inv req s v = elim (Option-cases (lookup req.uid s.users)) [
  | inl e ↦
      rw (e, find_or_create)
        (
          registered-Inv req.uid _ s e refl v,
          unfold set_user in lookup-insert_self req.uid s.next s.users,
        )
  | inr (p, e) ↦ rw (e, find_or_create) (v, e)
]

pub work-Inv : (req : InputRequest) (s : State) → Inv s → Inv (work req s)
unfolding work
work-Inv req s v =
    let (p, s₁) = find_or_create req s in
    let f = find_or_create-Inv req s v in
    handle_input-Inv p req (append_uid req.type req.uid s₁) (f.0.named req.uid p (f.1)).0
      (append_uid-Inv req.type req.uid s₁ (λ e. cc (f.1)) f.0)

module _ {ℓ} {Bytes : Type ℓ} (input_of : Bytes → Option InputRequest)
    (unbind_of : Bytes → Option UnbindRequest) where
  start_work-Inv : (b : Bytes) (s : State) → Inv s → Inv (start_work input_of b s)
  unfolding start_work
  start_work-Inv b s v = elim (Option-cases (decode_input input_of b s)) [
    | inl e ↦ rw (e, start_work) v
    | inr (req, e) ↦ rw (e, start_work) (work-Inv req s v)
  ]

  post_unbind-Inv : (b : Bytes) (s : State) → Inv s → Inv (post_unbind unbind_of b s).0
  unfolding post_unbind unbind_account
  post_unbind-Inv b s v = elim (Option-cases (decode_unbind_req unbind_of b s)) [
    | inl e ↦ rw (e, unbind_account) v
    | inr (req, e) ↦ rw (e, unbind_account) (unbind-Inv req s v)
  ]

  friends_query-Inv :
      (uid tp : Option String) (s : State) → Inv s → Inv (get_relation_query uid tp s).0
  unfolding get_relation_query find_user
  friends_query-Inv none tp s v = v
  friends_query-Inv (some uid) none s v = v
  friends_query-Inv (some uid) (some tp) s v = elim (Option-cases (lookup uid s.users)) [
    | inl e ↦ rw (e, get_relation_query) v
    | inr (p, e) ↦ rw (e, get_relation_query) (get_relation-Inv p tp s v)
  ]

  pub serve-Inv : (e : Event Bytes) (s : State) → Inv s → Inv (serve input_of unbind_of e s)
  unfolding serve
  serve-Inv (bind_request b) s v = start_work-Inv b s v
  serve-Inv (unbind_request b) s v = post_unbind-Inv b s v
  serve-Inv (friends_query uid tp) s v = friends_query-Inv uid tp s v
  serve-Inv check_round s v = check_next-Inv s.jobs s refl v

  -- Any bind, unbind and friends requests and check rounds, in any order, keep the invariant: no type
  -- lists a UID twice, every listed UID has a user, every user is found under its own UID, and the
  -- jobs name users that exist.
  pub serve_all-Inv :
      (es : List (Event Bytes)) (s : State) → Inv s → Inv (serve_all input_of unbind_of es s)
  unfolding serve_all
  serve_all-Inv [] s v = v
  serve_all-Inv (e ∷ es) s v = serve_all-Inv es (serve input_of unbind_of e s) (serve-Inv e s v)

-- The variables of the package before the first request.
unfoldable pub empty_state : (List (String × User) → String → User → Bool) → List String → State
empty_state accepts valid_types = record {
  valid_types = valid_types;
  type_uid = [];
  users = [];
  heap = λ p. record { uid = ""; bind_app = []; friends = [] };
  next = 0;
  jobs = [];
  stored = [];
  accepts = accepts;
}

pub empty_state-Inv :
    (accepts : List (String × User) → String → User → Bool) (valid_types : List String)
    → Inv (empty_state accepts valid_types)
unfolding empty_state uids lookup
empty_state-Inv accepts valid_types = record {
  distinct = λ tp. tt;
  named = λ uid p h. cc;
  owned = λ p h. elim h [ ];
  known = λ tp uid h. cc;
  jobs_valid = tt;
}

-- The entries of a file that the worker wrote: each user under its own UID, and no UID twice.
abbrev pub Entries : State → List (String × Option User) → Type 0
Entries s [] = Unit
Entries s ((k, none) ∷ es) = Entries s es
Entries s ((k, some user) ∷ es) =
    (user.uid ≡ k) × (lookup k s.users ≡ none) × Entries (restore_user k user s) es

append_types-Inv :
    (types : List String) (uid : String) (s : State)
    → lookup uid s.users ≢ none
    → Inv s
    → Inv (append_types types uid s)
unfolding append_types
append_types-Inv [] uid s h v = v
append_types-Inv (tp ∷ types) uid s h v =
    append_types-Inv types uid (append_uid tp uid s) (unfold append_uid in h)
      (append_uid-Inv tp uid s h v)

restore_user-Inv :
    (k : String) (user : User) (s : State)
    → user.uid ≡ k
    → lookup k s.users ≡ none
    → Inv s
    → Inv (restore_user k user s)
unfolding restore_user
restore_user-Inv k user s e h v =
    let there : lookup k (insert k s.next s.users) ≡ some s.next =
      lookup-insert_self k s.next s.users in
    append_types-Inv (get_bound_app_types user) k _ (unfold set_user in λ n. cc there)
      (registered-Inv k user s h e v)

-- Reading back a file that holds distinct users, each under its own UID, keeps the containers and
-- the heap consistent; a value that cannot be read ends the reading and keeps them so too.
pub restore-Inv :
    (es : List (String × Option User)) (s : State) → Entries s es → Inv s → Inv (restore es s)
unfolding restore
restore-Inv [] s h v = v
restore-Inv ((k, none) ∷ es) s h v = v
restore-Inv ((k, some user) ∷ es) s h v =
    restore-Inv es (restore_user k user s) h.2 (restore_user-Inv k user s h.0 h.1 v)
