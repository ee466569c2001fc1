-- ===== src/Relation/Resolve.antt =====
-- What `scanAllFriends` finds, described without its loops: the candidates for a friend are the
-- other registered users of the account type that are bound to the friend's account.
use bmw.Base.{
  List, Map, Option-cases, String, [], append-nil, append_assoc, arith, if◌then◌else◌, inl, inr,
  keep, lookup, map, nat_eq, none, not, or_zero, refl, some, string_eq, sym, ℕ, ◌++◌, ◌==◌, ◌∙◌,
  ◌∷◌, ◌≡◌,
}
use bmw.Relation.Match.{has_tp_id, iter, ready_to_merge, scan_all_friends, scan_loop, send_jobs}
use bmw.Relation.Registry.{get_uids, uids}
use bmw.Relation.Types.{InputFriend, State, User, UserFriend, modify, update}
use bmw.Relation.Uids.{uids-get_uids}
use bmw.Relation.User.{friends_of, get_friends_by_type, get_tp_id, set_friends}

unfoldable pub candidates : Map String ℕ → (ℕ → String) → String → String → List String → List ℕ
candidates users tp_of self tp_id [] = []
candidates users tp_of self tp_id (uid ∷ rest) =
    let later = candidates users tp_of self tp_id rest in
    if self == uid then later else elim (lookup uid users) [
      | none ↦ later
      | some q ↦ if tp_of q == tp_id then q ∷ later else later
    ]

-- The last candidate counts.
unfoldable pub last_uid : (ℕ → String) → String → List ℕ → String
last_uid uid_of found [] = found
last_uid uid_of found (q ∷ rest) = last_uid uid_of (uid_of q) rest

abbrev pub tp_ids : State → String → ℕ → String
tp_ids s tp q = get_tp_id (s.heap q) tp

abbrev pub uid_at : State → ℕ → String
uid_at s q = (s.heap q).uid

abbrev pub candidates_in : State → String → String → List String → String → List ℕ
candidates_in s self tp ids tp_id = candidates s.users (tp_ids s tp) self tp_id ids

-- A friend with the UID that the scan gives it.
abbrev pub resolved : (ℕ → String) → (String → List ℕ) → UserFriend → UserFriend
resolved uid_of cands item = record item { uid = last_uid uid_of "" (cands item.tp_id) }

abbrev pub all_candidates : (String → List ℕ) → List UserFriend → List ℕ
all_candidates cands [] = []
all_candidates cands (item ∷ items) = cands item.tp_id ++ all_candidates cands items

-- Candidates depend on nothing but the registered users and their bindings of the type.
pub candidates_in-same :
    (s t : State) (self tp : String) (ids : List String)
    → t.users ≡ s.users
    → ((q : ℕ) → get_tp_id (t.heap q) tp ≡ get_tp_id (s.heap q) tp)
    → candidates_in t self tp ids ≡ candidates_in s self tp ids
candidates_in-same s t self tp ids e h = λ i tp_id. candidates (e i) (λ q. h q i) self tp_id ids

iter_lem :
    (s : State) (user : User) (tp : String) (item : UserFriend) (ids : List String) (found : String)
    (back : List ℕ)
    → let cs = candidates_in s user.uid tp ids item.tp_id in
      iter s user tp item ids (found, back) ≡ (last_uid (uid_at s) found cs, back ++ cs)
unfolding iter candidates last_uid
iter_lem s user tp item [] found back = ground (arith, append-nil back)
iter_lem s user tp item (uid ∷ rest) found back = elim (Option-cases (lookup uid s.users)) [
  | inl e ↦ ground (arith, iter_lem s user tp item rest found back)
  | inr (q, e) ↦ ground (
    arith,
    iter_lem s user tp item rest found back,
    iter_lem s user tp item rest (s.heap q).uid (back ++ q ∷ []),
    append_assoc back (q ∷ []) (candidates_in s user.uid tp rest item.tp_id),
  )
]

-- The state that a `getUIDs` may leave: nothing but empty lists made.
abbrev pub SameUids : Map String (List String) → State → Type 0
SameUids m s = (tp : String) → or_zero (lookup tp m) [] ≡ uids tp s

scan_loop_lem :
    (s : State) (user : User) (tp : String) (items friends : List UserFriend) (back : List ℕ)
    → (m : Map String (List String)) × SameUids m s
      × (scan_loop user tp items (s, friends, back) ≡ (
        record s { type_uid = m },
        friends ++ map (resolved (uid_at s) (candidates_in s user.uid tp (uids tp s))) items,
        back ++ all_candidates (candidates_in s user.uid tp (uids tp s)) items,
      ))
unfolding scan_loop get_uids
scan_loop_lem s user tp [] friends back =
    (s.type_uid, (λ tp'. unfold uids in refl), ground (arith, append-nil back, append-nil friends))
scan_loop_lem s user tp (item ∷ items) friends back =
    let ids = uids tp s in
    let cs = candidates_in s user.uid tp ids item.tp_id in
    let x = resolved (uid_at s) (candidates_in s user.uid tp ids) item in
    let ih = scan_loop_lem (get_uids tp s) user tp items (friends ++ x ∷ []) (back ++ cs) in
    (
      ih.0,
      (λ tp'. ih.1 tp' ∙ uids-get_uids tp tp' s),
      (rw (iter_lem (get_uids tp s) user tp item ids "" back) (
          rw (uids-get_uids tp tp s, append_assoc friends (x ∷ []), append_assoc back cs) at
            (ih.2))),
    )

-- `scanAllFriends`, with its loops done.
pub scan_all_friends_lem :
    (p : ℕ) (tp : String) (s : State)
    → let s₁ = modify p (get_friends_by_type tp) s in
      let u = s₁.heap p in
      let items = friends_of (s.heap p) tp in
      let cands = candidates_in s₁ u.uid tp (uids tp s₁) in
      (m : Map String (List String)) × SameUids m s
      × (scan_all_friends p tp s ≡ record s₁ {
        type_uid = m;
        heap = update s₁.heap p (set_friends tp (map (resolved (uid_at s₁) cands) items) u);
        jobs = s.jobs ++ send_jobs p tp (all_candidates cands items);
      })
unfolding scan_all_friends uids
scan_all_friends_lem p tp s =
    let s₁ = modify p (get_friends_by_type tp) s in
    let r = scan_loop_lem s₁ (s₁.heap p) tp (friends_of (s.heap p) tp) [] [] in
    (r.0, r.1, rw (r.2, scan_all_friends))

abbrev pub as_friend : InputFriend → UserFriend
as_friend i = record { tp_name = i.tp_name; tp_id = i.tp_id; uid = "" }

-- The friends of a request that the user does not have yet.
abbrev pub fresh : List UserFriend → List InputFriend → List UserFriend
fresh old items = map as_friend (keep (λ i. not (has_tp_id i.tp_id old)) items)

pub ready_to_merge_lem :
    (old : List UserFriend) (items : List InputFriend) (ready : List UserFriend)
    → ready_to_merge old items ready ≡ ready ++ fresh old items
unfolding ready_to_merge
ready_to_merge_lem old [] ready = sym (append-nil ready)
ready_to_merge_lem old (item ∷ items) ready = ground (
  arith,
  ready_to_merge_lem old items ready,
  ready_to_merge_lem old items (ready ++ as_friend item ∷ []),
  append_assoc ready (as_friend item ∷ []) (fresh old items),
)
