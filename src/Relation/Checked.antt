-- ===== src/Relation/Checked.antt =====
-- What a round of the check does to the friends of its user.
use bmw.Base.{
  Bool-cases, List, Option, String, [], ap, arith, get_elem?, if◌then◌else◌, inl, inr, nat_eq, none,
  refl, some, string_eq, suc, zero, ℕ, ◌&&◌, ◌==◌, ◌∙◌, ◌∷◌, ◌≡◌,
}
use bmw.Relation.Input.{friends_of-set_friends, set_friends-get}
use bmw.Relation.Match.{check_friend, checked_friends, mark_friends, store_user}
use bmw.Relation.Types.{State, UserFriend}
use bmw.Relation.User.{friends_of, get_tp_id, set_friends}

pub check_friend-heap :
    (p q other : ℕ) (tp : String) (s : State)
    → (check_friend p other tp s).0.heap q ≡ (
        if q == p
        then set_friends tp
            (checked_friends (s.heap other) tp (friends_of (s.heap p) tp))
            (s.heap p)
        else s.heap q)
unfolding check_friend store_user
check_friend-heap p q other tp s = ground (
  arith,
  set_friends-get tp (checked_friends (s.heap other) tp (friends_of (s.heap p) tp)) (s.heap p),
)

pub check_friend-friends :
    (p q other : ℕ) (tp tp' : String) (s : State)
    → let jerry = get_tp_id (s.heap other) tp in
      friends_of ((check_friend p other tp s).0.heap q) tp' ≡ (
        if q == p && tp' == tp
        then (if jerry == ""
            then []
            else mark_friends jerry (s.heap other).uid (friends_of (s.heap p) tp))
        else friends_of (s.heap q) tp')
unfolding checked_friends
check_friend-friends p q other tp tp' s = ground (
  arith,
  check_friend-heap p q other tp s,
  friends_of-set_friends tp tp' (checked_friends (s.heap other) tp (friends_of (s.heap p) tp))
      (s.heap p),
)

-- A friend once it is checked against an account and its user.
abbrev pub marked : String → String → Option UserFriend → Option UserFriend
marked jerry uid none = none
marked jerry uid (some f) = some (record f { uid = if f.tp_id == jerry then uid else f.uid })

get_elem?-mark_friends :
    (jerry uid : String) (fs : List UserFriend) (i : ℕ)
    → get_elem? (mark_friends jerry uid fs) i ≡ marked jerry uid (get_elem? fs i)
unfolding mark_friends
get_elem?-mark_friends jerry uid [] i = refl
get_elem?-mark_friends jerry uid (f ∷ fs) zero = elim (Bool-cases (f.tp_id == jerry)) [
  | inl e ↦ rw (e) refl
  | inr e ↦ rw (e) refl
]
get_elem?-mark_friends jerry uid (f ∷ fs) (suc i) = get_elem?-mark_friends jerry uid fs i

-- A round of the check writes the friends of one user and one type, each at its place: a friend whose account
-- is that of the other user gets the other's UID, and all else of it and every other friend stays. Where the
-- other user has no account of the type, all the friends of the type are lost.
pub check_friend_lem :
    (p q other i : ℕ) (tp tp' : String) (s : State)
    → let jerry = get_tp_id (s.heap other) tp in
      get_elem? (friends_of ((check_friend p other tp s).0.heap q) tp') i ≡ (
        if q == p && tp' == tp
        then (if jerry == ""
            then none
            else marked jerry (s.heap other).uid (get_elem? (friends_of (s.heap p) tp) i))
        else get_elem? (friends_of (s.heap q) tp') i)
check_friend_lem p q other i tp tp' s =
    let jerry = get_tp_id (s.heap other) tp in
    ap (λ fs. get_elem? fs i) (check_friend-friends p q other tp tp' s)
    ∙ elim (Bool-cases (q == p && tp' == tp)) [
      | inl e ↦ rw (e) (elim (Bool-cases (jerry == "")) [
        | inl gone ↦ rw (gone) refl
        | inr there ↦
            rw (there)
              (get_elem?-mark_friends jerry (s.heap other).uid (friends_of (s.heap p) tp) i)
      ])
      | inr e ↦ rw (e) refl
    ]
