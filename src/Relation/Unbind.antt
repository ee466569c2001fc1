-- ===== src/Relation/Unbind.antt =====
-- Unbinding an account, and the check of a user that has none.
use bmw.Base.{
  Distinct, Option, Option-cases, String, [], arith, if◌then◌else◌, inl, inr, lookup, lookup-erase,
  nat_eq, none, refl, some, string_eq, without, ℕ, ◌==◌, ◌≡◌, ◌≢◌, ◌⊎◌,
}
use bmw.Relation.Api.{UnbindError, unbind, user_not_found}
use bmw.Relation.Checked.{check_friend-friends}
use bmw.Relation.Invariant.{Inv}
use bmw.Relation.Match.{check_friend, handle_input, handle_unbind}
use bmw.Relation.Registry.{find_user, remove_uid, uids}
use bmw.Relation.Types.{InputRequest, State, UnbindRequest, User, modify}
use bmw.Relation.Uids.{uids-remove_uid}
use bmw.Relation.User.{friends_of, get_tp_id, remove_friends_by_type, remove_tp_id}
use bmw.Relation.Writes.{handle_input_heap, input_user_tp_id}

unfoldable pub erased : String → User → User
erased tp u = remove_friends_by_type tp (remove_tp_id tp u)

pub erased-uid : (tp : String) (u : User) → (erased tp u).uid ≡ u.uid
unfolding erased remove_friends_by_type remove_tp_id
erased-uid tp u = refl

erased-tp_id :
    (tp tp' : String) (u : User)
    → get_tp_id (erased tp u) tp' ≡ (if tp' == tp then "" else get_tp_id u tp')
unfolding erased remove_friends_by_type remove_tp_id get_tp_id
erased-tp_id tp tp' u = ground (arith, lookup-erase tp' tp u.bind_app)

erased-friends :
    (tp tp' : String) (u : User)
    → friends_of (erased tp u) tp' ≡ (if tp' == tp then [] else friends_of u tp')
unfolding erased remove_friends_by_type remove_tp_id friends_of
erased-friends tp tp' u = ground (arith, lookup-erase tp' tp u.friends)

handle_unbind-heap :
    (p q : ℕ) (req : UnbindRequest) (s : State)
    → (handle_unbind p req s).heap q ≡ (if q == p then erased req.type (s.heap p) else s.heap q)
unfolding handle_unbind remove_uid erased
handle_unbind-heap p q req s = refl

handle_unbind-uids :
    (p : ℕ) (req : UnbindRequest) (s : State) (tp : String)
    → Distinct (uids req.type s)
    → uids tp (handle_unbind p req s)
      ≡ (if tp == req.type then without req.uid (uids req.type s) else uids tp s)
unfolding handle_unbind uids remove_friends_by_type erased
handle_unbind-uids p req s tp d =
    uids-remove_uid req.type tp req.uid (modify p (erased req.type) s) d

-- A request without a user to unbind, or what is unbound of a user.
abbrev pub Unbound : UnbindRequest → State → State → Option UnbindError → Type 0
Unbound req s s' err =
    ((lookup req.uid s.users ≡ none) × (err ≡ some (user_not_found req.uid)) × (s' ≡ s))
    ⊎ ((p : ℕ) × (lookup req.uid s.users ≡ some p)
        × (err ≡ none)
        × ((tp : String)
            → get_tp_id (s'.heap p) tp ≡ (if tp == req.type then "" else get_tp_id (s.heap p) tp))
        × ((tp : String)
            → friends_of (s'.heap p) tp ≡ (if tp == req.type then [] else friends_of (s.heap p) tp))
        × ((tp : String)
            → uids tp s' ≡ (if tp == req.type then without req.uid (uids tp s) else uids tp s))
        × ((q : ℕ) → s'.heap q ≡ (if q == p then s'.heap p else s.heap q)))

-- What `unbindAccount` leaves of a request that it decodes. An unknown user is an error and changes
-- nothing. Else the user has neither an account nor friends of the type, the type no longer lists
-- the UID, and the other types, the other users and the other UIDs are as they were.
pub unbind_lem :
    (req : UnbindRequest) (s : State) → Inv s → let (s', err) = unbind req s in Unbound req s s' err
unfolding unbind find_user
unbind_lem req s v = elim (Option-cases (lookup req.uid s.users)) [
  | inl e ↦ rw (e, unbind) (inl (refl, refl, refl))
  | inr (p, e) ↦
      rw (e, unbind)
        (inr (
          p,
          refl,
          refl,
          (λ tp. ground (arith, handle_unbind-heap p p req s, erased-tp_id req.type tp (s.heap p))),
          (λ tp.
              ground (arith, handle_unbind-heap p p req s, erased-friends req.type tp (s.heap p))),
          (λ tp. ground (arith, handle_unbind-uids p req s tp (v.distinct req.type))),
          (λ q. ground (arith, handle_unbind-heap p q req s, handle_unbind-heap p p req s)),
        ))
]

-- A user that submits friends without ever naming an account of its own: the check that is sent to
-- another user empties that user's list of friends of the type.
pub unbound_input_loses_friends :
    (s : State) (a b : ℕ) (input : InputRequest)
    → a ≢ b
    → input.tp_id ≡ ""
    → get_tp_id (s.heap a) input.type ≡ ""
    → friends_of ((check_friend b a input.type (handle_input a input s)).0.heap b) input.type ≡ []
unbound_input_loses_friends s a b input n e h = ground (
  arith,
  check_friend-friends b b a input.type input.type (handle_input a input s),
  handle_input_heap a a input s,
  input_user_tp_id s a input,
)
