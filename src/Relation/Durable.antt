-- ===== src/Relation/Durable.antt =====
-- Writes of worker/relation to the bolt file: the last value under a UID, and what it holds of the
-- user in memory.
use mathlib.Core.Path.{fun_ext}
use bmw.Base.{
  ==-ne, ==-refl, Bool-cases, List, Option, String, [], ap, arith, if◌then◌else◌, inl, inr, lookup,
  nat_eq, none, refl, some, string_eq, subst, sym, true, ℕ, ◌++◌, ◌<◌, ◌==◌, ◌∙◌, ◌∷◌, ◌≡◌, ◌≢◌,
}
use bmw.Relation.Checked.{check_friend-heap}
use bmw.Relation.Handled.{input_user-same_uid}
use bmw.Relation.Input.{
  after_input, friends_of-get, get-bind_app, get-uid, handle_input_done, input_user, update_self,
}
use bmw.Relation.Invariant.{Inv}
use bmw.Relation.Match.{
  check_friend, checked_friends, get_relation, handle_input, handle_unbind, store_user,
}
use bmw.Relation.Registry.{remove_uid}
use bmw.Relation.Types.{InputRequest, State, UnbindRequest, User, stored_with, update}
use bmw.Relation.Unbind.{erased, erased-uid}
use bmw.Relation.User.{friends_of, get_friends_by_type, set_friends}

-- The value of a key after the writes.
unfoldable pub last_write : String → List (String × User) → Option User
last_write uid [] = none
last_write uid ((k, u) ∷ writes) = elim (last_write uid writes) [
  | some w ↦ some w
  | none ↦ if uid == k then some u else none
]

last_write-append :
    (uid k : String) (u : User) (writes : List (String × User))
    → last_write uid (writes ++ ((k, u) ∷ []))
      ≡ (if uid == k then some u else last_write uid writes)
unfolding last_write
last_write-append uid k u [] = refl
last_write-append uid k u ((j, w) ∷ writes) = ground (arith, last_write-append uid k u writes)

-- The user, up to lists of friends that are made empty on demand.
pub record SavedAs (u w : User) : Type 0 where
  pub same_uid : w.uid ≡ u.uid
  pub same_bind : w.bind_app ≡ u.bind_app
  pub same_friends : (tp : String) → friends_of w tp ≡ friends_of u tp

abbrev pub Saved : Option User → User → Type 0
Saved none u = ⊥
Saved (some w) u = SavedAs u w

-- The file takes every write under a UID.
abbrev pub Accepted : State → String → Type 0
Accepted s uid = (writes : List (String × User)) (u : User) → s.accepts writes uid u ≡ true

abbrev pub Durable : State → Type 0
Durable s =
    (uid : String) (p : ℕ)
    → lookup uid s.users ≡ some p
    → Accepted s uid
    → Saved (last_write uid s.stored) (s.heap p)

-- All but the user at one address.
abbrev pub DurableBut : ℕ → State → Type 0
DurableBut r s =
    (uid : String) (p : ℕ)
    → p ≢ r
    → lookup uid s.users ≡ some p
    → Accepted s uid
    → Saved (last_write uid s.stored) (s.heap p)

SavedAs-refl : (u : User) → SavedAs u u
SavedAs-refl u = record { same_uid = refl; same_bind = refl; same_friends = λ tp. refl }

own_write :
    (s : State) (r : ℕ) (u : User) (uid : String) (p : ℕ)
    → uid ≡ u.uid
    → p ≡ r
    → Accepted s uid
    → Saved (last_write uid (stored_with s u)) (update s.heap r u p)
own_write s r u uid p n same takes =
    let taken : s.accepts s.stored u.uid u ≡ true =
      subst (λ k. s.accepts s.stored k u ≡ true) n (takes s.stored u) in
    rw (taken, last_write-append uid u.uid u s.stored, n, ==-refl u.uid, same)
      (rw (update_self s.heap r u) (SavedAs-refl u))

other_write :
    (s : State) (r : ℕ) (u : User) (uid : String) (p : ℕ)
    → uid ≢ u.uid
    → p ≢ r
    → Saved (last_write uid s.stored) (s.heap p)
    → Saved (last_write uid (stored_with s u)) (update s.heap r u p)
other_write s r u uid p n other saved =
    rw (==-ne p r other) (elim (Bool-cases (s.accepts s.stored u.uid u)) [
      | inl e ↦ rw (e, last_write-append uid u.uid u s.stored, ==-ne uid u.uid n) saved
      | inr e ↦ rw (e) saved
    ])

-- One user written to the heap and to the file makes up for it.
write-Durable :
    (s s' : State) (r : ℕ) (u : User)
    → Inv s
    → r < s.next
    → u.uid ≡ (s.heap r).uid
    → s'.users ≡ s.users
    → s'.heap ≡ update s.heap r u
    → s'.stored ≡ stored_with s u
    → s'.accepts ≡ s.accepts
    → DurableBut r s
    → Durable s'
write-Durable s s' r u v h eu e₁ e₂ e₃ e₄ d uid p e' takes' =
    let e : lookup uid s.users ≡ some p = rw e₁ at e' in
    let takes : Accepted s uid = λ writes w. rw (← e₄) (takes' writes w) in
    rw (e₂, e₃)
      (elim (nat_eq.dec p r) [
        | yes same ↦
            let n : uid ≡ u.uid =
              sym (v.named uid p e).1 ∙ ap (λ q. (s.heap q).uid) same ∙ sym eu in
            own_write s r u uid p n same takes
        | no other ↦
            let n : uid ≢ u.uid = λ n. other (ground (arith, v.owned r h)) in
            other_write s r u uid p n other (d uid p other e takes)
      ])

pub Durable-but : (r : ℕ) (s : State) → Durable s → DurableBut r s
Durable-but r s d uid p n e takes = d uid p e takes

pub handle_input-Durable :
    (p : ℕ) (input : InputRequest) (s : State)
    → Inv s
    → p < s.next
    → DurableBut p s
    → Durable (handle_input p input s)
handle_input-Durable p input s v h d =
    let r = handle_input_done p input s in
    subst Durable (sym (r.2)) (
      write-Durable s (after_input s p input r.0) p (input_user s p input) v h
        (input_user-same_uid s p input) refl refl refl refl d)

pub check_friend-Durable :
    (p other : ℕ) (tp : String) (s : State)
    → Inv s
    → p < s.next
    → Durable s
    → Durable (check_friend p other tp s).0
unfolding check_friend store_user
check_friend-Durable p other tp s v h d =
    let fs = checked_friends (s.heap other) tp (friends_of (s.heap p) tp) in
    let u = set_friends tp fs (s.heap p) in
    let c = (check_friend p other tp s).0 in
    let e : c.heap ≡ update s.heap p u = fun_ext (λ q. check_friend-heap p q other tp s) in
    write-Durable s c p u v h (unfold set_friends in refl) refl e
      (ap (stored_with s) (ap (λ (h : ℕ → User). h p) e ∙ update_self s.heap p u)) refl
      (Durable-but p s d)

pub unbind-Durable :
    (p : ℕ) (req : UnbindRequest) (s : State)
    → Inv s
    → p < s.next
    → Durable s
    → Durable (handle_unbind p req s)
unfolding handle_unbind store_user remove_uid
unbind-Durable p req s v h d =
    let u = erased req.type (s.heap p) in
    write-Durable s (handle_unbind p req s) p u v h (erased-uid req.type (s.heap p)) refl
      (unfold erased in refl) (unfold erased in (ap (stored_with s) (update_self s.heap p u))) refl
      (Durable-but p s d)

Saved-get :
    (tp : String) (w : Option User) (u : User) → Saved w u → Saved w (get_friends_by_type tp u)
Saved-get tp none u h = h
Saved-get tp (some w) u h = record {
  same_uid = h.same_uid ∙ sym (get-uid tp u);
  same_bind = h.same_bind ∙ sym (get-bind_app tp u);
  same_friends = λ tp'. h.same_friends tp' ∙ sym (friends_of-get tp tp' u);
}

-- `getRelation` may make an empty list of friends, which the saved user need not have.
pub get_relation-Durable :
    (p : ℕ) (tp : String) (s : State) → Durable s → Durable (get_relation p tp s).0
unfolding get_relation
get_relation-Durable p tp s d uid q e takes = elim (nat_eq.dec q p) [
  | yes same ↦
      rw (same, update_self s.heap p (get_friends_by_type tp (s.heap p)))
        (Saved-get tp (last_write uid s.stored) (s.heap p) (rw (← same) (d uid q e takes)))
  | no other ↦ rw (==-ne q p other) (d uid q e takes)
]
