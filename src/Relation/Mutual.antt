-- ===== src/Relation/Mutual.antt =====
-- Two users that list one another, of whom one submits: `handleInput` and the check round after it.
use mathlib.Core.List.{Memᴰ}
use bmw.Base.{
  ==-ne, String, [], ap, arith, contains, lookup, map, nat_eq, some, string_eq, sym, true, ℕ, ◌++◌,
  ◌∙◌, ◌∷◌, ◌≡◌, ◌≢◌,
}
use bmw.Relation.Checked.{check_friend-friends}
use bmw.Relation.Handled.{handle_input_resolves, input_user-same_uid}
use bmw.Relation.Input.{cands_of, input_user, update_self}
use bmw.Relation.Invariant.{Inv}
use bmw.Relation.Match.{check_friend, handle_input, has_tp_id, mark_friends, send_jobs}
use bmw.Relation.Registry.{uids}
use bmw.Relation.Reports.{
  back_job, candidates-only, contains-all_candidates, mem-append_right, mem-send_jobs, reports,
  reports-marked, reports-resolved,
}
use bmw.Relation.Resolve.{all_candidates, fresh, last_uid, resolved, tp_ids, uid_at}
use bmw.Relation.Types.{InputRequest, State, User}
use bmw.Relation.User.{friends_of, get_tp_id}
use bmw.Relation.Writes.{handle_input_heap, handle_input_users, input_user_tp_id, uids-handle_input}

module _ (s : State) (a b : ℕ) (input : InputRequest) (other : String) (v : Inv s)
    (ha : lookup input.uid s.users ≡ some a) (hb : lookup other s.users ≡ some b)
    (ne : input.uid ≢ other) (listed : contains (uids input.type s) other ≡ true)
    (only : (uid : String) (q : ℕ)
      → lookup uid s.users ≡ some q
      → get_tp_id (s.heap q) input.type ≡ get_tp_id (s.heap b) input.type
      → uid ≡ other) where
  after : State
  after = handle_input a input s

  self-uid : (after.heap a).uid ≡ input.uid
  unfolding after
  self-uid =
      ap (λ (u : User). u.uid)
        (handle_input_heap a a input s ∙ update_self s.heap a (input_user s a input))
      ∙ input_user-same_uid s a input
      ∙ (v.named input.uid a ha).1

  -- Nobody but the submitting user is touched.
  other-heap :
      (q : ℕ) (uid : String)
      → lookup uid s.users ≡ some q
      → input.uid ≢ uid
      → after.heap q ≡ s.heap q
  unfolding after
  other-heap q uid h n =
      ground (arith, handle_input_heap a q input s, v.named uid q h, v.named input.uid a ha)

  -- The other user is the only candidate for its own account.
  cands_other : cands_of after a input.type (get_tp_id (s.heap b) input.type) ≡ b ∷ []
  cands_other =
      let tp = input.type in
      candidates-only after.users (tp_ids after tp) (after.heap a).uid (get_tp_id (s.heap b) tp)
        other b (uids tp after) (unfold after in rw (handle_input_users a input s) hb)
        (ap (λ u. get_tp_id u tp) (other-heap b other hb ne))
        (λ uid q h n e.
          let hu : lookup uid s.users ≡ some q =
            unfold after in rw (handle_input_users a input s) at h in
          let nu : input.uid ≢ uid = rw self-uid at n in
          only uid q hu (ap (λ u. get_tp_id u tp) (sym (other-heap q uid hu nu)) ∙ e))
        (rw self-uid ne) (unfold after in rw (uids-handle_input a input s tp) (v.distinct tp))
        (unfold after in rw (uids-handle_input a input s tp) listed)

  module _ (named_a : input.uid ≢ "") (named_b : other ≢ "") (bound_a : input.tp_id ≢ "")
      (lists_b : has_tp_id (get_tp_id (s.heap b) input.type) (
          friends_of (s.heap a) input.type
          ++ fresh (friends_of (s.heap a) input.type) input.friends)
        ≡ true)
      (lists_a : has_tp_id input.tp_id (friends_of (s.heap b) input.type) ≡ true) where
    last_other :
        last_uid (uid_at after) "" (cands_of after a input.type (get_tp_id (s.heap b) input.type))
        ≡ other
    unfolding last_uid
    last_other =
        rw cands_other
          (ap (λ (u : User). u.uid) (other-heap b other hb ne) ∙ (v.named other b hb).1)

    a_reports_b : reports (after.heap a) input.type other ≡ true
    a_reports_b =
        let tp = input.type in
        let items = friends_of (s.heap a) tp ++ fresh (friends_of (s.heap a) tp) input.friends in
        let cands = cands_of after a tp in
        let h : friends_of (after.heap a) tp ≡ map (resolved (uid_at after) cands) items =
          unfold after in (handle_input_resolves a input s).0 in
        rw h (
          reports-resolved (uid_at after) cands (get_tp_id (s.heap b) tp) other items last_other
            named_b lists_b)

    a-tp_id : get_tp_id (after.heap a) input.type ≡ input.tp_id
    unfolding after
    a-tp_id =
        ap (λ u. get_tp_id u input.type)
          (handle_input_heap a a input s ∙ update_self s.heap a (input_user s a input))
        ∙ input_user_tp_id s a input
        ∙ rw (==-ne input.tp_id "" bound_a)

    a-ne-b : a ≢ b
    a-ne-b e =
        ne (sym (v.named input.uid a ha).1 ∙ ap (λ q. (s.heap q).uid) e ∙ (v.named other b hb).1)

    checked : State
    checked = (check_friend b a input.type after).0

    b_reports_a : reports (checked.heap b) input.type input.uid ≡ true
    unfolding checked
    b_reports_a =
        let tp = input.type in
        let h : friends_of (checked.heap b) tp
            ≡ mark_friends input.tp_id input.uid (friends_of (s.heap b) tp) =
          ground (
            arith,
            check_friend-friends b b a tp tp after,
            a-tp_id,
            self-uid,
            other-heap b other hb ne,
          ) in
        rw h (reports-marked input.tp_id input.uid (friends_of (s.heap b) tp) named_a lists_a)

    still_a_reports_b : reports (checked.heap a) input.type other ≡ true
    unfolding checked
    still_a_reports_b =
        let tp = input.type in
        let h : friends_of (checked.heap a) tp ≡ friends_of (after.heap a) tp =
          ground (arith, check_friend-friends b a a tp tp after, a-ne-b) in
        rw h a_reports_b

    job_sent : Memᴰ (back_job b a input.type) after.jobs
    job_sent =
        let tp = input.type in
        let items = friends_of (s.heap a) tp ++ fresh (friends_of (s.heap a) tp) input.friends in
        let back = all_candidates (cands_of after a tp) items in
        let h : after.jobs ≡ s.jobs ++ send_jobs a tp back =
          unfold after in (handle_input_resolves a input s).1 in
        rw h (
          mem-append_right s.jobs (send_jobs a tp back) (
            mem-send_jobs a b tp back (
              contains-all_candidates (cands_of after a tp) (get_tp_id (s.heap b) tp) b items
                cands_other lists_b)))

-- Let user `a` submit an account, and let it list, now or before, the account of user `b`, who is
-- registered for the type, alone bound to that account, and lists the submitted account. Then a
-- job to check `b` against `a` is sent, and after that round both relations report the other.
pub mutual_relation :
    (s : State) (a b : ℕ) (input : InputRequest) (other : String)
    → Inv s
    → lookup input.uid s.users ≡ some a
    → lookup other s.users ≡ some b
    → input.uid ≢ other
    → contains (uids input.type s) other ≡ true
    → ((uid : String) (q : ℕ)
        → lookup uid s.users ≡ some q
        → get_tp_id (s.heap q) input.type ≡ get_tp_id (s.heap b) input.type
        → uid ≡ other)
    → input.uid ≢ ""
    → other ≢ ""
    → input.tp_id ≢ ""
    → has_tp_id
        (get_tp_id (s.heap b) input.type)
        (friends_of (s.heap a) input.type ++ fresh (friends_of (s.heap a) input.type) input.friends)
      ≡ true
    → has_tp_id input.tp_id (friends_of (s.heap b) input.type) ≡ true
    → let s₁ = handle_input a input s in
      let s₂ = (check_friend b a input.type s₁).0 in
      Memᴰ (record { user = b; other = a; tp_type = input.type }) s₁.jobs
      × (reports (s₂.heap a) input.type other ≡ true)
      × (reports (s₂.heap b) input.type input.uid ≡ true)
unfolding after checked
mutual_relation s a b input other v ha hb ne listed only na nb ba lb la = (
  job_sent s a b input other v ha hb ne listed only na nb ba lb la,
  still_a_reports_b s a b input other v ha hb ne listed only na nb ba lb la,
  b_reports_a s a b input other v ha hb ne listed only na nb ba lb la,
)
