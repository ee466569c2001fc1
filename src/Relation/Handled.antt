-- ===== src/Relation/Handled.antt =====
-- `handleInput` described by its result.
use mathlib.Core.Path.{fun_ext}
use bmw.Base.{==-refl, ap, arith, map, nat_eq, refl, string_eq, subst, sym, ℕ, ◌++◌, ◌∙◌, ◌≡◌}
use bmw.Relation.Input.{
  after_input, cands_of, friends_of-append_friends, friends_of-bind_input, friends_of-set_friends,
  handle_input_done, input_jobs, input_user, merged_user, merged_user-uid, tp_ids-update,
  uid_at-update, update-update, update_self,
}
use bmw.Relation.Match.{bind_input, handle_input, send_jobs}
use bmw.Relation.Registry.{uids}
use bmw.Relation.Resolve.{
  all_candidates, candidates_in, candidates_in-same, fresh, resolved, uid_at,
}
use bmw.Relation.Types.{InputRequest, State, User, modify, update}
use bmw.Relation.User.{friends_of, set_friends}

merged-friends :
    (p : ℕ) (input : InputRequest) (s : State)
    → friends_of (merged_user input (s.heap p)) input.type
      ≡ friends_of (s.heap p) input.type ++ fresh (friends_of (s.heap p) input.type) input.friends
merged-friends p input s = ground (
  arith,
  friends_of-append_friends input.type input.type
      (fresh (friends_of (s.heap p) input.type) input.friends) (bind_input input (s.heap p)),
  friends_of-bind_input input input.type (s.heap p),
)

pub input_user-bind_app :
    (s : State) (p : ℕ) (input : InputRequest)
    → let t = modify p (merged_user input) s in
      (input_user s p input).bind_app ≡ (t.heap p).bind_app
unfolding set_friends
input_user-bind_app s p input = refl

pub input_user-uid :
    (s : State) (p : ℕ) (input : InputRequest)
    → let t = modify p (merged_user input) s in (input_user s p input).uid ≡ (t.heap p).uid
unfolding set_friends
input_user-uid s p input = refl

pub input_user-same_uid :
    (s : State) (p : ℕ) (input : InputRequest) → (input_user s p input).uid ≡ (s.heap p).uid
input_user-same_uid s p input =
    let mu = merged_user input (s.heap p) in
    input_user-uid s p input
    ∙ ap (λ (w : User). w.uid) (update_self s.heap p mu)
    ∙ merged_user-uid input (s.heap p)

module _ (p : ℕ) (input : InputRequest) (s s' : State) (eu : s'.users ≡ s.users)
    (eh : s'.heap ≡ update s.heap p (input_user s p input))
    (ei : uids input.type s' ≡ uids input.type s) where
  heap-final : s'.heap ≡ update (modify p (merged_user input) s).heap p (input_user s p input)
  heap-final =
      eh ∙ sym (update-update s.heap p (merged_user input (s.heap p)) (input_user s p input))

  -- The last write of the scan changes no account, so the candidates can be read off the result.
  cands-final : cands_of s' p input.type ≡ cands_of (modify p (merged_user input) s) p input.type
  unfolding uids
  cands-final =
      let t = modify p (merged_user input) s in
      let u = input_user s p input in
      let same = tp_ids-update input.type t.heap p u (input_user-bind_app s p input) in
      let self : (s'.heap p).uid ≡ (t.heap p).uid =
        rw heap-final (uid_at-update t.heap p u (input_user-uid s p input) p) in
      candidates_in-same t s' (s'.heap p).uid input.type (uids input.type s') eu
        (λ q. rw heap-final (same q))
      ∙ (λ i. candidates_in t (self i) input.type (ei i))

  uid_at-final : uid_at s' ≡ uid_at (modify p (merged_user input) s)
  uid_at-final =
      let t = modify p (merged_user input) s in
      fun_ext (λ q.
        rw heap-final (uid_at-update t.heap p (input_user s p input) (input_user-uid s p input) q))

-- Each friend of the type, old or new in the request, carries the UID of the last other registered
-- user of the type that is bound to the friend's account, or none; and each such user has a job.
abbrev pub InputResolves : ℕ → InputRequest → State → State → Type 0
InputResolves p input s s' =
    let old = friends_of (s.heap p) input.type in
    let items = old ++ fresh old input.friends in
    let cands = cands_of s' p input.type in
    (friends_of (s'.heap p) input.type ≡ map (resolved (uid_at s') cands) items)
    × (s'.jobs ≡ s.jobs ++ send_jobs p input.type (all_candidates cands items))

InputResolves-of_write :
    (p : ℕ) (input : InputRequest) (s s' : State)
    → s'.users ≡ s.users
    → s'.heap ≡ update s.heap p (input_user s p input)
    → uids input.type s' ≡ uids input.type s
    → s'.jobs ≡ s.jobs ++ input_jobs s p input
    → InputResolves p input s s'
InputResolves-of_write p input s s' eu eh ei ej =
    let mu = merged_user input (s.heap p) in
    let items = merged-friends p input s in
    let u = input_user s p input in
    (
      rw (
        cands-final p input s s' eu eh ei,
        uid_at-final p input s s' eu eh ei,
        eh,
        update_self s.heap p u,
        friends_of-set_friends,
        ==-refl input.type,
        update_self s.heap p mu,
        items,
      ),
      ej ∙ rw (cands-final p input s s' eu eh ei, update_self s.heap p mu, items),
    )

-- After `handleInput` each friend of the type, old or new in the request, carries the UID of the
-- last other registered user of the type that is bound to the friend's account, or none; and each
-- such user has a job to check back.
pub handle_input_resolves :
    (p : ℕ) (input : InputRequest) (s : State) → InputResolves p input s (handle_input p input s)
unfolding uids
handle_input_resolves p input s =
    let r = handle_input_done p input s in
    subst (InputResolves p input s) (sym (r.2))
      (InputResolves-of_write p input s (after_input s p input r.0) refl refl (r.1 input.type) refl)
