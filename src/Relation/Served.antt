-- ===== src/Relation/Served.antt =====
-- The bolt file over sequences of requests and check rounds, operation by operation.
use bmw.Base.{
  ==-ne, All, Bool, List, Option, Option-cases, String, [], arith, inl, inr, lookup, lookup-insert,
  nat_eq, none, refl, some, string_eq, subst, ◌∷◌, ◌≡◌,
}
use bmw.Relation.Api.{
  Event, bind_request, check_next, check_round, decode_input, decode_unbind_req, find_or_create,
  friends_query, get_relation_query, post_unbind, serve, serve_all, start_work, unbind,
  unbind_account, unbind_request, work,
}
use bmw.Relation.Durable.{
  Durable, Durable-but, DurableBut, check_friend-Durable, get_relation-Durable,
  handle_input-Durable, unbind-Durable,
}
use bmw.Relation.Invariant.{Inv, JobValid}
use bmw.Relation.Preserved.{append_uid-Inv}
use bmw.Relation.Reachable.{drop_job-Inv, empty_state, find_or_create-Inv, serve-Inv}
use bmw.Relation.Registry.{append_uid, find_user, set_user}
use bmw.Relation.Types.{CheckFriendsJob, InputRequest, State, UnbindRequest, User}

find_or_create-Durable :
    (req : InputRequest) (s : State)
    → Durable s
    → let (p, s₁) = find_or_create req s in DurableBut p s₁
unfolding find_or_create find_user
find_or_create-Durable req s d = elim (Option-cases (lookup req.uid s.users)) [
  | inl e ↦
      rw (e, find_or_create)
        (unfold set_user in
          λ uid q n h takes.
            let old : lookup uid s.users ≡ some q =
              ground (arith, lookup-insert uid req.uid s.next s.users) in
            rw (==-ne q s.next n) (d uid q old takes))
  | inr (p, e) ↦ rw (e, find_or_create) (Durable-but p s d)
]

work-Durable : (req : InputRequest) (s : State) → Inv s → Durable s → Durable (work req s)
unfolding work
work-Durable req s v d =
    let (p, s₁) = find_or_create req s in
    let f = find_or_create-Inv req s v in
    handle_input-Durable p req (append_uid req.type req.uid s₁)
      (append_uid-Inv req.type req.uid s₁ (λ e. cc (f.1)) f.0) (f.0.named req.uid p (f.1)).0
      (unfold append_uid in find_or_create-Durable req s d)

check_next-Durable :
    (jobs : List CheckFriendsJob) (s : State)
    → s.jobs ≡ jobs
    → Inv s
    → Durable s
    → Durable (check_next jobs s)
unfolding check_next
check_next-Durable [] s e v d = d
check_next-Durable (job ∷ rest) s e v d =
    let valid = subst (All (JobValid s.next)) e v.jobs_valid in
    check_friend-Durable job.user job.other job.tp_type (record s { jobs = rest })
      (drop_job-Inv job rest s e v) valid.0.0 d

unbound-Durable : (req : UnbindRequest) (s : State) → Inv s → Durable s → Durable (unbind req s).0
unfolding unbind
unbound-Durable req s v d = elim (Option-cases (find_user req.uid s)) [
  | inl e ↦ rw (e, unbind) d
  | inr (p, e) ↦
      rw (e, unbind) (unbind-Durable p req s v (v.named req.uid p (unfold find_user in e)).0 d)
]

module _ {ℓ} {Bytes : Type ℓ} (input_of : Bytes → Option InputRequest)
    (unbind_of : Bytes → Option UnbindRequest) where
  start_work-Durable :
      (b : Bytes) (s : State) → Inv s → Durable s → Durable (start_work input_of b s)
  unfolding start_work
  start_work-Durable b s v d = elim (Option-cases (decode_input input_of b s)) [
    | inl e ↦ rw (e, start_work) d
    | inr (req, e) ↦ rw (e, start_work) (work-Durable req s v d)
  ]

  post_unbind-Durable :
      (b : Bytes) (s : State) → Inv s → Durable s → Durable (post_unbind unbind_of b s).0
  unfolding post_unbind unbind_account
  post_unbind-Durable b s v d = elim (Option-cases (decode_unbind_req unbind_of b s)) [
    | inl e ↦ rw (e, unbind_account) d
    | inr (req, e) ↦ rw (e, unbind_account) (unbound-Durable req s v d)
  ]

  friends_query-Durable :
      (uid tp : Option String) (s : State) → Durable s → Durable (get_relation_query uid tp s).0
  unfolding get_relation_query find_user
  friends_query-Durable none tp s d = d
  friends_query-Durable (some uid) none s d = d
  friends_query-Durable (some uid) (some tp) s d = elim (Option-cases (lookup uid s.users)) [
    | inl e ↦ rw (e, get_relation_query) d
    | inr (p, e) ↦ rw (e, get_relation_query) (get_relation-Durable p tp s d)
  ]

  serve-Durable :
      (e : Event Bytes) (s : State) → Inv s → Durable s → Durable (serve input_of unbind_of e s)
  unfolding serve
  serve-Durable (bind_request b) s v d = start_work-Durable b s v d
  serve-Durable (unbind_request b) s v d = post_unbind-Durable b s v d
  serve-Durable (friends_query uid tp) s v d = friends_query-Durable uid tp s d
  serve-Durable check_round s v d = check_next-Durable s.jobs s refl v d

  -- From a state with the invariant whose file is up to date, any requests and check rounds, in any
  -- order, leave the file up to date: of every registered user whose UID the file takes at
  -- every write it holds the bindings and friends.
  pub serve_all-Durable :
      (es : List (Event Bytes)) (s : State)
      → Inv s
      → Durable s
      → Durable (serve_all input_of unbind_of es s)
  unfolding serve_all
  serve_all-Durable [] s v d = d
  serve_all-Durable (e ∷ es) s v d =
      serve_all-Durable es (serve input_of unbind_of e s) (serve-Inv input_of unbind_of e s v)
        (serve-Durable e s v d)

pub empty_state-Durable :
    (accepts : List (String × User) → String → User → Bool) (valid_types : List String)
    → Durable (empty_state accepts valid_types)
unfolding empty_state lookup
empty_state-Durable accepts valid_types uid p e h = cc
