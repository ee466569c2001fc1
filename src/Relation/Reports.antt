-- ===== src/Relation/Reports.antt =====
-- Candidates, reports and jobs of worker/relation, loop by loop.
use mathlib.Core.List.{Memᴰ}
use bmw.Base.{
  Bool, Distinct, List, Map, Option-cases, String, [], ap, arith, contains, contains-append, false,
  inl, inr, lookup, map, nat_eq, refl, some, string_eq, sym, true, ℕ, ◌++◌, ◌∷◌, ◌≡◌, ◌≢◌,
}
use bmw.Relation.Match.{has_tp_id, mark_friends, relation_of, send_jobs}
use bmw.Relation.Resolve.{all_candidates, candidates, last_uid, resolved}
use bmw.Relation.Types.{CheckFriendsJob, User, UserFriend}
use bmw.Relation.User.{friends_of}

-- Whether `getRelation` reports the UID.
abbrev pub reports : User → String → String → Bool
reports u tp uid = contains (map (λ r. r.uid) (relation_of (friends_of u tp))) uid

pub candidates-absent :
    (users : Map String ℕ) (tp_of : ℕ → String) (self tp_id other : String) (p : ℕ)
    (ids : List String)
    → lookup other users ≡ some p
    → ((uid : String) (q : ℕ)
        → lookup uid users ≡ some q
        → self ≢ uid
        → tp_of q ≡ tp_id
        → uid ≡ other)
    → contains ids other ≡ false
    → candidates users tp_of self tp_id ids ≡ []
unfolding candidates
candidates-absent users tp_of self tp_id other p [] hp only h = refl
candidates-absent users tp_of self tp_id other p (uid ∷ ids) hp only h =
    elim (Option-cases (lookup uid users)) [
      | inl e ↦ ground (arith, candidates-absent users tp_of self tp_id other p ids hp only)
      | inr (q, e) ↦
          ground (arith, candidates-absent users tp_of self tp_id other p ids hp only, only uid q e)
    ]

-- A listed user that alone is bound to an account is the only candidate for it.
pub candidates-only :
    (users : Map String ℕ) (tp_of : ℕ → String) (self tp_id other : String) (p : ℕ)
    (ids : List String)
    → lookup other users ≡ some p
    → tp_of p ≡ tp_id
    → ((uid : String) (q : ℕ)
        → lookup uid users ≡ some q
        → self ≢ uid
        → tp_of q ≡ tp_id
        → uid ≡ other)
    → self ≢ other
    → Distinct ids
    → contains ids other ≡ true
    → candidates users tp_of self tp_id ids ≡ p ∷ []
unfolding candidates
candidates-only users tp_of self tp_id other p [] hp ht only n d h = cc
candidates-only users tp_of self tp_id other p (uid ∷ ids) hp ht only n d h =
    elim (string_eq.dec uid other) [
      | yes e ↦
          let hu : lookup uid users ≡ some p = rw e hp in
          ground (arith, hu, candidates-absent users tp_of self tp_id other p ids hp only)
      | no ne ↦ elim (Option-cases (lookup uid users)) [
        | inl e ↦
            ground (arith, candidates-only users tp_of self tp_id other p ids hp ht only n d.1)
        | inr (q, e) ↦ ground (
          arith,
          candidates-only users tp_of self tp_id other p ids hp ht only n d.1,
          only uid q e,
        )
      ]
    ]

pub reports-resolved :
    (uid_of : ℕ → String) (cands : String → List ℕ) (tp_id uid : String) (items : List UserFriend)
    → last_uid uid_of "" (cands tp_id) ≡ uid
    → uid ≢ ""
    → has_tp_id tp_id items ≡ true
    → contains (map (λ r. r.uid) (relation_of (map (resolved uid_of cands) items))) uid ≡ true
unfolding relation_of has_tp_id
reports-resolved uid_of cands tp_id uid [] e n h = cc
reports-resolved uid_of cands tp_id uid (item ∷ items) e n h =
    ground (arith, reports-resolved uid_of cands tp_id uid items e n)

pub reports-marked :
    (tp_id uid : String) (items : List UserFriend)
    → uid ≢ ""
    → has_tp_id tp_id items ≡ true
    → contains (map (λ r. r.uid) (relation_of (mark_friends tp_id uid items))) uid ≡ true
unfolding relation_of has_tp_id mark_friends
reports-marked tp_id uid [] n h = cc
reports-marked tp_id uid (item ∷ items) n h = ground (arith, reports-marked tp_id uid items n)

pub contains-all_candidates :
    (cands : String → List ℕ) (tp_id : String) (b : ℕ) (items : List UserFriend)
    → cands tp_id ≡ b ∷ []
    → has_tp_id tp_id items ≡ true
    → contains (all_candidates cands items) b ≡ true
unfolding has_tp_id
contains-all_candidates cands tp_id b [] e h = cc
contains-all_candidates cands tp_id b (item ∷ items) e h = ground (
  arith,
  contains-append (cands item.tp_id) (all_candidates cands items) b,
  contains-all_candidates cands tp_id b items e,
)

abbrev pub back_job : ℕ → ℕ → String → CheckFriendsJob
back_job b a tp = record { user = b; other = a; tp_type = tp }

pub mem-send_jobs :
    (a b : ℕ) (tp : String) (back : List ℕ)
    → contains back b ≡ true
    → Memᴰ (back_job b a tp) (send_jobs a tp back)
unfolding send_jobs
mem-send_jobs a b tp [] h = cc
mem-send_jobs a b tp (q ∷ back) h = elim (nat_eq.dec q b) [
  | yes e ↦ Memᴰ.head (ap (λ q. back_job q a tp) (sym e))
  | no n ↦ Memᴰ.tail (mem-send_jobs a b tp back (ground arith))
]

pub mem-append_right {ℓ} : {A : Type ℓ} {x : A} (xs ys : List A) → Memᴰ x ys → Memᴰ x (xs ++ ys)
mem-append_right [] ys m = m
mem-append_right (x ∷ xs) ys m = Memᴰ.tail (mem-append_right xs ys m)
