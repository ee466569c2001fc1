-- ===== src/Relation/Invariant.antt =====
-- The invariant of worker/relation between two requests, on the containers, the heap and the jobs.
use bmw.Base.{
  All, All-append, Distinct, List, Option-cases, String, [], arith, contains, inl, inr, lookup,
  nat_eq, none, some, string_eq, true, ℕ, ◌<◌, ◌∷◌, ◌≡◌, ◌≢◌,
}
use bmw.Relation.Match.{send_jobs}
use bmw.Relation.Registry.{uids}
use bmw.Relation.Resolve.{all_candidates, candidates, candidates_in}
use bmw.Relation.Types.{CheckFriendsJob, State, UserFriend}

abbrev pub JobValid : ℕ → CheckFriendsJob → Type 0
JobValid n job = (job.user < n) × (job.other < n)

pub record Inv (s : State) : Type 0 where
  pub distinct : (tp : String) → Distinct (uids tp s)
  pub named :
      (uid : String) (p : ℕ) → lookup uid s.users ≡ some p → (p < s.next) × ((s.heap p).uid ≡ uid)
  pub owned : (p : ℕ) → p < s.next → lookup (s.heap p).uid s.users ≡ some p
  pub known : (tp uid : String) → contains (uids tp s) uid ≡ true → lookup uid s.users ≢ none
  pub jobs_valid : All (JobValid s.next) s.jobs

-- A step that registers nobody and renames nobody.
pub record Keeps (s s' : State) : Type 0 where
  pub users : s'.users ≡ s.users
  pub next : s'.next ≡ s.next
  pub names : (q : ℕ) → (s'.heap q).uid ≡ (s.heap q).uid

pub Keeps-Inv :
    (s s' : State)
    → Inv s
    → Keeps s s'
    → ((tp : String) → Distinct (uids tp s'))
    → ((tp uid : String) → contains (uids tp s') uid ≡ true → lookup uid s.users ≢ none)
    → All (JobValid s.next) s'.jobs
    → Inv s'
Keeps-Inv s s' v k d h j = record {
  distinct = d;
  named = λ uid p e. ground (arith, v.named uid p, k.names p);
  owned = λ p e. ground (arith, v.owned p, k.names p);
  known = λ tp uid e. ground (arith, h tp uid);
  jobs_valid = rw (k.next) j;
}

candidates-valid :
    (s : State) (tp_of : ℕ → String) (self tp_id : String) (ids : List String)
    → Inv s
    → All (λ q. q < s.next) (candidates s.users tp_of self tp_id ids)
unfolding candidates
candidates-valid s tp_of self tp_id [] v = tt
candidates-valid s tp_of self tp_id (uid ∷ rest) v = elim (Option-cases (lookup uid s.users)) [
  | inl e ↦ ground (arith, candidates-valid s tp_of self tp_id rest v)
  | inr (q, e) ↦ ground (arith, candidates-valid s tp_of self tp_id rest v, v.named uid q e)
]

pub all_candidates-valid :
    (s : State) (tp self : String) (ids : List String) (items : List UserFriend)
    → Inv s
    → All (λ q. q < s.next) (all_candidates (candidates_in s self tp ids) items)
all_candidates-valid s tp self ids [] v = tt
all_candidates-valid s tp self ids (item ∷ items) v =
    All-append (λ q. q < s.next) (candidates_in s self tp ids item.tp_id) _
      (candidates-valid s _ self item.tp_id ids v) (all_candidates-valid s tp self ids items v)

pub send_jobs-valid :
    (p n : ℕ) (tp : String) (back : List ℕ)
    → p < n
    → All (λ q. q < n) back
    → All (JobValid n) (send_jobs p tp back)
unfolding send_jobs
send_jobs-valid p n tp [] h b = tt
send_jobs-valid p n tp (q ∷ back) h b = ((b.0, h), send_jobs-valid p n tp back h b.1)
