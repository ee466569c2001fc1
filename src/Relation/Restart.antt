-- ===== src/Relation/Restart.antt =====
-- A restart of worker/relation: `restore` of storage.go on the file that the writes of the requests made.
use bmw.Base.{
  Bool, Bool-cases, Distinct, List, Option, String, [], ap, arith, contains, contains-append,
  contains-keys, eq_of_==, false, inl, inr, keys, lookup, lookup-insert, lookup-insert_self, nat_eq,
  none, refl, some, string_eq, subst, suc, sym, true, ℕ, ◌<◌, ◌==◌, ◌∙◌, ◌∷◌, ◌≡◌,
}
use bmw.Relation.Api.{Event, append_types, restore, restore_user, serve_all}
use bmw.Relation.Durable.{Accepted, Saved, SavedAs, last_write}
use bmw.Relation.Input.{update_self}
use bmw.Relation.Reachable.{empty_state, empty_state-Inv}
use bmw.Relation.Registry.{append_uid, set_user, uids}
use bmw.Relation.Served.{empty_state-Durable, serve_all-Durable}
use bmw.Relation.Types.{InputRequest, State, UnbindRequest, User, update}
use bmw.Relation.Uids.{uids-append_uid}
use bmw.Relation.User.{get_bound_app_types}

-- A value that was encoded decodes to the same user.
abbrev pub read_back : Option User → Option (Option User)
read_back none = none
read_back (some u) = some (some u)

-- The file under its keys, each with the last value that was written to it. A bolt file has each key once,
-- in the order of the keys, and a value that was encoded decodes to the same user.
pub record IsFile (writes : List (String × User)) (es : List (String × Option User)) : Type 0 where
  pub once : Distinct (keys es)
  pub holds : (uid : String) → lookup uid es ≡ read_back (last_write uid writes)

-- Every entry can be read.
abbrev Readable : List (String × Option User) → Type 0
Readable es = (uid : String) → ¬ (lookup uid es ≡ some none)

tail-Readable :
    (k : String) (o : Option User) (es : List (String × Option User))
    → contains (keys es) k ≡ false
    → Readable ((k, o) ∷ es)
    → Readable es
unfolding lookup
tail-Readable k o es h readable uid e = readable uid (ground (arith, contains-keys es k h))

append_types-users :
    (types : List String) (uid : String) (s : State)
    → ((append_types types uid s).users ≡ s.users)
      × ((append_types types uid s).heap ≡ s.heap)
      × ((append_types types uid s).next ≡ s.next)
unfolding append_types append_uid
append_types-users [] uid s = (refl, refl, refl)
append_types-users (tp ∷ types) uid s = append_types-users types uid (append_uid tp uid s)

-- Appending to the lists of types removes nothing from them.
append_uid-keeps :
    (tp tp' uid uid' : String) (s : State)
    → contains (uids tp' s) uid' ≡ true
    → contains (uids tp' (append_uid tp uid s)) uid' ≡ true
append_uid-keeps tp tp' uid uid' s h = ground (
  arith,
  uids-append_uid tp tp' uid s,
  contains-append (uids tp' s) (uid ∷ []) uid',
  contains-append (uids tp s) (uid ∷ []) uid',
)

append_uid-lists :
    (tp uid : String) (s : State) → contains (uids tp (append_uid tp uid s)) uid ≡ true
append_uid-lists tp uid s =
    ground (arith, uids-append_uid tp tp uid s, contains-append (uids tp s) (uid ∷ []) uid)

append_types-keeps :
    (types : List String) (tp uid uid' : String) (s : State)
    → contains (uids tp s) uid' ≡ true
    → contains (uids tp (append_types types uid s)) uid' ≡ true
unfolding append_types
append_types-keeps [] tp uid uid' s h = h
append_types-keeps (t ∷ types) tp uid uid' s h =
    append_types-keeps types tp uid uid' (append_uid t uid s) (append_uid-keeps t tp uid uid' s h)

append_types-lists :
    (types : List String) (tp uid : String) (s : State)
    → contains types tp ≡ true
    → contains (uids tp (append_types types uid s)) uid ≡ true
unfolding append_types
append_types-lists [] tp uid s h = cc
append_types-lists (t ∷ types) tp uid s h = elim (Bool-cases (t == tp)) [
  | inl e ↦
      let same : t ≡ tp = eq_of_== t tp e in
      append_types-keeps types tp uid uid (append_uid t uid s) (
        subst (λ x. contains (uids x (append_uid t uid s)) uid ≡ true) same
          (append_uid-lists t uid s))
  | inr ne ↦ append_types-lists types tp uid (append_uid t uid s) (ground arith)
]

-- A user stays where it is while others are read.
module _ (uid : String) (q : ℕ) where
  abbrev At : User → State → Type 0
  At u s =
      (lookup uid s.users ≡ some q)
      × (q < s.next)
      × (s.heap q ≡ u)
      × ((tp : String) → contains (keys u.bind_app) tp ≡ true → contains (uids tp s) uid ≡ true)

  restore_user-At :
      (u : User) (k : String) (user : User) (s : State)
      → (uid == k) ≡ false
      → At u s
      → At u (restore_user k user s)
  unfolding restore_user set_user
  restore_user-At u k user s ne (there, below, same, listed) =
      let allocated = record s { heap = update s.heap s.next user; next = suc s.next } in
      let kept = append_types-users (get_bound_app_types user) k (set_user k s.next allocated) in
      rw (kept.0, kept.1, kept.2, lookup-insert uid k s.next s.users, ne)
        (
          there,
          omega arith,
          ground (arith, same),
          λ tp bound.
              append_types-keeps (get_bound_app_types user) tp k uid (set_user k s.next allocated)
                (unfold uids in listed tp bound),
        )

  restore-At :
      (u : User) (es : List (String × Option User)) (s : State)
      → contains (keys es) uid ≡ false
      → At u s
      → At u (restore es s)
  unfolding restore keys
  restore-At u [] s h there = there
  restore-At u ((k, none) ∷ es) s h there = there
  restore-At u ((k, some user) ∷ es) s h there =
      restore-At u es (restore_user k user s) (ground arith)
        (restore_user-At u k user s (ground arith) there)

restored-At : (k : String) (user : User) (s : State) → At k s.next user (restore_user k user s)
unfolding restore_user set_user
restored-At k user s =
    let allocated = record s { heap = update s.heap s.next user; next = suc s.next } in
    let kept = append_types-users (get_bound_app_types user) k (set_user k s.next allocated) in
    rw (kept.0, kept.1, kept.2)
      (
        lookup-insert_self k s.next s.users,
        omega arith,
        update_self s.heap s.next user,
        λ tp bound.
            append_types-lists (get_bound_app_types user) tp k (set_user k s.next allocated)
              (unfold get_bound_app_types in bound),
      )

restore-finds :
    (es : List (String × Option User)) (s : State) (uid : String) (u : User)
    → Distinct (keys es)
    → Readable es
    → lookup uid es ≡ some (some u)
    → (q : ℕ) × At uid q u (restore es s)
unfolding restore keys lookup
restore-finds [] s uid u once readable h = cc
restore-finds ((k, none) ∷ es) s uid u once readable h = absurd (readable k (ground arith))
restore-finds ((k, some user) ∷ es) s uid u once readable h = elim (Bool-cases (uid == k)) [
  | inl e ↦
      let same : k ≡ uid = sym (eq_of_== uid k e) in
      let mine : some (some user) ≡ some (some u) = ground arith in
      let read : user ≡ u = cc in
      let here = restored-At k user s in
      let here_named : At uid s.next user (restore_user k user s) =
        subst (λ x. At x s.next user (restore_user k user s)) same here in
      let there : At uid s.next u (restore_user k user s) = (
        here_named.0,
        here_named.1,
        here_named.2 ∙ read,
        λ tp bound.
            here_named.3 tp (subst (λ w. contains (keys w.bind_app) tp ≡ true) (sym read) bound),
      ) in
      (s.next, restore-At uid s.next u es (restore_user k user s) (ground arith) there)
  | inr ne ↦
      restore-finds es (restore_user k user s) uid u once.1
        (tail-Readable k (some user) es once.0 readable) (ground arith)
]

read_back-ne : (o : Option User) → ¬ (read_back o ≡ some none)
read_back-ne none h = cc
read_back-ne (some u) h = cc

file-Readable :
    (writes : List (String × User)) (es : List (String × Option User))
    → IsFile writes es
    → Readable es
file-Readable writes es file uid h = read_back-ne (last_write uid writes) (sym (file.holds uid) ∙ h)

-- A user of the worker before the restart, found again after it.
abbrev pub Survives : String → User → State → Type 0
Survives uid u r =
    (q : ℕ) × ((lookup uid r.users ≡ some q)
      × (SavedAs u (r.heap q)
          × ((tp : String)
              → contains (keys u.bind_app) tp ≡ true
              → contains (uids tp r) uid ≡ true)))

survives :
    (writes : List (String × User)) (es : List (String × Option User)) (r : State) (uid : String)
    (u : User) (w : Option User)
    → IsFile writes es
    → last_write uid writes ≡ w
    → Saved w u
    → Survives uid u (restore es r)
survives writes es r uid u none file e saved = absurd saved
survives writes es r uid u (some w) file e saved =
    let found =
      restore-finds es r uid w file.once (file-Readable writes es file)
        (file.holds uid ∙ ap read_back e) in
    let same = found.1.2 in
    (
      found.0,
      (
        found.1.0,
        (
          subst (SavedAs u) (sym same) saved,
          λ tp bound.
              found.1.3 tp (subst (λ m. contains (keys m) tp ≡ true) (sym saved.same_bind) bound),
        ),
      ),
    )

module _ {ℓ} {Bytes : Type ℓ} (input_of : Bytes → Option InputRequest)
    (unbind_of : Bytes → Option UnbindRequest) where
  -- The worker after some requests and check rounds from its start.
  abbrev pub served :
      (List (String × User) → String → User → Bool) → List String → List (Event Bytes) → State
  served accepts valid_types es = serve_all input_of unbind_of es (empty_state accepts valid_types)

  -- After any requests and check rounds from the start, a restart that reads the file of their writes
  -- finds every registered user whose UID the file takes at every write again, under its UID, with its
  -- bindings and with its friends of every type, and lists it under each type that it is bound to.
  pub restore-serve_all :
      (accepts : List (String × User) → String → User → Bool) (valid_types : List String)
      (es : List (Event Bytes)) (entries : List (String × Option User)) (uid : String) (p : ℕ)
      → IsFile (served accepts valid_types es).stored entries
      → lookup uid (served accepts valid_types es).users ≡ some p
      → Accepted (served accepts valid_types es) uid
      → Survives uid
          ((served accepts valid_types es).heap p)
          (restore entries (empty_state accepts valid_types))
  restore-serve_all accepts valid_types es entries uid p file registered accepted =
      let s = served accepts valid_types es in
      let durable =
        serve_all-Durable input_of unbind_of es (empty_state accepts valid_types)
          (empty_state-Inv accepts valid_types) (empty_state-Durable accepts valid_types) in
      survives s.stored entries (empty_state accepts valid_types) uid (s.heap p)
        (last_write uid s.stored) file refl (durable uid p registered accepted)
