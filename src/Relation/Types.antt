-- ===== src/Relation/Types.antt =====
-- The data of worker/relation/relation.go and worker/relation/container.go. A `*User` is an
-- address of the heap; the package's variables are the fields of one state. A write that the
-- bolt file takes is an entry of `stored`, the latest last; `accepts` is what `Set` of the file
-- answers, for the writes before it, the key and the user.
use bmw.Base.{Bool, List, Map, String, [], if◌then◌else◌, nat_eq, string_eq, ℕ, ◌++◌, ◌==◌, ◌∷◌}

pub record UserFriend : Type 0 where
  pub tp_name : String
  pub tp_id : String
  pub uid : String

pub record User : Type 0 where
  pub uid : String
  pub bind_app : Map String String
  pub friends : Map String (List UserFriend)

pub record FriendResult : Type 0 where
  pub uid : String
  pub tp_name : String

pub record InputFriend : Type 0 where
  pub tp_name : String
  pub tp_id : String

pub record InputRequest : Type 0 where
  pub uid : String
  pub type : String
  pub tp_id : String
  pub tp_name : String
  pub friends : List InputFriend

pub record CheckFriendsJob : Type 0 where
  pub user : ℕ
  pub other : ℕ
  pub tp_type : String

pub record UnbindRequest : Type 0 where
  pub uid : String
  pub type : String

pub record State : Type 0 where
  pub valid_types : List String
  pub type_uid : Map String (List String)
  pub users : Map String ℕ
  pub heap : ℕ → User
  pub next : ℕ
  pub jobs : List CheckFriendsJob
  pub stored : List (String × User)
  pub accepts : List (String × User) → String → User → Bool

-- The file after a write.
abbrev pub stored_with : State → User → List (String × User)
stored_with s u = if s.accepts s.stored u.uid u then s.stored ++ ((u.uid, u) ∷ []) else s.stored

-- One heap cell written through its address.
abbrev pub update {ℓ} : {A : Type ℓ} → (ℕ → A) → ℕ → A → ℕ → A
update h p v q = if q == p then v else h q

abbrev pub modify : ℕ → (User → User) → State → State
modify p f s = record s { heap = update s.heap p (f (s.heap p)) }
