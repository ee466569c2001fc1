-- ===== src/Relation/Registry.antt =====
-- The containers of worker/relation/container.go: users by UID and UIDs by account type.
use bmw.Base.{
  Bool, List, Map, Option, String, [], contains, drop, get_elem?, if◌then◌else◌, insert, length,
  lookup, nat_eq, none, or_zero, some, string_eq, suc, take, zero, ℕ, ◌++◌, ◌+◌, ◌-◌, ◌==◌, ◌∷◌,
}
use bmw.Relation.Types.{InputRequest, State, User, update}

-- `usersContainer.getUser`, which `findUser` calls.
unfoldable pub find_user : String → State → Option ℕ
find_user uid s = lookup uid s.users

unfoldable pub set_user : String → ℕ → State → State
set_user uid p s = record s { users = insert uid p s.users }

-- The address of the new user and the state that holds it.
unfoldable pub create_new_user : InputRequest → State → ℕ × State
unfolding set_user
create_new_user input s = (s.next, set_user input.uid s.next allocated)
  where
    user : User
    user = record { uid = input.uid; bind_app = []; friends = [] }

    allocated : State
    allocated = record s { heap = update s.heap s.next user; next = suc s.next }

-- The slice that `getUIDs` returns.
unfoldable pub uids : String → State → List String
uids tp_type s = or_zero (lookup tp_type s.type_uid) []

made : String → Map String (List String) → Map String (List String)
made tp_type m = elim (lookup tp_type m) [ some ids ↦ m | none ↦ insert tp_type [] m ]

-- What `getUIDs` does to the map: a missing entry is made, empty.
unfoldable pub get_uids : String → State → State
unfolding made
get_uids tp_type s = record s { type_uid = made tp_type s.type_uid }

unfoldable pub in_type_uid_map : String → String → State → Bool
in_type_uid_map tp_type uid s = contains (uids tp_type s) uid

unfoldable pub append_uid : String → String → State → State
unfolding in_type_uid_map get_uids
append_uid tp_type uid s =
    let old = uids tp_type s in
    let m = (get_uids tp_type s).type_uid in
    record s {
      type_uid = if in_type_uid_map tp_type uid s then m else insert tp_type (old ++ uid ∷ []) m;
    }

-- `append(items[:i], items[i+1:]...)`: the slice that it returns.
unfoldable pub remove : ℕ → List String → List String
remove i items = take i items ++ drop (suc i) items

-- It shifts the items in the array that it shares with `items`, whose last cell stays as it was.
unfoldable pub shifted : ℕ → List String → List String
unfolding remove
shifted i items = remove i items ++ drop (length items - 1) items

-- The loop of `removeUID`: `todo` rounds from index `i` over the shared array, and the slice that
-- the map holds.
unfoldable pub remove_loop : String → ℕ → ℕ → List String → List String → List String
unfolding remove shifted
remove_loop uid zero i array held = held
remove_loop uid (suc todo) i array held = elim (get_elem? array i) [
  | none ↦ held
  | some value ↦
      if value == uid
      then remove_loop uid todo (i + 1) (shifted i array) (remove i array)
      else remove_loop uid todo (i + 1) array held
]

unfoldable pub remove_uid : String → String → State → State
unfolding in_type_uid_map get_uids remove_loop
remove_uid tp_type uid s =
    let old = uids tp_type s in
    let m = (get_uids tp_type s).type_uid in
    record s {
      type_uid =
          if in_type_uid_map tp_type uid s
          then insert tp_type (remove_loop uid (length old) 0 old old) m
          else m;
    }
