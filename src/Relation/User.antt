-- ===== src/Relation/User.antt =====
-- The methods of `User` on its own maps, worker/relation/relation.go lines 111 to 181.
use bmw.Base.{
  List, Map, String, [], erase, insert, keys, lookup, nat_eq, none, or_zero, some, string_eq, ◌++◌,
}
use bmw.Relation.Types.{User, UserFriend}

unfoldable pub get_tp_id : User → String → String
get_tp_id user tp_type = or_zero (lookup tp_type user.bind_app) ""

unfoldable pub get_bound_app_types : User → List String
get_bound_app_types user = keys user.bind_app

unfoldable pub set_tp_id : String → String → User → User
set_tp_id tp_type tp_id user = record user { bind_app = insert tp_type tp_id user.bind_app }

unfoldable pub remove_tp_id : String → User → User
remove_tp_id tp_type user = record user { bind_app = erase tp_type user.bind_app }

-- What a caller gets of `getFriendsByType`.
unfoldable pub friends_of : User → String → List UserFriend
friends_of user tp_type = or_zero (lookup tp_type user.friends) []

made : String → Map String (List UserFriend) → Map String (List UserFriend)
made tp_type m = elim (lookup tp_type m) [ some friends ↦ m | none ↦ insert tp_type [] m ]

-- What `getFriendsByType` does to the user: a missing entry is made, empty.
unfoldable pub get_friends_by_type : String → User → User
unfolding made
get_friends_by_type tp_type user = record user { friends = made tp_type user.friends }

unfoldable pub set_friends : String → List UserFriend → User → User
set_friends tp_type friends user = record user { friends = insert tp_type friends user.friends }

unfoldable pub append_friends : String → List UserFriend → User → User
unfolding get_friends_by_type set_friends
append_friends tp_type new_friends user =
    let old_friends = friends_of user tp_type in
    set_friends tp_type (old_friends ++ new_friends) (get_friends_by_type tp_type user)

unfoldable pub remove_friends_by_type : String → User → User
remove_friends_by_type tp_type user = record user { friends = erase tp_type user.friends }
