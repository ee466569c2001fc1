-- ===== src/Resource/Table.antt =====
-- The table of keys: storage.go of worker/resource, and `findKeyQuery` of request.go. The database and the
-- codec of JSON are arguments.
use bmw.Base.{
  Bool, List, Map, Option, String, [], if◌then◌else◌, nat_eq, none, some, string_eq, ℕ, ◌&&◌, ◌∷◌,
  ◌≡◌,
}
use bmw.Resource.Requests.{Effect, post_batch, post_one, store_row}

-- The table `resources` in a database. A nil map is `none`.
pub record Table : Type 1 where
  pub World : Type 0
  pub Text : Type 0
  -- `json.Marshal` of a result, which has no error for a map of integers, and `json.Unmarshal`.
  pub marshal : Option (Map String ℕ) → Text
  pub unmarshal : Text → Option (Option (Map String ℕ))
  -- The two statements. `false` is an error, and no row is `none`.
  pub insert_or_update : String → Text → World → World × Bool
  pub select : String → World → Option Text
  -- Whether the collation of the column `key` tells two keys apart.
  pub same : String → String → Bool

-- What a result gives is read back, and a statement that is accepted writes the row of its key, which the
-- collation may share with other keys; one that fails writes nothing.
pub record TableLaws (t : Table) : Type 0 where
  pub codec : (m : Option (Map String ℕ)) → t.unmarshal (t.marshal m) ≡ some m
  pub written :
      (key other : String) (text : t.Text) (w : t.World)
      → t.select other (t.insert_or_update key text w).0 ≡ (
          if (t.insert_or_update key text w).1 && t.same other key
          then some text
          else t.select other w)

pub data QueryAnswer : Type 0 where
  missing_key key_not_found : QueryAnswer
  found_result : Map String ℕ → QueryAnswer

module _ (t : Table) where
  -- `store`
  unfoldable pub store : String → Option (Map String ℕ) → t.World → t.World × Bool
  store key result w = t.insert_or_update key (t.marshal result) w

  abbrev pub flat : Option (Option (Map String ℕ)) → Option (Map String ℕ)
  flat none = none
  flat (some m) = m

  -- `findKey`; nil is `none`.
  unfoldable pub find_key : String → t.World → Option (Map String ℕ)
  find_key key w = elim (t.select key w) [ none ↦ none | some text ↦ flat (t.unmarshal text) ]

  abbrev pub result_answer : Option (Map String ℕ) → QueryAnswer
  result_answer none = key_not_found
  result_answer (some m) = found_result m

  -- `findKeyQuery`
  unfoldable pub find_key_query : Option String → t.World → QueryAnswer
  unfolding find_key
  find_key_query none w = missing_key
  find_key_query (some key) w = result_answer (find_key key w)

  -- The calls of `store` among what a handler does, whose errors are dropped.
  unfoldable pub store_all : List Effect → t.World → t.World
  unfolding store
  store_all [] w = w
  store_all (store_row key result ∷ es) w = store_all es (store key result w).0
  store_all (post_one url body ∷ es) w = store_all es w
  store_all (post_batch url bodies ∷ es) w = store_all es w
