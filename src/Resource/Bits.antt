-- ===== src/Resource/Bits.antt =====
-- The result of a job tree, described without its walk: for each bucket, the bits of the nodes that
-- are marked for it, from the root down, joined.
use bmw.Base.{
  Bool, Distinct, List, Map, Option, Option-cases, String, [], ap, arith, bit_or, contains,
  contains-keys, false, if◌then◌else◌, inl, inr, keys, lookup, lookup-insert, nat_eq, none, refl,
  some, string_eq, sym, true, ℕ, ◌++◌, ◌==◌, ◌∙◌, ◌∷◌, ◌≡◌,
}
use bmw.Resource.Job.{get_result, get_results, mark_result, mark_results}
use bmw.Resource.Types.{JobTree, JobTrees, and, leaf, tree}

-- `m[k]` of a map that has a key at most once.
marked : String → Map String Bool → Bool
marked k m = elim (lookup k m) [ some v ↦ v | none ↦ false ]

unfoldable mutual
  unfolding marked

  pub bits : String → JobTree → List ℕ
  bits k (tree n children) =
      let below = bits_all k children in
      if marked k n.result_map then n.bit_position ∷ below else below

  pub bits_all : String → JobTrees → List ℕ
  bits_all k leaf = []
  bits_all k (and t rest) = bits k t ++ bits_all k rest

-- Joined to what is there, if anything is.
unfoldable pub join : Option ℕ → List ℕ → Option ℕ
join old [] = old
join none (bit ∷ rest) = join (some bit) rest
join (some old) (bit ∷ rest) = join (some (bit_or old bit)) rest

-- Every map of the tree has its keys once.
abbrev mutual
  pub KeysOnce : JobTree → Type 0
  KeysOnce (tree n children) = Distinct (keys n.result_map) × KeysOnceAll children

  pub KeysOnceAll : JobTrees → Type 0
  KeysOnceAll leaf = Unit
  KeysOnceAll (and t rest) = KeysOnce t × KeysOnceAll rest

join-nil : (old : Option ℕ) → join old [] ≡ old
unfolding join
join-nil old = refl

join-append : (old : Option ℕ) (xs ys : List ℕ) → join old (xs ++ ys) ≡ join (join old xs) ys
unfolding join
join-append old [] ys = refl
join-append none (x ∷ xs) ys = join-append (some x) xs ys
join-append (some old) (x ∷ xs) ys = join-append (some (bit_or old x)) xs ys

lookup-mark_result :
    (bit : ℕ) (j k : String) (r : Map String ℕ)
    → lookup k (mark_result bit j r) ≡ (if k == j then join (lookup k r) (bit ∷ []) else lookup k r)
unfolding mark_result join
lookup-mark_result bit j k r = elim (Option-cases (lookup j r)) [
  | inl e ↦ ground (arith, lookup-insert k j bit r, e)
  | inr (old, e) ↦ ground (arith, lookup-insert k j (bit_or old bit) r, e)
]

mark_results-absent :
    (bit : ℕ) (k : String) (m : Map String Bool) (r : Map String ℕ)
    → contains (keys m) k ≡ false
    → lookup k (mark_results bit m r) ≡ lookup k r
unfolding mark_results keys
mark_results-absent bit k [] r h = refl
mark_results-absent bit k ((j, false) ∷ m) r h = mark_results-absent bit k m r (ground arith)
mark_results-absent bit k ((j, true) ∷ m) r h =
    ground (arith, mark_results-absent bit k m (mark_result bit j r), lookup-mark_result bit j k r)

mark_results-join :
    (bit : ℕ) (k : String) (m : Map String Bool) (r : Map String ℕ)
    → Distinct (keys m)
    → lookup k (mark_results bit m r) ≡ join (lookup k r) (if marked k m then bit ∷ [] else [])
unfolding mark_results keys join marked lookup
mark_results-join bit k [] r d = refl
mark_results-join bit k ((j, false) ∷ m) r d =
    ground (arith, mark_results-join bit k m r d.1, contains-keys m k)
mark_results-join bit k ((j, true) ∷ m) r d = ground (
  arith,
  mark_results-join bit k m (mark_result bit j r) d.1,
  lookup-mark_result bit j k r,
  mark_results-absent bit k m (mark_result bit j r),
  contains-keys m k,
)

mutual
  unfolding get_result bits

  get_result-bits :
      (k : String) (t : JobTree) (r r' : Map String ℕ)
      → KeysOnce t
      → get_result t r ≡ (r', none)
      → lookup k r' ≡ join (lookup k r) (bits k t)
  get_result-bits k (tree n children) r r' d e =
      let r₁ = mark_results n.bit_position n.result_map r in
      let here = mark_results-join n.bit_position k n.result_map r d.0 in
      let go : get_results children r₁ ≡ (r', none) = ground arith in
      let below = get_results-bits k children r₁ r' d.1 go in
      let own = if marked k n.result_map then n.bit_position ∷ [] else [] in
      ground (arith, here, below, join-append (lookup k r) own (bits_all k children))

  get_results-bits :
      (k : String) (ts : JobTrees) (r r' : Map String ℕ)
      → KeysOnceAll ts
      → get_results ts r ≡ (r', none)
      → lookup k r' ≡ join (lookup k r) (bits_all k ts)
  get_results-bits k leaf r r' d e = ground (arith, join-nil (lookup k r))
  get_results-bits k (and t rest) r r' d e =
      let r₁ = (get_result t r).0 in
      let here : get_result t r ≡ (r₁, none) = ground arith in
      let later : get_results rest r₁ ≡ (r', none) = ground arith in
      get_results-bits k rest r₁ r' d.1 later
      ∙ ap (λ o. join o (bits_all k rest)) (get_result-bits k t r r₁ d.0 here)
      ∙ sym (join-append (lookup k r) (bits k t) (bits_all k rest))

-- `getResult` on a tree whose maps have each bucket once, where it succeeds: for every bucket, the
-- number in the result is the bitwise or of the bits of all nodes that are marked for it, and a
-- bucket that no node is marked for has none.
pub get_result_lem :
    (t : JobTree) (found : Map String ℕ)
    → KeysOnce t
    → get_result t [] ≡ (found, none)
    → (k : String) → lookup k found ≡ join none (bits k t)
unfolding lookup
get_result_lem t found once e k = get_result-bits k t [] found once e
