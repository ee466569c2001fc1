-- ===== src/Image/Parse.antt =====
-- `parse` of worker/image/image.go, with what its regular expressions find. The quotient of two
-- integers as float64 is an argument.
use Prim.Native.Char.{Char, code}
use bmw.Base.{
  Bool, List, Option, String, [], atoi, false, if◌then◌else◌, is_pos, leb, nat_eq, none, pos, some,
  split, string_eq, true, ℤ, ◌&&◌, ◌++◌, ◌==◌, ◌∷◌,
}
use bmw.Image.Types.{Op, blur_op, read_file_op, resize_op}

-- The rest of a text that starts with another.
unfoldable pub after : String → String → Option String
after String.[] s = some s
after (String.◌∷◌ c p) String.[] = none
after (String.◌∷◌ c p) (String.◌∷◌ d s) =
    let rest = after p s in if code c == code d then rest else none

-- The leftmost match: `FindStringSubmatch`, with a match at the start as an argument.
unfoldable pub find {ℓ} : {A : Type ℓ} → (String → Option A) → String → Option A
find start String.[] = start String.[]
find start (String.◌∷◌ c s) =
    let rest = find start s in elim (start (String.◌∷◌ c s)) [ none ↦ rest | some m ↦ some m ]

abbrev pub is_digit : Char → Bool
is_digit c = leb b'0' (code c) && leb (code c) b'9'

-- `\d*`: the digits at the start, and the rest.
unfoldable pub digit_run : String → String × String
digit_run String.[] = (String.[], String.[])
digit_run (String.◌∷◌ c s) =
    let (run, rest) = digit_run s in
    if is_digit c then (String.◌∷◌ c run, rest) else (String.[], String.◌∷◌ c s)

-- `.*`: what stands before the end of the line.
unfoldable pub line : String → String
line String.[] = String.[]
line (String.◌∷◌ c s) = let rest = line s in if code c == 10 then String.[] else String.◌∷◌ c rest

abbrev pub non_empty : String → Bool
non_empty String.[] = false
non_empty (String.◌∷◌ c s) = true

-- `file/(.+)`
unfoldable pub source_regex : String → Option String
unfolding after line
source_regex s = elim (after "file/" s) [
  | none ↦ none
  | some rest ↦ if non_empty (line rest) then some (line rest) else none
]

-- Behind a run of digits: an x and another run, which `fits` accepts as it does the first.
unfoldable pub after_run : (String → Bool) → String × String → Option (String × String)
unfolding after digit_run
after_run fits (first, more) = elim (after "x" more) [
  | none ↦ none
  | some second ↦
      let run = (digit_run second).0 in if fits first && fits run then some (first, run) else none
]

unfoldable pub pair_regex : (String → Bool) → String → Option (String × String)
unfolding digit_run after_run
pair_regex fits rest = after_run fits (digit_run rest)

abbrev pub anything : String → Bool
anything s = true

-- `thumbnail/(\d*)x(\d*)`
unfoldable pub resize_regex : String → Option (String × String)
unfolding after pair_regex
resize_regex s = elim (after "thumbnail/" s) [ none ↦ none | some rest ↦ pair_regex anything rest ]

-- `blur/(\d+)x(\d+)`
unfoldable pub blur_regex : String → Option (String × String)
unfolding after pair_regex
blur_regex s = elim (after "blur/" s) [ none ↦ none | some rest ↦ pair_regex non_empty rest ]

module _ {Float : Type 0} (quotient : ℤ → ℤ → Float) where
  abbrev pub file_ops : Option String → List (Op Float)
  file_ops none = []
  file_ops (some name) = read_file_op name ∷ []

  abbrev pub resize_ops : Option (String × String) → List (Op Float)
  resize_ops none = []
  resize_ops (some (width, height)) = resize_op (atoi width).0 (atoi height).0 ∷ []

  abbrev pub blur_ops : Option (String × String) → List (Op Float)
  blur_ops none = []
  blur_ops (some (a, b)) =
      let n = (atoi a).0 in
      let divisor = if is_pos 0 n then pos 1 else n in blur_op (quotient (atoi b).0 divisor) ∷ []

  -- One round of the loop of `parse`.
  unfoldable pub item_ops : String → List (Op Float)
  unfolding find source_regex resize_regex blur_regex
  item_ops item =
      file_ops (find source_regex item)
      ++ (resize_ops (find resize_regex item) ++ blur_ops (find blur_regex item))

  unfoldable pub ops_of : List String → List (Op Float)
  unfolding item_ops
  ops_of [] = []
  ops_of (item ∷ items) = item_ops item ++ ops_of items

  -- `parse`
  unfoldable pub parse : String → List (Op Float)
  unfolding ops_of
  parse cmd = ops_of (split b'|' cmd)
