-- ===== src/Image/Examples.antt =====
-- The theorems on worker/image at small commands and lists.
use bmw.Base.{
  All, List, String, [], atoi, is_pos, keep, map, nat_eq, negsuc, pos, refl, split, string_eq, ℤ,
  ◌∷◌, ◌≡◌,
}
use bmw.Image.Commands.{
  Item, WellFormed, blur_item, file_item, meaning, parse-write_all, thumbnail_item, write_all,
}
use bmw.Image.Odd.{is_odd, remain_odd, remain_odd-keep}
use bmw.Image.Parse.{parse}
use bmw.Image.Types.{blur_op, read_file_op, resize_op}

abbrev test_command : String
test_command = "file/test.png|thumbnail/x300|blur/20x8"

abbrev test_items : List Item
test_items = thumbnail_item "" "300" ∷ blur_item "20" "8" ∷ []

-- The quotient as the pair of its parts.
abbrev pair_of : ℤ → ℤ → ℤ × ℤ
pair_of a b = (a, b)

test_command_parsed :
    parse pair_of test_command
    ≡ read_file_op "test.png" ∷ resize_op (pos 0) (pos 300) ∷ blur_op (pos 8, pos 20) ∷ []
unfolding parse split nat_eq atoi is_pos
test_command_parsed = refl

test_items-WellFormed : All WellFormed (file_item "test.png" ∷ test_items)
unfolding nat_eq
test_items-WellFormed = (
  (
    refl,
    (refl, (refl, (refl, (refl, (refl, (refl, (refl, (refl, tt)))))))),
    (refl, (refl, (refl, (refl, (refl, (refl, (refl, (refl, tt)))))))),
    (refl, (refl, (refl, (refl, (refl, (refl, (refl, (refl, tt)))))))),
  ),
  ((tt, (refl, (refl, (refl, tt)))), ((refl, refl, (refl, (refl, tt)), (refl, tt)), tt)),
)

parse-write_all_example :
    parse pair_of (write_all (file_item "test.png") test_items)
    ≡ map (meaning pair_of) (file_item "test.png" ∷ test_items)
parse-write_all_example =
    parse-write_all pair_of (file_item "test.png") test_items test_items-WellFormed

remain_odd-keep_example :
    remain_odd (pos 90 ∷ pos 15 ∷ negsuc 2 ∷ []) ≡ keep is_odd (pos 90 ∷ pos 15 ∷ negsuc 2 ∷ [])
remain_odd-keep_example = remain_odd-keep (pos 90 ∷ pos 15 ∷ negsuc 2 ∷ [])

odd_run : remain_odd (pos 90 ∷ pos 15 ∷ negsuc 2 ∷ []) ≡ pos 15 ∷ negsuc 2 ∷ []
unfolding remain_odd nat_eq
odd_run = refl
