-- ===== src/Image/Commands.antt =====
-- Commands of worker/image/image.go as they are written: items with bars between them.
use bmw.Base.{
  All, Lacks, List, String, [], ap, atoi, cat, cat-Lacks, if◌then◌else◌, is_pos, map, nat_eq, pos,
  refl, split-Lacks, split-cat, string_eq, true, ℤ, ◌∙◌, ◌∷◌, ◌≡◌,
}
use bmw.Image.Items.{
  blur_found, blur_resize, blur_source, file_blur, file_resize, file_source, thumbnail_blur,
  thumbnail_found, thumbnail_source,
}
use bmw.Image.Match.{Digits, Digits-Lacks}
use bmw.Image.Parse.{item_ops, non_empty, ops_of, parse}
use bmw.Image.Types.{Op, blur_op, read_file_op, resize_op}

-- An item: a file, a size and a blur, with the digits that are written.
pub data Item : Type 0 where
  file_item : String → Item
  thumbnail_item blur_item : String → String → Item

abbrev pub write : Item → String
write (file_item name) = cat "file/" name
write (thumbnail_item width height) = cat "thumbnail/" (cat width (cat "x" height))
write (blur_item a b) = cat "blur/" (cat a (cat "x" b))

-- A name is not empty and has no slash, bar or line break. The sizes of a thumbnail may be empty.
abbrev pub WellFormed : Item → Type 0
WellFormed (file_item name) =
    (non_empty name ≡ true) × Lacks b'/' name × Lacks b'|' name × Lacks 10 name
WellFormed (thumbnail_item width height) = Digits width × Digits height
WellFormed (blur_item a b) = (non_empty a ≡ true) × (non_empty b ≡ true) × Digits a × Digits b

abbrev pub write_all : Item → List Item → String
write_all i [] = write i
write_all i (j ∷ js) = cat (write i) (String.◌∷◌ "|" (write_all j js))

write-Lacks : (i : Item) → WellFormed i → Lacks b'|' (write i)
unfolding cat nat_eq
write-Lacks (file_item name) h =
    cat-Lacks b'|' "file/" name (refl, (refl, (refl, (refl, (refl, tt))))) h.2
write-Lacks (thumbnail_item width height) h =
    cat-Lacks b'|' "thumbnail/" (cat width (cat "x" height))
      (refl, (refl, (refl, (refl, (refl, (refl, (refl, (refl, (refl, (refl, tt))))))))))
      (cat-Lacks b'|' width (cat "x" height) (Digits-Lacks b'|' width refl h.0)
        (refl, Digits-Lacks b'|' height refl h.1))
write-Lacks (blur_item a b) h =
    cat-Lacks b'|' "blur/" (cat a (cat "x" b)) (refl, (refl, (refl, (refl, (refl, tt)))))
      (cat-Lacks b'|' a (cat "x" b) (Digits-Lacks b'|' a refl h.2)
        (refl, Digits-Lacks b'|' b refl h.3))

module _ {Float : Type 0} (quotient : ℤ → ℤ → Float) where
  -- What an item means. A blur of divisor 0 is divided by 1.
  abbrev pub meaning : Item → Op Float
  meaning (file_item name) = read_file_op name
  meaning (thumbnail_item width height) = resize_op (atoi width).0 (atoi height).0
  meaning (blur_item a b) =
      blur_op (quotient (atoi b).0 (if is_pos 0 (atoi a).0 then pos 1 else (atoi a).0))

  item_ops-write : (i : Item) → WellFormed i → item_ops quotient (write i) ≡ meaning i ∷ []
  unfolding item_ops
  item_ops-write (file_item name) h =
      rw (file_source name h.1 h.3 h.0, file_resize name h.1, file_blur name h.1) refl
  item_ops-write (thumbnail_item width height) h =
      rw
        (
          thumbnail_source width height h.0 h.1,
          thumbnail_found width height h.0 h.1,
          thumbnail_blur width height h.0 h.1,
        )
        refl
  item_ops-write (blur_item a b) h =
      rw (blur_source a b h.2 h.3, blur_resize a b h.2 h.3, blur_found a b h.2 h.3 h.0 h.1) refl

  -- A command that is written from well-formed items parses to the operations that the items mean, in
  -- order: the file of each name, the size of each thumbnail, where a side without digits is 0, and the
  -- quotient of each blur.
  pub parse-write_all :
      (i : Item) (is : List Item)
      → All WellFormed (i ∷ is)
      → parse quotient (write_all i is) ≡ map meaning (i ∷ is)
  unfolding parse ops_of nat_eq
  parse-write_all i [] h =
      rw (split-Lacks b'|' (write i) (write-Lacks i h.0), item_ops-write i h.0) refl
  parse-write_all i (j ∷ js) h =
      ap (ops_of quotient) (split-cat b'|' (write i) "|" (write_all j js) (write-Lacks i h.0) refl)
      ∙ rw (item_ops-write i h.0) (ap (λ l. meaning i ∷ l) (parse-write_all j js h.1))
