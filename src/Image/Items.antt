-- ===== src/Image/Items.antt =====
-- What the loop of `parse` in worker/image/image.go makes of a well-formed item.
use bmw.Base.{
  Bool, Lacks, String, ap, cat, cat-Lacks, nat_eq, none, refl, some, string_eq, true, ◌∙◌, ◌≡◌,
}
use bmw.Image.Match.{
  Digits, Digits-Lacks, after-Lacks, digit_run-cat, digit_run_all, find-Lacks, find-start,
  line-Lacks,
}
use bmw.Image.Parse.{
  after, after_run, anything, blur_regex, digit_run, find, non_empty, pair_regex, resize_regex,
  source_regex,
}

source_regex-Lacks : (s : String) → Lacks b'/' s → source_regex s ≡ none
unfolding source_regex nat_eq
source_regex-Lacks s h = rw (after-Lacks "file/" s (λ l. cc) h, source_regex) refl

resize_regex-Lacks : (s : String) → Lacks b'/' s → resize_regex s ≡ none
unfolding resize_regex nat_eq
resize_regex-Lacks s h = rw (after-Lacks "thumbnail/" s (λ l. cc) h, resize_regex) refl

blur_regex-Lacks : (s : String) → Lacks b'/' s → blur_regex s ≡ none
unfolding blur_regex nat_eq
blur_regex-Lacks s h = rw (after-Lacks "blur/" s (λ l. cc) h, blur_regex) refl

-- A file.
module _ (name : String) (h : Lacks b'/' name) where
  pub file_source :
      Lacks 10 name → non_empty name ≡ true → find source_regex (cat "file/" name) ≡ some name
  unfolding source_regex after cat nat_eq
  file_source l ne =
      find-start source_regex (cat "file/" name) name
        (rw (line-Lacks name l, ne, source_regex) refl)

  pub file_resize : find resize_regex (cat "file/" name) ≡ none
  unfolding find resize_regex after cat nat_eq
  file_resize = find-Lacks resize_regex name resize_regex-Lacks h

  pub file_blur : find blur_regex (cat "file/" name) ≡ none
  unfolding find blur_regex after cat nat_eq
  file_blur = find-Lacks blur_regex name blur_regex-Lacks h

x_stops : (s : String) → digit_run (cat "x" s) ≡ (String.[], cat "x" s)
unfolding digit_run cat
x_stops s = refl

-- A pair of runs.
module _ (fits : String → Bool) (first second : String) (hf : Digits first)
    (hs : Digits second) where
  pair_found :
      fits first ≡ true
      → fits second ≡ true
      → pair_regex fits (cat first (cat "x" second)) ≡ some (first, second)
  unfolding pair_regex after_run after cat nat_eq
  pair_found f s =
      ap (after_run fits) (digit_run-cat first (cat "x" second) hf (x_stops second))
      ∙ rw (digit_run_all second hs, f, s) refl

pair_Lacks :
    (first second : String) → Digits first → Digits second → Lacks b'/' (cat first (cat "x" second))
unfolding cat nat_eq
pair_Lacks first second hf hs =
    cat-Lacks b'/' first (cat "x" second) (Digits-Lacks b'/' first refl hf)
      (refl, Digits-Lacks b'/' second refl hs)

module _ (first second : String) (hf : Digits first) (hs : Digits second) where
  abbrev pub pair : String
  pair = cat first (cat "x" second)

  pub thumbnail_found : find resize_regex (cat "thumbnail/" pair) ≡ some (first, second)
  unfolding resize_regex after cat nat_eq
  thumbnail_found =
      find-start resize_regex (cat "thumbnail/" pair) (first, second)
        (pair_found anything first second hf hs refl refl)

  pub thumbnail_source : find source_regex (cat "thumbnail/" pair) ≡ none
  unfolding find source_regex after cat nat_eq
  thumbnail_source = find-Lacks source_regex pair source_regex-Lacks (pair_Lacks first second hf hs)

  pub thumbnail_blur : find blur_regex (cat "thumbnail/" pair) ≡ none
  unfolding find blur_regex after cat nat_eq
  thumbnail_blur = find-Lacks blur_regex pair blur_regex-Lacks (pair_Lacks first second hf hs)

  pub blur_found :
      non_empty first ≡ true
      → non_empty second ≡ true
      → find blur_regex (cat "blur/" pair) ≡ some (first, second)
  unfolding blur_regex after cat nat_eq
  blur_found f s =
      find-start blur_regex (cat "blur/" pair) (first, second)
        (pair_found non_empty first second hf hs f s)

  pub blur_source : find source_regex (cat "blur/" pair) ≡ none
  unfolding find source_regex after cat nat_eq
  blur_source = find-Lacks source_regex pair source_regex-Lacks (pair_Lacks first second hf hs)

  pub blur_resize : find resize_regex (cat "blur/" pair) ≡ none
  unfolding find resize_regex after cat nat_eq
  blur_resize = find-Lacks resize_regex pair resize_regex-Lacks (pair_Lacks first second hf hs)
