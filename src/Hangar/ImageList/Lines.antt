-- ===== src/Hangar/ImageList/Lines.antt =====
-- pkg/hangar/imagelist/imagelist.go: how mirror lines are read.
use image_tools.Hangar.ImageList.{
  space, mirror, three_words, get_mirror_spec, is_mirror_format, detect, mirror_line,
}
use image_tools.Hangar.ImageList.Words.{IsWord, trim_space-append, IsWord-IsPart}
use image_tools.Prelude.{
  ◌≡◌, refl, some, List, [], ◌∷◌, ◌++◌, append_assoc, arith, length, All, Text, split, join,
  non_empty, trim_space, IsPart, non_empty-split-join, split-Lacks, non_empty-IsPart,
}

trim_space-mirror_line :
    (source destination tag : Text)
    → IsWord source
    → IsWord tag
    → trim_space (mirror_line source destination tag) ≡ mirror_line source destination tag
unfolding mirror_line
trim_space-mirror_line source destination tag hs ht =
    rw (← append_assoc destination (space ∷ []) tag)
      (trim_space-append source (space ∷ (destination ++ space ∷ [])) tag hs ht)

fields-mirror_line :
    (source destination tag : Text)
    → IsWord source
    → IsWord destination
    → IsWord tag
    → non_empty (split (mirror_line source destination tag) space) ≡ source ∷ destination ∷ tag ∷ []
unfolding mirror_line join
fields-mirror_line source destination tag hs hd ht =
    non_empty-split-join (source ∷ destination ∷ tag ∷ []) space
      (IsWord-IsPart source hs, (IsWord-IsPart destination hd, (IsWord-IsPart tag ht, tt)))

detect-get_mirror_spec :
    (line : Text) {spec : List Text} → get_mirror_spec line ≡ some spec → detect line ≡ mirror
unfolding detect is_mirror_format
detect-get_mirror_spec line h = ground arith

-- A line of three words is a mirror line, and its words are read back in order.
pub get_mirror_spec-mirror_line :
    (source destination tag : Text)
    → IsWord source
    → IsWord destination
    → IsWord tag
    → (get_mirror_spec (mirror_line source destination tag)
        ≡ some (source ∷ destination ∷ tag ∷ []))
      × (detect (mirror_line source destination tag) ≡ mirror)
unfolding get_mirror_spec
get_mirror_spec-mirror_line source destination tag hs hd ht =
    let e : get_mirror_spec (mirror_line source destination tag)
        ≡ some (source ∷ destination ∷ tag ∷ []) =
      rw
        (
          trim_space-mirror_line source destination tag hs ht,
          fields-mirror_line source destination tag hs hd ht,
        )
        refl in
    (e, detect-get_mirror_spec (mirror_line source destination tag) e)

three_words_sound :
    (words : List Text) {spec : List Text}
    → three_words words ≡ some spec
    → (spec ≡ words) × (length words ≡ 3)
unfolding three_words
three_words_sound [] h = cc
three_words_sound (a ∷ []) h = cc
three_words_sound (a ∷ b ∷ []) h = cc
three_words_sound (a ∷ b ∷ c ∷ []) h = ground arith
three_words_sound (a ∷ b ∷ c ∷ d ∷ words) h = cc

-- A line that gives a mirror spec is detected as a mirror line, and the spec is three parts, none of
-- them empty and none with a space.
get_mirror_spec_sound :
    (line : Text) {spec : List Text}
    → get_mirror_spec line ≡ some spec
    → (detect line ≡ mirror) × (length spec ≡ 3) × All (IsPart space) spec
unfolding get_mirror_spec
get_mirror_spec_sound line {spec} h =
    let words = non_empty (split (trim_space line) space) in
    let (e, three) = three_words_sound words h in
    (
      detect-get_mirror_spec line h,
      rw e three,
      rw e (non_empty-IsPart _ space (split-Lacks (trim_space line) space)),
    )
