-- ===== src/Hangar/ImageList/FullName.antt =====
-- pkg/hangar/imagelist/imagelist.go: how full image names are read.
use image_tools.Hangar.ImageList.{
  space, default, three_words, get_mirror_spec, is_mirror_format, is_counted, is_default_format,
  detect,
}
use image_tools.Hangar.ImageList.Words.{NoSpace, IsWord, NoSpace-Lacks, trim_space-append}
use image_tools.Prelude.{
  ◌≡◌, refl, ◌≢◌, true, false, none, [], ◌∷◌, ◌++◌, append_assoc, arith, select, All-append, Text,
  split, non_empty, is_space, trim_space, Lacks, not-contains_of_Lacks, split_of_Lacks,
  split-append, non_empty-cons, append_cons-ne-nil,
}
use image_tools.Utils.ImageName.{slash, colon, full_name}

NoSpace-full_name :
    (registry project name tag : Text)
    → NoSpace registry
    → NoSpace project
    → NoSpace name
    → NoSpace tag
    → NoSpace (full_name registry project name tag)
unfolding full_name is_space
NoSpace-full_name registry project name tag wr wp wn wt =
    All-append _ registry _ wr
      (refl, All-append _ project _ wp (refl, All-append _ name _ wn (refl, wt)))

is_counted-IsWord : (s : Text) → IsWord s → is_counted s ≡ true
unfolding is_counted
is_counted-IsWord [] (ne, h) = absurd (ne refl)
is_counted-IsWord (c ∷ s) (ne, h) =
    rw (not-contains_of_Lacks (c ∷ s) space (NoSpace-Lacks (c ∷ s) h)) refl

split-full_name :
    (registry project name tag : Text)
    → Lacks slash registry
    → Lacks slash project
    → Lacks slash name
    → Lacks slash tag
    → split (full_name registry project name tag) slash
      ≡ registry ∷ project ∷ (name ++ colon ∷ tag) ∷ []
unfolding full_name
split-full_name registry project name tag lr lp ln lt = rw (
  split-append registry _ slash lr,
  split-append project _ slash lp,
  split_of_Lacks (name ++ colon ∷ tag) slash (All-append _ name _ ln (omega arith, lt)),
)

trim_space-full_name :
    (registry project name tag : Text)
    → IsWord registry
    → IsWord project
    → IsWord name
    → IsWord tag
    → trim_space (full_name registry project name tag) ≡ full_name registry project name tag
unfolding full_name
trim_space-full_name registry project name tag wr wp wn wt =
    let e : slash ∷ (project ++ slash ∷ (name ++ colon ∷ tag))
        ≡ (slash ∷ (project ++ slash ∷ (name ++ colon ∷ []))) ++ tag =
      simp append_assoc in
    rw e (trim_space-append registry (slash ∷ (project ++ slash ∷ (name ++ colon ∷ []))) tag wr wt)

full_name-ne-nil : (registry project name tag : Text) → full_name registry project name tag ≢ []
unfolding full_name
full_name-ne-nil registry project name tag = append_cons-ne-nil registry _ slash

is_mirror-full_name :
    (registry project name tag : Text)
    → IsWord registry
    → IsWord project
    → IsWord name
    → IsWord tag
    → is_mirror_format (full_name registry project name tag) ≡ false
unfolding is_mirror_format three_words non_empty
is_mirror-full_name registry project name tag wr wp wn wt =
    let line = full_name registry project name tag in
    let plain = NoSpace-full_name registry project name tag wr.1 wp.1 wn.1 wt.1 in
    let e : non_empty (split (trim_space line) space) ≡ line ∷ [] =
      rw
        (
          trim_space-full_name registry project name tag wr wp wn wt,
          split_of_Lacks line space (NoSpace-Lacks line plain),
          non_empty-cons line [] (full_name-ne-nil registry project name tag),
        )
        refl in
    let no_spec : get_mirror_spec line ≡ none = rw e refl in ground (arith, no_spec)

is_default-full_name :
    (registry project name tag : Text)
    → IsWord registry
    → IsWord project
    → IsWord name
    → IsWord tag
    → Lacks slash registry
    → Lacks slash project
    → Lacks slash name
    → Lacks slash tag
    → is_default_format (full_name registry project name tag) ≡ true
unfolding is_default_format select
is_default-full_name registry project name tag wr wp wn wt lr lp ln lt =
    let last : IsWord (name ++ colon ∷ tag) = (
      append_cons-ne-nil name tag colon,
      All-append _ name _ wn.1 (unfold is_space in refl, wt.1),
    ) in
    rw
      (
        trim_space-full_name registry project name tag wr wp wn wt,
        split-full_name registry project name tag lr lp ln lt,
      )
      (ground (
        arith,
        is_counted-IsWord registry wr,
        is_counted-IsWord project wp,
        is_counted-IsWord (name ++ colon ∷ tag) last,
      ))

-- The full name of an image whose four parts are words is a line in the default format.
detect-full_name :
    (registry project name tag : Text)
    → IsWord registry
    → IsWord project
    → IsWord name
    → IsWord tag
    → Lacks slash registry
    → Lacks slash project
    → Lacks slash name
    → Lacks slash tag
    → detect (full_name registry project name tag) ≡ default
unfolding detect
detect-full_name registry project name tag wr wp wn wt lr lp ln lt = ground (
  arith,
  is_mirror-full_name registry project name tag wr wp wn wt,
  is_default-full_name registry project name tag wr wp wn wt lr lp ln lt,
)
