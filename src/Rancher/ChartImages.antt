-- ===== src/Rancher/ChartImages.antt =====
-- pkg/rancher/chartimages/chartimages.go: the images that the values of a chart name.
pub mod Nodes
pub mod Versions
pub mod Selection
pub mod Fetch
pub mod Fetched
use image_tools.Prelude.{
  ℕ, ◌+◌, Bool, true, false, not, ◌&&◌, ◌||◌, Option, none, some, List, [], ◌∷◌, ◌++◌, map, leb,
  eqb, if◌then◌else◌, Text, codes, ◌==◌, is_empty, split, trim_space,
}
use image_tools.Rancher.Values.{
  Value, null, str, scalar, arr, obj, Items, nil, cons, Fields, end, field, get_field, as_string,
}
use image_tools.Utils.ImageName.{colon, parts}
use image_tools.Utils.ImageName.Rewrite.{repository}
use image_tools.Utils.ImageSet.{ImageSet, add_source_to_image}

pub data OsType : Type 0 where
  linux windows : OsType

-- One character of `strings.EqualFold`: besides the capitals, two letters outside of ASCII fold to
-- "s" and "k".
unfoldable pub fold_code : ℕ → ℕ
fold_code c =
    if leb b'A' c && leb c b'Z'
    then c + 32
    else if eqb c 0x17f
    then b's'
    else if eqb c 0x212a
    then b'k'
    else c

-- `strings.EqualFold(word, s)`, for a word of small letters.
unfoldable pub equal_fold : Text → Text → Bool
unfolding fold_code ◌==◌
equal_fold word s = word == map fold_code s

abbrev pub os_word : OsType → Text
os_word linux = codes "linux"
os_word windows = codes "windows"

-- The loop over the parts of the field "os".
unfoldable pub lists_os : OsType → List Text → Bool
unfolding equal_fold trim_space
lists_os os [] = false
lists_os os (part ∷ parts) = equal_fold (os_word os) (trim_space part) || lists_os os parts

-- Whether the field "os" admits an image for a system.
unfoldable pub admits : OsType → Option Value → Bool
unfolding lists_os split
admits os (some (str s)) = lists_os os (split s b',')
admits linux v = true
admits windows v = lists_os windows (split [] b',')

-- `fmt` prints lists and maps by walking them, which is a parameter; other values that are no
-- strings are printed by "%s" with their type.
module _ (print_nested : Value → Text) where
  unfoldable pub print_s : Value → Text
  print_s null = codes "%!s(<nil>)"
  print_s (str s) = s
  print_s (scalar type text) = codes "%!s(" ++ (type ++ b'=' ∷ (text ++ b')' ∷ []))
  print_s (arr items) = print_nested (arr items)
  print_s (obj fields) = print_nested (obj fields)

  unfoldable pub tag_text : Value → Text
  unfolding print_s
  tag_text (str []) = codes "latest"
  tag_text v = print_s v

  unfoldable pub name_of : OsType → Text → Value → Option Value → Option Text
  unfolding tag_text admits
  name_of os repository tag field_os =
      if is_empty repository || not (admits os field_os)
      then none
      else some (repository ++ colon ∷ tag_text tag)

  -- The image that the callback adds for a map, if any.
  unfoldable pub picked : OsType → Fields → Option Text
  unfolding name_of get_field
  picked os fs = elim (as_string (get_field (codes "repository") fs)) [
    | none ↦ none
    | some repository ↦ elim (get_field (codes "tag") fs) [
      | none ↦ none
      | some tag ↦ name_of os repository tag (get_field (codes "os") fs)
    ]
  ]

  module _ (os : OsType) (source : Text) where
    unfoldable pub pick : Fields → ImageSet → ImageSet
    unfolding picked add_source_to_image
    pick fs set = elim (picked os fs) [
      | none ↦ set
      | some image ↦ add_source_to_image set image (source ∷ [])
    ]

    -- `walkMap` with the callback `pick`.
    unfoldable mutual
      unfolding pick

      pub walk : Value → ImageSet → ImageSet
      walk (obj fields) set = walk_fields fields (pick fields set)
      walk (arr items) set = walk_items items set
      walk v set = set

      pub walk_items : Items → ImageSet → ImageSet
      walk_items nil set = set
      walk_items (cons v items) set = walk_items items (walk v set)

      pub walk_fields : Fields → ImageSet → ImageSet
      walk_fields end set = set
      walk_fields (field key v fields) set = walk_fields fields (walk v set)

    unfoldable pub pick_images_from_values_map : Fields → ImageSet → ImageSet
    unfolding walk
    pick_images_from_values_map values set = walk (obj values) set
