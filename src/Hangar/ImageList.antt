-- ===== src/Hangar/ImageList.antt =====
-- pkg/hangar/imagelist/imagelist.go: the format of a line of an image list.
pub mod Words
pub mod Lines
pub mod FullName
use image_tools.Prelude.{
  ℕ, Bool, true, false, not, ◌&&◌, Option, none, some, List, [], ◌∷◌, ◌++◌, leb, if◌then◌else◌,
  length, select, Text, is_empty, contains, split, non_empty, trim_space,
}

abbrev pub space : ℕ
space = b' '

pub data ListType : Type 0 where
  unknown mirror default : ListType

-- The test `len(spec) != 3`.
unfoldable pub three_words : List Text → Option (List Text)
three_words (source ∷ destination ∷ tag ∷ []) = some (source ∷ destination ∷ tag ∷ [])
three_words words = none

-- `none` stands for `nil, false`.
unfoldable pub get_mirror_spec : Text → Option (List Text)
unfolding three_words
get_mirror_spec line = three_words (non_empty (split (trim_space line) space))

unfoldable pub is_mirror_format : Text → Bool
unfolding get_mirror_spec
is_mirror_format line = elim (get_mirror_spec line) [ some spec ↦ true | none ↦ false ]

-- The parts that count: not empty, and with no space.
unfoldable pub is_counted : Text → Bool
is_counted s = not (is_empty s) && not (contains s space)

unfoldable pub is_default_format : Text → Bool
unfolding is_counted
is_default_format line =
    let n = length (select is_counted (split (trim_space line) b'/')) in leb 1 n && leb n 3

unfoldable pub detect : Text → ListType
unfolding is_mirror_format is_default_format
detect line =
    if is_mirror_format line then mirror else if is_default_format line then default else unknown

-- `fmt.Sprintf("%s %s %s", source, destination, tag)`
unfoldable pub mirror_line : Text → Text → Text → Text
mirror_line source destination tag = source ++ space ∷ (destination ++ space ∷ tag)
