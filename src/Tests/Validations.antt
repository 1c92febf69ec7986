-- ===== src/Tests/Validations.antt =====
-- The validation of a saver.
use mathlib.Core.Option
use image_tools.Hangar.Archive.Index.{Index, new_index, unmarshal}
use image_tools.Hangar.Saver.Run.{SaverOptions}
use image_tools.Hangar.Saver.Validation.{
  failed_lines, all_saved, validate_saver, IsArchived, validate_saver-IsArchived,
}
use image_tools.Prelude.{
  ◌≡◌, refl, Option, none, some, [], ◌∷◌, select, All, Text, codes, ◌==◌, contains, split,
  non_empty, trim_space,
}
use image_tools.Tests.Archives.{first_spec, one_image, decode_shared}
use image_tools.Tests.Destinations.{arm_only}
use image_tools.Tests.Runs.{list_registry}

abbrev no_options : SaverOptions
no_options = record { source_registry = []; source_project = [] }

-- An index with one image for arm64.
abbrev arm_index : Index
arm_index = record {
  list = record one_image { images = record first_spec { digest = codes "sha256:b" } ∷ [] } ∷ [];
  version = [];
  time = [];
  digest_set = none;
}

abbrev decode_arm : Text → Index → Option Index
decode_arm b i = some arm_index

saved_lines :
    validate_saver list_registry arm_only no_options decode_arm
      (some [])
      (new_index [])
      (codes "nginx" ∷ codes "a b" ∷ [])
    ≡ some all_saved
unfolding validate_saver Option.bind non_empty split trim_space select contains ◌==◌
saved_lines = refl

lost_lines :
    validate_saver list_registry arm_only no_options decode_shared
      (some [])
      (new_index [])
      (codes "nginx" ∷ codes "a b" ∷ [])
    ≡ some (failed_lines (codes "nginx" ∷ []))
unfolding validate_saver Option.bind non_empty split trim_space select contains ◌==◌
lost_lines = refl

validate_saver-IsArchived_example :
    (i' : Index) × (unmarshal decode_arm (new_index []) [] ≡ some i')
    × All (IsArchived list_registry arm_only no_options i') (codes "nginx" ∷ codes "a b" ∷ [])
validate_saver-IsArchived_example =
    validate_saver-IsArchived list_registry arm_only no_options decode_arm [] (new_index [])
      (codes "nginx" ∷ codes "a b" ∷ []) saved_lines
