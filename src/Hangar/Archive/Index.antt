-- ===== src/Hangar/Archive/Index.antt =====
-- pkg/hangar/archive/index.go: the index at the end of an archive.
pub mod Digests
use Prim.Native.Nat.{Ordering}
use image_tools.Prelude.{
  Bool, true, false, ◌&&◌, ◌||◌, Option, none, some, List, [], ◌∷◌, ◌++◌, eqb, if◌then◌else◌, has,
  mark, length, ok, err, Text, codes, ◌==◌,
}
use image_tools.Utils.ImageName.{get_project_name, get_image_name}
use image_tools.Utils.Semver.{SemverPackage, SemverError, semver_compare}

pub record ImageSpec : Type 0 where
  pub arch : Text
  pub os : Text
  pub os_version : Text
  pub os_features : List Text
  pub variant : Text
  pub media_type : Text
  pub layers : List Text
  pub config : Text
  pub digest : Text

pub record Image : Type 0 where
  pub source : Text
  pub tag : Text
  pub arch_list : List Text
  pub os_list : List Text
  pub images : List ImageSpec

-- `digest_set` is the field that is not exported; `none` is the nil map.
pub record Index : Type 0 where
  pub list : List Image
  pub version : Text
  pub time : Text
  pub digest_set : Option (List Text)

abbrev pub index_version : Text
index_version = codes "v1.2.0"

-- The argument is the result of `time.Now()`.
unfoldable pub new_index : Text → Index
new_index now = record { list = []; version = index_version; time = now; digest_set = some [] }

-- `for _, image := range images.Images { digestSet[image.Digest] = true }`
unfoldable pub mark_specs : List ImageSpec → List Text → List Text
unfolding mark
mark_specs [] set = set
mark_specs (spec ∷ specs) set = mark_specs specs (mark spec.digest set)

unfoldable pub mark_images : List Image → List Text → List Text
unfolding mark_specs
mark_images [] set = set
mark_images (image ∷ images) set = mark_images images (mark_specs image.images set)

-- `decode b i` is what `json.Unmarshal(b, i)` makes of `i`, or `none` for its error.
module _ (decode : Text → Index → Option Index) where
  unfoldable pub unmarshal : Index → Text → Option Index
  unfolding mark_images
  unmarshal i b = elim (decode b i) [
    | none ↦ none
    | some i' ↦ some (record i' { digest_set = some (mark_images i'.list []) })
  ]

  -- Into a new value, whose fields are all zero.
  unfoldable pub unmarshal_index : Text → Option Index
  unfolding unmarshal
  unmarshal_index b = unmarshal (record { list = []; version = []; time = []; digest_set = none }) b

abbrev pub set_or_empty : Option (List Text) → List Text
set_or_empty none = []
set_or_empty (some set) = set

-- The argument `none` is the nil pointer.
unfoldable pub append : Index → Option Image → Index
unfolding mark_specs
append i none = i
append i (some n) = if eqb (length n.images) 0 then i else record i {
  list = i.list ++ n ∷ [];
  digest_set = some (mark_specs n.images (set_or_empty i.digest_set));
}

unfoldable pub has_all : List Text → List ImageSpec → Bool
has_all set [] = true
has_all set (spec ∷ specs) = has set spec.digest && has_all set specs

unfoldable pub has_image : Index → Image → Bool
unfolding has_all
has_image i n = elim i.digest_set [ none ↦ false | some set ↦ has_all set n.images ]

unfoldable pub has_reference_in : List Image → Text → Text → Text → Bool
has_reference_in [] project name tag = false
has_reference_in (image ∷ images) project name tag =
    (get_project_name image.source == project
      && get_image_name image.source == name
      && image.tag == tag)
    || has_reference_in images project name tag

unfoldable pub has_reference : Index → Text → Text → Text → Bool
unfolding has_reference_in
has_reference i project name tag = has_reference_in i.list project name tag

-- `none` is a version that the program supports.
pub data VersionError : Type 0 where
  compare_failed : SemverError → VersionError
  not_supported : Text → VersionError

unfoldable pub compare_index_version : SemverPackage → Index → Option VersionError
unfolding semver_compare
compare_index_version semver i = elim (semver_compare semver i.version index_version) [
  | err e ↦ some (compare_failed e)
  | ok Ordering.lt ↦ some (not_supported i.version)
  | ok Ordering.eq ↦ none
  | ok Ordering.gt ↦ none
]
