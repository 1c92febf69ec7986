-- ===== src/Hangar/Mirrorer.antt =====
-- pkg/hangar/mirrorer.go: the objects that the lines of an image list stand for, the manifest that is
-- pushed after the copy, and the validation.
pub mod Lines
pub mod Merge
pub mod Run
pub mod Validation
use mathlib.Core.Option
use image_tools.Destination.{Destination, DestinationOption, or_default, new_destination, exists}
use image_tools.Destination.Queries.{manifest_images, image_by_set, reference_name_digest}
use image_tools.Hangar.Archive.Index.{ImageSpec, mark_specs, has_all}
use image_tools.Hangar.ImageList.{ListType, mirror, default, get_mirror_spec, detect}
use image_tools.Manifest.{ManifestImage, update_platform, contain_digest, add_all}
use image_tools.Media.{Mime, docker_schema1, docker_schema1_signed, SpecSet}
use image_tools.Prelude.{
  Bool, true, false, ◌&&◌, Option, none, some, List, [], ◌∷◌, eqb, if◌then◌else◌, length, Result,
  ok, err, ◌>>=◌, Text,
}
use image_tools.Source.{Source, SourceOption, new_source}
use image_tools.Source.Load.{source_image_by_set}
use image_tools.Types.{docker, ImageError, malformed}
use image_tools.Utils.ImageName.{get_project_name, get_registry_name, get_image_name, get_image_tag}

pub record MirrorerOptions : Type 0 where
  pub source_registry : Text
  pub source_project : Text
  pub destination_registry : Text
  pub destination_project : Text

pub record MirrorObject : Type 0 where
  pub image : Text
  pub source : Source
  pub destination : Destination

-- The options of the source and of the destination, from their names and the tag.
unfoldable pub source_option : MirrorerOptions → Text → Text → SourceOption
unfolding get_registry_name get_project_name get_image_name
source_option o name t = record {
  image_type = docker;
  directory = [];
  registry = or_default o.source_registry (get_registry_name name);
  project = or_default o.source_project (get_project_name name);
  name = get_image_name name;
  tag = t;
  digest = [];
}

unfoldable pub destination_option : MirrorerOptions → Text → Text → DestinationOption
unfolding get_project_name get_image_name
destination_option o name t = record {
  image_type = docker;
  directory = [];
  registry = o.destination_registry;
  project = or_default o.destination_project (get_project_name name);
  name = get_image_name name;
  tag = t;
}

-- What the two functions build from the names of the source and the destination and the tag.
unfoldable pub mirror_object :
    MirrorerOptions → Text → Text → Text → Text → Result ImageError MirrorObject
unfolding new_source new_destination source_option destination_option
mirror_object o line from to t = do
  s ← new_source (source_option o from t)
  d ← new_destination (destination_option o to t)
  ok (record { image = line; source = s; destination = d })

unfoldable pub object_of_words : MirrorerOptions → Text → List Text → Result ImageError MirrorObject
unfolding mirror_object
object_of_words o line (from ∷ to ∷ t ∷ []) = mirror_object o line from to t
object_of_words o line words = err malformed

unfoldable pub object_of_type :
    ListType → MirrorerOptions → Text → Option (Result ImageError MirrorObject)
unfolding mirror_object object_of_words get_image_tag get_mirror_spec
object_of_type default o line = some (mirror_object o line line line (get_image_tag line))
object_of_type mirror o line = elim (get_mirror_spec line) [
  | none ↦ some (err malformed)
  | some words ↦ some (object_of_words o line words)
]
object_of_type t o line = none

-- The body of the loop over the lines; `none` for a line that is ignored.
unfoldable pub object_of_line : MirrorerOptions → Text → Option (Result ImageError MirrorObject)
unfolding object_of_type detect
object_of_line o line = object_of_type (detect line) o line

-- Every digest of the first list is in the second one.
unfoldable pub all_contained : List ManifestImage → List ManifestImage → Bool
unfolding contain_digest
all_contained [] new = true
all_contained (img ∷ images) new = contain_digest new img.digest && all_contained images new

unfoldable pub skip_build : List ManifestImage → List ManifestImage → Bool
unfolding all_contained
skip_build [] new = false
skip_build (img ∷ images) new = all_contained (img ∷ images) new

-- The images that the builder pushes, `none` if it pushes nothing.
unfoldable pub merge_manifest :
    List ManifestImage → List ManifestImage → Option (List ManifestImage)
unfolding skip_build add_all
merge_manifest old new =
    let merged = add_all (add_all [] old) new in
    if skip_build old new then none else if eqb (length merged) 0 then none else some merged

-- `NewImageByInspect`, a parameter, and `UpdatePlatform` for each copied image.
unfoldable pub new_images :
    (Text → Option ManifestImage) → Destination → List ImageSpec → Option (List ManifestImage)
unfolding update_platform reference_name_digest
new_images inspect d [] = some []
new_images inspect d (spec ∷ specs) = elim (inspect (reference_name_digest d spec.digest)) [
  | none ↦ none
  | some mi ↦
      Option.map
        (λ l.
          update_platform mi spec.arch spec.variant spec.os spec.os_version spec.os_features ∷ l)
        (new_images inspect d specs)
]

-- What the worker pushes for the copied images: nothing or the merged list, or an error; `none` is
-- the panic of `ManifestImages`.
unfoldable pub manifest_to_push :
    (Text → Option ManifestImage)
    → Destination
    → List ImageSpec
    → Option (Result ImageError (Option (List ManifestImage)))
unfolding new_images merge_manifest manifest_images
manifest_to_push inspect d [] = some (ok none)
manifest_to_push inspect d (spec ∷ specs) = elim (new_images inspect d (spec ∷ specs)) [
  | none ↦ some (err malformed)
  | some new ↦ Option.map (λ old. ok (merge_manifest old new)) (manifest_images d)
]

-- The comparison of `validateWorker`, by the media type of the source.
unfoldable pub compare_at : Mime → Source → Destination → SpecSet → Option Bool
unfolding image_by_set source_image_by_set mark_specs has_all
compare_at docker_schema1 s d set = some true
compare_at docker_schema1_signed s d set = some true
compare_at mime s d set = Option.bind (image_by_set d set) (λ held.
    Option.map (λ image. has_all (mark_specs held.images []) image.images)
      (source_image_by_set s set))

unfoldable pub validate_mirror : Source → Destination → SpecSet → Option Bool
unfolding compare_at exists
validate_mirror s d set = if exists d then compare_at s.mime s d set else some false
