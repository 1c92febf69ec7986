-- ===== src/Hangar/Loader.antt =====
-- pkg/hangar/loader.go: the names an archived image is loaded under, and the manifest that is pushed.
pub mod Names
pub mod Merge
pub mod Worker
pub mod Run
pub mod Failed
pub mod Validation
use image_tools.Destination.{Destination, DestinationOption, or_default, new_destination, init}
use image_tools.Hangar.Archive.Index.{Image}
use image_tools.Hangar.Mirrorer.{all_contained}
use image_tools.Manifest.{ManifestImage, add_all}
use image_tools.Media.{Inspector}
use image_tools.Prelude.{
  Bool, false, Option, none, some, List, [], ◌∷◌, ◌++◌, eqb, if◌then◌else◌, length, Result, ok, err,
  ◌>>=◌, Text,
}
use image_tools.Types.{docker, ImageError, no_available_image}
use image_tools.Utils.ImageName.{colon, get_project_name, get_registry_name, get_image_name}

pub record LoaderOptions : Type 0 where
  pub destination_registry : Text
  pub destination_project : Text

-- `imageName`
abbrev pub archived_name : Image → Text
archived_name image = image.source ++ colon ∷ image.tag

-- The options of the destination that the worker builds.
unfoldable pub load_option : LoaderOptions → Image → DestinationOption
unfolding get_registry_name get_project_name get_image_name
load_option o image = record {
  image_type = docker;
  directory = [];
  registry = or_default o.destination_registry (get_registry_name (archived_name image));
  project = or_default o.destination_project (get_project_name (archived_name image));
  name = get_image_name (archived_name image);
  tag = image.tag;
}

unfoldable pub load_destination : Inspector → LoaderOptions → Image → Result ImageError Destination
unfolding load_option new_destination init
load_destination registry o image = do d ← new_destination (load_option o image); init registry d

-- No new image was copied: the destination lists all digests.
unfoldable pub skip_load : List ManifestImage → List ManifestImage → Bool
unfolding all_contained
skip_load [] new = false
skip_load (img ∷ images) new = all_contained new (img ∷ images)

-- What is pushed: nothing when no image is new, and an error when there is no image at all.
unfoldable pub merge_loaded :
    List ManifestImage → List ManifestImage → Result ImageError (Option (List ManifestImage))
unfolding skip_load add_all
merge_loaded old new =
    let merged = add_all (add_all [] old) new in
    if skip_load old new
    then ok none
    else if eqb (length merged) 0
    then err no_available_image
    else ok (some merged)
