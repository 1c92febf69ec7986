-- ===== src/Destination/Queries.antt =====
-- pkg/destination/destination.go: what the image that was found at the destination holds. `none`
-- stands for the panic on a nil pointer.
use mathlib.Core.Option
use image_tools.Destination.{Destination}
use image_tools.Hangar.Archive.Index.{ImageSpec, Image}
use image_tools.Manifest.{ManifestImage, new_image, update_platform}
use image_tools.Media.{Mime, absent, docker_list, Platform, Descriptor, OciDescriptor, SpecSet}
use image_tools.Prelude.{
  ℕ, Bool, true, false, ◌&&◌, ◌||◌, Option, none, some, List, [], ◌∷◌, ◌++◌, if◌then◌else◌, has,
  mark, join_path, Text, ◌==◌, is_empty, trim_prefix, trim_suffix,
}
use image_tools.Types.{ImageType, oci, dir, transport}
use image_tools.Utils.ImageName.{colon}

unfoldable pub lists_digest : List Descriptor → Text → Bool
lists_digest [] d = false
lists_digest (m ∷ ms) d = m.digest == d || lists_digest ms d

unfoldable pub index_lists_digest : List OciDescriptor → Text → Bool
index_lists_digest [] d = false
index_lists_digest (m ∷ ms) d = m.digest == d || index_lists_digest ms d

-- The branch that the media type selects.
unfoldable pub have_digest_at : Mime → Destination → Text → Option Bool
unfolding lists_digest index_lists_digest
have_digest_at absent d k = some false
have_digest_at docker_list d k = Option.map (λ l. lists_digest l k) d.schema2_list
have_digest_at Mime.oci_index d k = Option.map (λ l. index_lists_digest l k) d.oci_index
have_digest_at mime d k = some false

unfoldable pub have_digest : Destination → Text → Option Bool
unfolding have_digest_at
have_digest d k = if is_empty k then some false else have_digest_at d.mime d k

-- `NewImage` and `UpdatePlatform`.
unfoldable pub to_image : Text → Text → ℕ → Platform → ManifestImage
unfolding new_image update_platform
to_image digest media_type size p =
    update_platform (new_image digest media_type size) p.architecture p.variant p.os p.os_version
      p.os_features

unfoldable pub list_images : List Descriptor → List ManifestImage
unfolding to_image
list_images [] = []
list_images (m ∷ ms) = to_image m.digest m.media_type m.size m.platform ∷ list_images ms

unfoldable pub index_images : List OciDescriptor → Option (List ManifestImage)
unfolding to_image
index_images [] = some []
index_images (m ∷ ms) = elim m.platform [
  | none ↦ none
  | some p ↦ Option.map (λ l. to_image m.digest m.media_type m.size p ∷ l) (index_images ms)
]

unfoldable pub manifest_images_at : Mime → Destination → Option (List ManifestImage)
unfolding list_images index_images
manifest_images_at docker_list d = Option.map list_images d.schema2_list
manifest_images_at Mime.oci_index d = Option.bind d.oci_index index_images
manifest_images_at mime d = some []

unfoldable pub manifest_images : Destination → Option (List ManifestImage)
unfolding manifest_images_at
manifest_images d = manifest_images_at d.mime d

-- `len(set) != 0 && !set[k]`, negated.
abbrev pub allows : List Text → Text → Bool
allows [] k = true
allows (x ∷ xs) k = has (x ∷ xs) k

-- `archive.Image{}` and `archive.ImageSpec{Digest: d}`
abbrev pub no_image : Image
no_image = record { source = []; tag = []; arch_list = []; os_list = []; images = [] }

abbrev pub bare_spec : Text → ImageSpec
bare_spec d = record {
  arch = [];
  os = [];
  os_version = [];
  os_features = [];
  variant = [];
  media_type = [];
  layers = [];
  config = [];
  digest = d;
}

-- The body of the loops of `ImageBySet`.
unfoldable pub take_image : SpecSet → Platform → Text → Image → Image
unfolding mark
take_image set p digest image =
    if allows set.arch p.architecture && allows set.os p.os
    then record image {
      arch_list = mark p.architecture image.arch_list;
      os_list = mark p.os image.os_list;
      images = image.images ++ bare_spec digest ∷ [];
    }
    else image

unfoldable pub list_by_set : SpecSet → List Descriptor → Image → Image
unfolding take_image
list_by_set set [] image = image
list_by_set set (m ∷ ms) image = list_by_set set ms (take_image set m.platform m.digest image)

unfoldable pub index_by_set : SpecSet → List OciDescriptor → Image → Option Image
unfolding take_image
index_by_set set [] image = some image
index_by_set set (m ∷ ms) image = elim m.platform [
  | none ↦ none
  | some p ↦ index_by_set set ms (take_image set p m.digest image)
]

unfoldable pub image_by_set_at : Mime → Destination → SpecSet → Option Image
unfolding list_by_set index_by_set
image_by_set_at docker_list d set = Option.map (λ l. list_by_set set l no_image) d.schema2_list
image_by_set_at Mime.oci_index d set = Option.bind d.oci_index (λ l. index_by_set set l no_image)
image_by_set_at mime d set = some no_image

unfoldable pub image_by_set : Destination → SpecSet → Option Image
unfolding image_by_set_at
image_by_set d set = image_by_set_at d.mime d set

unfoldable pub multi_arch_tag : Destination → Text → Text → Text → Text → Text
multi_arch_tag d os os_version arch variant =
    let dash : ℕ = b'-' in
    if is_empty os_version
    then d.reference_name ++ dash ∷ (os ++ dash ∷ (arch ++ variant))
    else d.reference_name ++ dash ∷ (os ++ dash ∷ (os_version ++ dash ∷ (arch ++ variant)))

unfoldable pub multi_arch_name : ImageType → Destination → Text → Text → Text → Text → Text → Text
unfolding multi_arch_tag join_path
multi_arch_name dir d os os_version arch variant sum = join_path d.reference_name sum
multi_arch_name oci d os os_version arch variant sum = join_path d.reference_name sum
multi_arch_name t d os os_version arch variant sum = multi_arch_tag d os os_version arch variant

unfoldable pub reference_name_multi_arch : Destination → Text → Text → Text → Text → Text → Text
unfolding multi_arch_name
reference_name_multi_arch d os os_version arch variant sum =
    multi_arch_name d.image_type d os os_version arch variant sum

-- The name without its transport, or nothing for a type without one.
unfoldable pub without_transport : ImageType → Text → Text
unfolding transport
without_transport t name = if is_empty (transport t) then [] else trim_prefix name (transport t)

unfoldable pub reference_name_without_transport : Destination → Text
unfolding without_transport
reference_name_without_transport d = without_transport d.image_type d.reference_name

-- `digest.String()` is the digest itself.
unfoldable pub reference_name_digest : Destination → Text → Text
reference_name_digest d digest = trim_suffix d.reference_name (colon ∷ d.tag) ++ b'@' ∷ digest
