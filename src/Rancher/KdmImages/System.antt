-- ===== src/Rancher/KdmImages/System.antt =====
-- pkg/rancher/kdmimages/system.go: the system images of RKE.
pub mod Newest
pub mod Collected
pub mod Kept
use Prim.Native.Nat.{Ordering}
use image_tools.Prelude.{
  Bool, true, false, not, ◌&&◌, ◌||◌, Option, none, some, List, [], ◌∷◌, ◌++◌, if◌then◌else◌, has,
  lookup, insert, Result, ok, err, ◌>>=◌, Text, codes, is_empty, split,
}
use image_tools.Rancher.KdmImages.{KdmError, not_initialized, not_flat}
use image_tools.Rancher.KdmImages.Upgrade.{less, greater}
use image_tools.Rancher.Values.{str, obj, Fields, end, field}
use image_tools.Utils.ImageName.{get_project_name}
use image_tools.Utils.ImageSet.{ImageSet, add_source_to_image}
use image_tools.Utils.Semver.{SemverPackage, semver_compare}

-- What the KDM data says of a version of Kubernetes; the texts may be empty.
pub record K8sVersionInfo : Type 0 where
  pub deprecate_rancher_version : Text
  pub min_rancher_version : Text
  pub max_rancher_version : Text

-- What the program uses of the images of a version in the package rancher/rke: the images that
-- Windows needs, alone; all but the one that only Windows needs; and the JSON object of a map from
-- versions to images, `none` for an error.
pub record RkePackage (Images : Type 0) : Type 0 where
  pub windows_images : Images → Images
  pub linux_images : Images → Images
  pub to_obj : List (Text × Images) → Option Fields

pub record VersionInfo (Images Options : Type 0) : Type 0 where
  pub rke_system_images : List (Text × Images)
  pub service_options : List (Text × Options)

-- A map is `none` for a nil map. The two infos are made by `getK8sVersionInfo`.
pub record SystemImages (Images Options : Type 0) : Type 0 where
  pub rancher_version : Text
  pub rke_sys_images : Option (List (Text × Images))
  pub linux_svc_options : Option (List (Text × Options))
  pub windows_svc_options : Option (List (Text × Options))
  pub rancher_versions : Option (List (Text × K8sVersionInfo))
  pub linux_image_set : ImageSet
  pub windows_image_set : ImageSet

-- `strings.Join(splitTag[:2], ".")`
abbrev pub major_of : List Text → Text
major_of (a ∷ b ∷ rest) = a ++ b'.' ∷ b
major_of s = []

unfoldable pub get_tag_major_version : Text → Text
unfolding split
get_tag_major_version tag = major_of (split tag b'.')

unfoldable pub discard_image : Text → Bool
unfolding get_project_name has
discard_image image =
    not (has (codes "rancher" ∷ codes "cnrancher" ∷ codes "library" ∷ []) (get_project_name image))

-- The texts in a JSON object, itself and below; lists are passed over.
unfoldable pub fetch_images_from_collection : Fields → List Text
fetch_images_from_collection end = []
fetch_images_from_collection (field key (str s) fields) = s ∷ fetch_images_from_collection fields
fetch_images_from_collection (field key (obj below) fields) =
    fetch_images_from_collection below ++ fetch_images_from_collection fields
fetch_images_from_collection (field key v fields) = fetch_images_from_collection fields

unfoldable pub add_all_images : Text → List Text → ImageSet → ImageSet
unfolding add_source_to_image
add_all_images source [] set = set
add_all_images source (image ∷ images) set =
    add_all_images source images (add_source_to_image set image (source ∷ []))

-- The loop that deletes what is discarded.
unfoldable pub delete_discarded : ImageSet → ImageSet
unfolding discard_image
delete_discarded [] = []
delete_discarded ((image, sources) ∷ set) =
    let rest = delete_discarded set in if discard_image image then rest else (image, sources) ∷ rest

module _ (semver : SemverPackage) where
  -- `err == nil && test(res)` for two versions of which the second may be empty.
  unfoldable pub compares : (Ordering → Bool) → Text → Text → Bool
  unfolding semver_compare
  compares test a b = elim (semver_compare semver a b) [ ok o ↦ test o | err e ↦ false ]

  unfoldable pub to_ignore_for_all_k8s : K8sVersionInfo → Text → Bool
  unfolding compares
  to_ignore_for_all_k8s info rancher =
      (not (is_empty info.deprecate_rancher_version)
        && compares (λ o. not (less o)) rancher info.deprecate_rancher_version)
      || (not (is_empty info.min_rancher_version) && compares less rancher info.min_rancher_version)

  unfoldable pub to_ignore_for_k8s_current : K8sVersionInfo → Text → Bool
  unfolding compares
  to_ignore_for_k8s_current info rancher =
      not (is_empty info.max_rancher_version) && compares greater rancher info.max_rancher_version

  abbrev pub ignored_by : (K8sVersionInfo → Text → Bool) → Text → Option K8sVersionInfo → Bool
  ignored_by ignore rancher none = false
  ignored_by ignore rancher (some info) = ignore info rancher

  -- `err != nil || !ok || res > 0`
  unfoldable pub replaces : Text → Option Text → Bool
  unfolding semver_compare
  replaces version none = true
  replaces version (some current) = elim (semver_compare semver version current) [
    | ok o ↦ greater o
    | err e ↦ true
  ]

  module _ (rancher : Text) (infos : List (Text × K8sVersionInfo)) where
    -- The version, or its major version, is passed over.
    unfoldable pub is_ignored : Text → Bool
    unfolding to_ignore_for_all_k8s to_ignore_for_k8s_current lookup get_tag_major_version
    is_ignored version =
        ignored_by to_ignore_for_all_k8s rancher (lookup version infos)
        || ignored_by to_ignore_for_k8s_current rancher
            (lookup (get_tag_major_version version) infos)

    unfoldable pub max_step : Text → List (Text × Text) → List (Text × Text)
    unfolding is_ignored replaces lookup insert get_tag_major_version
    max_step version newest =
        if is_ignored version
        then newest
        else if replaces version (lookup (get_tag_major_version version) newest)
        then insert (get_tag_major_version version) version newest
        else newest

    -- The first loop of `getK8sVersionInfo`, over the versions.
    unfoldable pub max_versions : List Text → List (Text × Text) → List (Text × Text)
    unfolding max_step
    max_versions [] newest = newest
    max_versions (version ∷ versions) newest = max_versions versions (max_step version newest)

abbrev pub keys {ℓ} : {A : Type ℓ} → List (Text × A) → List Text
keys [] = []
keys ((k, x) ∷ m) = k ∷ keys m

abbrev pub initialized {ℓ} : {A : Type ℓ} → Option A → Result KdmError A
initialized none = err not_initialized
initialized (some a) = ok a

module _ {Images Options : Type 0} where
  -- The images of a version, when there are images and options of a system for it.
  abbrev pub put_version :
      (Images → Images)
      → Text
      → Option Images
      → Option Options
      → VersionInfo Images Options
      → VersionInfo Images Options
  put_version keep version none found info = info
  put_version keep version (some images) none info = info
  put_version keep version (some images) (some options) info = record info {
    rke_system_images = insert version (keep images) info.rke_system_images;
    service_options = insert version options info.service_options;
  }

  -- The second loop, over the newest versions, for one system and its options.
  unfoldable pub collect :
      (Images → Images)
      → List (Text × Images)
      → List (Text × Options)
      → List (Text × Text)
      → VersionInfo Images Options
      → VersionInfo Images Options
  unfolding lookup insert
  collect keep all options [] info = info
  collect keep all options ((major, version) ∷ newest) info =
      collect keep all options newest
        (put_version keep version (lookup version all) (lookup major options) info)

  abbrev pub no_info : VersionInfo Images Options
  no_info = record { rke_system_images = []; service_options = [] }

module _ {Images Options : Type 0} (rke : RkePackage Images) where
  -- `fetchImages`: nothing is done for an empty map.
  unfoldable pub fetch_images : VersionInfo Images Options → ImageSet → Result KdmError ImageSet
  unfolding fetch_images_from_collection add_all_images
  fetch_images info set = elim info.rke_system_images [
    | [] ↦ ok set
    | images ∷ rest ↦ elim (rke.to_obj (images ∷ rest)) [
      | none ↦ err not_flat
      | some fields ↦ ok (add_all_images (codes "system") (fetch_images_from_collection fields) set)
    ]
  ]

  unfoldable pub system_images :
      SemverPackage → SystemImages Images Options → Result KdmError (SystemImages Images Options)
  unfolding max_versions collect fetch_images delete_discarded
  system_images semver s = do
    all ← initialized s.rke_sys_images
    linux_options ← initialized s.linux_svc_options
    windows_options ← initialized s.windows_svc_options
    infos ← initialized s.rancher_versions
    rancher ← initialized (if is_empty s.rancher_version then none else some s.rancher_version)
    let newest = max_versions semver rancher infos (keys all) []
    linux_set ←
        fetch_images (collect rke.linux_images all linux_options newest no_info) s.linux_image_set
    windows_set ←
        fetch_images (collect rke.windows_images all windows_options newest no_info)
          s.windows_image_set
    ok (record s {
      linux_image_set = delete_discarded linux_set;
      windows_image_set = delete_discarded windows_set;
    })
