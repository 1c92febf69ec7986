-- ===== src/Rancher/KdmImages/Upgrade.antt =====
-- pkg/rancher/kdmimages/upgrade.go: the images of the K3S and RKE2 releases for an upgrade.
pub mod Listed
use Prim.Native.Nat.{Ordering, lt, gt}
use image_tools.Prelude.{
  ℕ, Bool, true, false, not, ◌&&◌, ◌||◌, Option, none, some, List, [], ◌∷◌, ◌++◌, eqb,
  if◌then◌else◌, mark_all, Result, ok, err, ◌>>=◌, Text, codes, ◌==◌, is_empty, non_empty,
  trim_prefix,
}
use image_tools.Rancher.KdmImages.{
  KdmError, invalid_source, k3s, rke2, dashed, releases_of, installer_image,
}
use image_tools.Rancher.KdmImages.Sorting.{sort_strings}
use image_tools.Rancher.Values.{Value, obj, Items, nil, cons, Fields, get_field, as_string}
use image_tools.Utils.Semver.{SemverPackage}

pub record UpgradeImages : Type 0 where
  pub source : Text
  pub rancher_version : Text
  pub min_kube_version : Text
  pub kdm_data : Option Fields

-- `semver.Compare(a, b) < 0` and `semver.Compare(a, b) > 0`.
abbrev pub less : Ordering → Bool
less lt = true
less o = false

abbrev pub greater : Ordering → Bool
greater gt = true
greater o = false

-- `!ok || !semver.IsValid(version)` gives nothing.
abbrev pub valid_version : SemverPackage → Option Text → Option Text
valid_version semver none = none
valid_version semver (some v) = if semver.is_valid v then some v else none

module _ (semver : SemverPackage) where
  -- The release is not older than the minimal version of Kubernetes, if one is set.
  unfoldable pub new_enough : UpgradeImages → Text → Bool
  new_enough g kube =
      is_empty g.min_kube_version
      || (semver.is_valid kube && not (less (semver.compare kube g.min_kube_version)))

  -- The Rancher version lies in the range of the release.
  unfoldable pub in_range : UpgradeImages → Fields → Bool
  unfolding get_field
  in_range g release =
      elim (valid_version semver
        (as_string (get_field (codes "maxChannelServerVersion") release))) [
          | none ↦ false
          | some high ↦
              elim (valid_version semver
                (as_string (get_field (codes "minChannelServerVersion") release))) [
                  | none ↦ false
                  | some low ↦
                      not (less (semver.compare g.rancher_version low))
                      && not (greater (semver.compare g.rancher_version high))
                ]
        ]

  -- The version of a release that is compatible.
  unfoldable pub compatible : UpgradeImages → Value → Option Text
  unfolding new_enough in_range get_field ◌==◌
  compatible g (obj fields) = elim (as_string (get_field (codes "version") fields)) [
    | none ↦ none
    | some kube ↦
        if not (is_empty kube)
          && new_enough g kube
          && (g.rancher_version == codes "dev" || in_range g fields)
        then some kube
        else none
  ]
  compatible g release = none

  unfoldable pub compatible_releases : UpgradeImages → Items → List Text
  unfolding compatible
  compatible_releases g nil = []
  compatible_releases g (cons release releases) =
      let rest = compatible_releases g releases in
      elim (compatible g release) [ none ↦ rest | some kube ↦ kube ∷ rest ]

unfoldable pub upgrade_image : Text → Text → Text
upgrade_image source release = codes "rancher/" ++ (source ++ (codes "-upgrade:" ++ dashed release))

unfoldable pub trim_registry : List Text → List Text
unfolding trim_prefix
trim_registry [] = []
trim_registry (name ∷ rest) = trim_prefix name (codes "docker.io/") ∷ trim_registry rest

-- The URL of the list of a release; the source is one of the two.
unfoldable pub list_url : Text → Text → Text
unfolding ◌==◌
list_url source release =
    if source == rke2
    then codes "https://github.com/rancher/rke2/releases/download/"
      ++ (release ++ codes "/rke2-images-all.linux-amd64.txt")
    else codes "https://github.com/k3s-io/k3s/releases/download/"
      ++ (release ++ codes "/k3s-images.txt")

-- `get` stands for the status and the lines that a server answers, with `none` for an error.
module _ (get : Text → Option (ℕ × List Text)) where
  unfoldable pub get_image_list_from_url : Text → Option (List Text)
  unfolding non_empty
  get_image_list_from_url url = elim (get url) [
    | none ↦ none
    | some (status, lines) ↦ if eqb status 200 then some (non_empty lines) else none
  ]

  unfoldable pub images_of_release : Text → Text → List Text
  unfolding upgrade_image installer_image trim_registry get_image_list_from_url list_url
  images_of_release source release =
      upgrade_image source release
      ∷ installer_image source release
      ∷ elim (get_image_list_from_url (list_url source release)) [
        | none ↦ []
        | some list ↦ trim_registry list
      ]

  -- The loop over the releases, with the keys of the map.
  unfoldable pub external_images : Text → List Text → List Text → List Text
  unfolding images_of_release mark_all
  external_images source [] keys = keys
  external_images source (release ∷ releases) keys =
      external_images source releases (mark_all (images_of_release source release) keys)

  unfoldable pub upgrade_images : SemverPackage → UpgradeImages → Result KdmError (List Text)
  unfolding compatible_releases external_images sort_strings get_field ◌==◌
  upgrade_images semver g =
      if not (g.source == k3s) && not (g.source == rke2) then err (invalid_source g.source) else do
        releases ← releases_of g.kdm_data
        ok (sort_strings (external_images g.source (compatible_releases semver g releases) []))
