-- ===== src/Rancher/KdmImages/Release.antt =====
-- pkg/rancher/kdmimages/release.go: the images of the K3S and RKE2 releases.
use image_tools.Prelude.{
  not, ◌&&◌, ◌||◌, Option, none, some, List, [], ◌∷◌, ◌++◌, if◌then◌else◌, is_missing, Result, ok,
  err, ◌>>=◌, Text, codes, ◌==◌, is_empty,
}
use image_tools.Rancher.KdmImages.{
  KdmError, data_is_nil, invalid_source, k3s, rke2, dashed, releases_of,
}
use image_tools.Rancher.Values.{Value, obj, Items, nil, cons, Fields, get_field, as_string, as_map}

pub record ReleaseImages : Type 0 where
  pub source : Text
  pub kdm_data : Option Fields

-- The version of a release that has arguments of the server.
unfoldable pub version_of : Value → Option Text
unfolding get_field
version_of (obj fields) = elim (as_map (get_field (codes "serverArgs") fields)) [
  | none ↦ none
  | some args ↦ as_string (get_field (codes "version") fields)
]
version_of release = none

unfoldable pub versions_of : Items → List Text
unfolding version_of
versions_of nil = []
versions_of (cons release releases) =
    let rest = versions_of releases in
    elim (version_of release) [ none ↦ rest | some version ↦ dashed version ∷ rest ]

unfoldable pub get_versions : ReleaseImages → Result KdmError (List Text)
unfolding versions_of get_field
get_versions r = do releases ← releases_of r.kdm_data; ok (versions_of releases)

unfoldable pub installer_images : Text → List Text → List Text
installer_images source [] = []
installer_images source (version ∷ versions) =
    (codes "rancher/system-agent-installer-" ++ (source ++ b':' ∷ version))
    ∷ installer_images source versions

unfoldable pub release_images : ReleaseImages → Result KdmError (List Text)
unfolding get_versions installer_images ◌==◌
release_images r =
    if is_missing r.kdm_data
    then err data_is_nil
    else if is_empty r.source || (not (r.source == rke2) && not (r.source == k3s))
    then err (invalid_source r.source)
    else do versions ← get_versions r; ok (installer_images r.source versions)
