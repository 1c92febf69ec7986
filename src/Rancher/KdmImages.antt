-- ===== src/Rancher/KdmImages.antt =====
-- pkg/rancher/kdmimages: the images that the KDM data names.
pub mod Release
pub mod Sorting
pub mod Upgrade
pub mod System
use image_tools.Prelude.{
  Option, none, some, ◌∷◌, ◌++◌, map, eqb, if◌then◌else◌, Result, ok, err, Text, codes,
}
use image_tools.Rancher.Values.{Items, Fields, get_field, as_array}

pub data KdmError : Type 0 where
  data_is_nil no_releases not_initialized not_flat : KdmError
  invalid_source : Text → KdmError

abbrev pub k3s : Text
k3s = codes "k3s"

abbrev pub rke2 : Text
rke2 = codes "rke2"

-- `strings.ReplaceAll(version, "+", "-")`
abbrev pub dashed : Text → Text
dashed version = map (λ c. if eqb c b'+' then b'-' else c) version

-- `r.Data["releases"].([]interface{})`; reading a nil map gives nothing.
abbrev pub releases_of : Option Fields → Result KdmError Items
releases_of none = err no_releases
releases_of (some fields) = elim (as_array (get_field (codes "releases") fields)) [
  | none ↦ err no_releases
  | some releases ↦ ok releases
]

-- "rancher/system-agent-installer-<source>:<version>"
unfoldable pub installer_image : Text → Text → Text
installer_image source version =
    codes "rancher/system-agent-installer-" ++ (source ++ b':' ∷ dashed version)
