-- ===== src/Rancher/KdmImages/System/Newest.antt =====
-- pkg/rancher/kdmimages/system.go: the newest version of each major version.
use Prim.Native.Nat.{Ordering}
use image_tools.Prelude.{◌≡◌, ◌≢◌, true, false, some, List, [], has, lookup, ok, err, Text}
use image_tools.Rancher.KdmImages.System.{
  K8sVersionInfo, get_tag_major_version, replaces, is_ignored,
}
use image_tools.Rancher.KdmImages.Upgrade.{greater}
use image_tools.Utils.Semver.{SemverPackage, ensure_semver_valid}
use image_tools.Utils.Semver.Laws.{IsVersion}

-- A version that the package reads, with or without its "v".
abbrev pub IsProper : SemverPackage → Text → Type 0
IsProper semver v = (v ≢ []) × IsVersion semver v

-- The package documents a total order of the texts, in which versions may be equal.
pub record IsOrder (compare : Text → Text → Ordering) : Type 0 where
  pub one_way : (a b : Text) → greater (compare a b) ≡ true → greater (compare b a) ≡ false
  pub through :
      (a b c : Text)
      → greater (compare a b) ≡ false
      → greater (compare b c) ≡ false
      → greater (compare a c) ≡ false

module _ (semver : SemverPackage) (rancher : Text) (infos : List (Text × K8sVersionInfo))
    (all : List Text) where
  -- What may stand for a major version.
  abbrev pub Fits : Text → Text → Type 0
  Fits major m =
      (has all m ≡ true)
      × (get_tag_major_version m ≡ major)
      × (is_ignored semver rancher infos m ≡ false)
      × IsProper semver m

  -- A version is listed, none newer than it, for the major version of `v`.
  abbrev pub HasNewest : Text → List (Text × Text) → Type 0
  HasNewest v newest =
      (m : Text) × (lookup (get_tag_major_version v) newest ≡ some m)
      × Fits (get_tag_major_version v) m
      × (replaces semver v (some m) ≡ false)

module _ (semver : SemverPackage) (order : IsOrder semver.compare) where
  normal : Text → Text
  normal v = elim (ensure_semver_valid semver v) [ ok w ↦ w | err e ↦ v ]

  module _ (rancher : Text) (infos : List (Text × K8sVersionInfo)) (all : List Text) where
    abbrev AllFit : List (Text × Text) → Type 0
    AllFit newest =
        (major m : Text) → lookup major newest ≡ some m → Fits semver rancher infos all major m
