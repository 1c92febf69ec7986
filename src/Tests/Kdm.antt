-- ===== src/Tests/Kdm.antt =====
-- KDM data of two releases and two versions of Kubernetes.
use Prim.Native.Nat.{Ordering, lt, gt, eq}
use image_tools.Prelude.{
  ℕ, ◌≡◌, refl, inl, inr, not, ◌&&◌, Option, some, List, [], ◌∷◌, if◌then◌else◌, Bool-cases, has,
  ok, Text, codes, ◌==◌,
}
use image_tools.Rancher.KdmImages.{k3s, releases_of}
use image_tools.Rancher.KdmImages.Sorting.{text_less, sort_strings}
use image_tools.Rancher.KdmImages.Sorting.Laws.{IsSorted, IsKeySet}
use image_tools.Rancher.KdmImages.System.{K8sVersionInfo, max_versions}
use image_tools.Rancher.KdmImages.Upgrade.{
  UpgradeImages, greater, compatible_releases, upgrade_images,
}
use image_tools.Rancher.KdmImages.Upgrade.Listed.{offers, upgrade_images-offers}
use image_tools.Rancher.Values.{
  Value, str, arr, obj, Items, nil, cons, Fields, end, field, get_field,
}
use image_tools.Utils.Semver.{SemverPackage}

abbrev by_bytes : Text → Text → Ordering
by_bytes a b = if text_less a b then lt else if text_less b a then gt else eq

abbrev pub versions : SemverPackage
versions = record {
  is_valid = λ v. text_less (codes "v") v;
  compare = by_bytes;
  major = λ v. v;
  major_minor = λ v. v;
}

unfoldable above_iff :
    (a b : Text) → greater (by_bytes a b) ≡ (not (text_less a b) && text_less b a)
above_iff a b = elim (Bool-cases (text_less a b)) [
  | inl e ↦ rw e
  | inr e ↦ elim (Bool-cases (text_less b a)) [ inl f ↦ rw (e, f) | inr f ↦ rw (e, f) ]
]

abbrev info_until : Text → K8sVersionInfo
info_until version = record {
  deprecate_rancher_version = [];
  min_rancher_version = [];
  max_rancher_version = version;
}

abbrev listed : List Text
listed = codes "v1.2.1" ∷ codes "v1.2.3" ∷ codes "v1.1.5" ∷ []

abbrev infos : List (Text × K8sVersionInfo)
infos = (codes "v1.1", info_until (codes "v2.6")) ∷ []

newest_test :
    max_versions versions (codes "v2.7") infos listed [] ≡ (codes "v1.2", codes "v1.2.3") ∷ []
unfolding max_versions ◌==◌ text_less
newest_test = refl

abbrev release_map : Text → Value
release_map version = obj (
    field (some (codes "version")) (str version) (
      field (some (codes "serverArgs")) (obj end) (
        field (some (codes "maxChannelServerVersion")) (str (codes "v2.8"))
          (field (some (codes "minChannelServerVersion")) (str (codes "v2.5")) end))))

abbrev released : Items
released = cons (release_map (codes "v1.3+1")) (cons (release_map (codes "v1.2+1")) nil)

abbrev pub kdm_fields : Option Fields
kdm_fields = some (field (some (codes "releases")) (arr released) end)

abbrev upgrade : UpgradeImages
upgrade = record {
  source = k3s;
  rancher_version = codes "v2.7";
  min_kube_version = [];
  kdm_data = kdm_fields;
}

abbrev pub answer : Text → Option (ℕ × List Text)
answer url = some (200, codes "docker.io/rancher/b" ∷ [] ∷ codes "rancher/a" ∷ [])

pub upgrade_test :
    upgrade_images answer versions upgrade
    ≡ ok (
        codes "rancher/a"
        ∷ codes "rancher/b"
        ∷ codes "rancher/k3s-upgrade:v1.2-1"
        ∷ codes "rancher/k3s-upgrade:v1.3-1"
        ∷ codes "rancher/system-agent-installer-k3s:v1.2-1"
        ∷ codes "rancher/system-agent-installer-k3s:v1.3-1"
        ∷ [])
unfolding upgrade_images
upgrade_test = refl

releases_found : releases_of kdm_fields ≡ ok released
unfolding get_field ◌==◌
releases_found = refl

upgrade_images-offers_example :
    (l : List Text) × (upgrade_images answer versions upgrade ≡ ok l)
    × IsSorted l
    × ((image : Text)
        → has l image ≡ offers answer k3s (compatible_releases versions upgrade released) image)
    × ((all : List Text)
        → IsKeySet all
        → ((image : Text)
            → has all image
              ≡ offers answer k3s (compatible_releases versions upgrade released) image)
        → sort_strings all ≡ l)
upgrade_images-offers_example =
    upgrade_images-offers answer versions upgrade released (inl refl) releases_found
