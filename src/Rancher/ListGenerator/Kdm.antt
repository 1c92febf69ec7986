-- ===== src/Rancher/ListGenerator/Kdm.antt =====
-- pkg/rancher/listgenerator/generator.go: the images that the KDM data names.
-- What the program reads of the KDM data.
use image_tools.Prelude.{ℕ, Option, List, [], ◌∷◌, if◌then◌else◌, Result, ok, ◌>>=◌, Text, codes}
use image_tools.Rancher.KdmImages.{KdmError, k3s, rke2}
use image_tools.Rancher.KdmImages.Release.{release_images}
use image_tools.Rancher.KdmImages.System.{K8sVersionInfo, RkePackage, SystemImages, system_images}
use image_tools.Rancher.KdmImages.Upgrade.{UpgradeImages, upgrade_images}
use image_tools.Rancher.ListGenerator.{Generator, GeneratorError, of_kdm}
use image_tools.Rancher.Values.{Fields}
use image_tools.Utils.ImageSet.{ImageSet, add_entry, merge_sources}
use image_tools.Utils.Semver.{SemverPackage, semver_major_minor_equal}

pub record KdmData (Images Options : Type 0) : Type 0 where
  pub k3s_data : Option Fields
  pub rke2_data : Option Fields
  pub k8s_version_rke_system_images : Option (List (Text × Images))
  pub k8s_version_service_options : Option (List (Text × Options))
  pub k8s_version_windows_service_options : Option (List (Text × Options))
  pub k8s_version_info : Option (List (Text × K8sVersionInfo))

-- The loop that gives each image a source.
unfoldable pub label_images : Text → List Text → ImageSet → ImageSet
unfolding add_entry
label_images label [] set = set
label_images label (image ∷ images) set =
    label_images label images (add_entry image (label ∷ []) set)

abbrev pub add_linux : (ImageSet → ImageSet) → Generator → Generator
add_linux f g = record g { generated_linux_images = f g.generated_linux_images }

abbrev pub upgrade_of : Generator → Text → Option Fields → UpgradeImages
upgrade_of g name data_of = record {
  source = name;
  rancher_version = g.rancher_version;
  min_kube_version = g.min_kube_version;
  kdm_data = data_of;
}

-- `get` answers the lists of the releases.
module _ {Images Options : Type 0} (semver : SemverPackage) (rke : RkePackage Images)
    (get : Text → Option (ℕ × List Text)) where
  abbrev pub system_of : KdmData Images Options → Text → SystemImages Images Options
  system_of d rancher = record {
    rancher_version = rancher;
    rke_sys_images = d.k8s_version_rke_system_images;
    linux_svc_options = d.k8s_version_service_options;
    windows_svc_options = d.k8s_version_windows_service_options;
    rancher_versions = d.k8s_version_info;
    linux_image_set = [];
    windows_image_set = [];
  }

  -- There are no RKE2 images for an upgrade of 2.5.
  unfoldable pub rke2_upgrade : Generator → KdmData Images Options → Result KdmError (List Text)
  unfolding semver_major_minor_equal upgrade_images
  rke2_upgrade g d =
      if semver_major_minor_equal semver g.rancher_version (codes "v2.5")
      then ok []
      else upgrade_images get semver (upgrade_of g rke2 d.rke2_data)

  unfoldable pub generate_from_kdm_data :
      KdmData Images Options → Generator → Result GeneratorError Generator
  unfolding release_images system_images upgrade_images rke2_upgrade label_images merge_sources
  generate_from_kdm_data d g = do
    k3s_release ← of_kdm (release_images (record { source = k3s; kdm_data = d.k3s_data }))
    rke2_release ← of_kdm (release_images (record { source = rke2; kdm_data = d.rke2_data }))
    of_rke ← of_kdm (system_images rke semver (system_of d g.rancher_version))
    k3s_upgrade ← of_kdm (upgrade_images get semver (upgrade_of g k3s d.k3s_data))
    rke2_all ← of_kdm (rke2_upgrade g d)
    ok (
        add_linux
          (λ set. label_images (codes "rke2All") rke2_all (
            label_images (codes "k3sUpgrade") k3s_upgrade (
              merge_sources of_rke.windows_image_set (
                merge_sources of_rke.linux_image_set (
                  label_images (codes "[rke2-release(rancher)]") rke2_release
                    (label_images (codes "[k3s-release(rancher)]") k3s_release set))))))
          g)
