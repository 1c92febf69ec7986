-- ===== src/Rancher/ListGenerator/Sources.antt =====
-- pkg/rancher/listgenerator/generator.go: where the generated images come from.
use image_tools.Prelude.{
  ℕ, ◌≡◌, refl, Bool, not, ◌&&◌, ◌||◌, Option, List, [], ◌∷◌, arith, has, ok, Text, codes, ◌==◌,
  is_empty,
}
use image_tools.Rancher.KdmImages.{k3s, rke2}
use image_tools.Rancher.KdmImages.Release.{release_images}
use image_tools.Rancher.KdmImages.System.{RkePackage, SystemImages, system_images}
use image_tools.Rancher.KdmImages.Upgrade.{upgrade_images}
use image_tools.Rancher.ListGenerator.{Generator}
use image_tools.Rancher.ListGenerator.Kdm.{
  KdmData, label_images, upgrade_of, system_of, rke2_upgrade, generate_from_kdm_data,
}
use image_tools.Utils.ImageSet.{
  ImageSet, add_entry, merge_sources, has_source, has_source-add_entry, has_source-merge,
}
use image_tools.Utils.Semver.{SemverPackage}

pub has_source-label_images :
    (label : Text) (images : List Text) (set : ImageSet) (image s : Text)
    → has_source (label_images label images set) image s
      ≡ ((has images image && label == s) || has_source set image s)
unfolding label_images has
has_source-label_images label [] set image s = refl
has_source-label_images label (i ∷ images) set image s = ground (
  arith,
  has_source-label_images label images (add_entry i (label ∷ []) set) image s,
  has_source-add_entry i (label ∷ []) set image s,
)

-- What the KDM data gives, from the results of its parts.
unfoldable pub kdm_source :
    {Images Options : Type 0}
    → List Text
    → List Text
    → SystemImages Images Options
    → List Text
    → List Text
    → Text
    → Text
    → Bool
unfolding has has_source ◌==◌
kdm_source k3s_release rke2_release of_rke k3s_upgrade rke2_all image s =
    (has rke2_all image && codes "rke2All" == s)
    || (has k3s_upgrade image && codes "k3sUpgrade" == s)
    || (not (is_empty image)
        && (has_source of_rke.windows_image_set image s
            || has_source of_rke.linux_image_set image s))
    || (has rke2_release image && codes "[rke2-release(rancher)]" == s)
    || (has k3s_release image && codes "[k3s-release(rancher)]" == s)

six_parts :
    (a b n c d e f g : Bool)
    → (a || (b || ((n && c) || ((n && d) || (e || (f || g))))))
      ≡ ((a || b || (n && (c || d)) || e || f) || g)
six_parts a b n c d e f g = ground arith

-- When all parts of the KDM data are read, the images of all parts are added to the Linux images,
-- those of the Windows system images too, each with its label; nothing else is added or lost, and
-- the Windows images stay as they are.
pub generate_from_kdm_data-sources :
    {Images Options : Type 0} (semver : SemverPackage) (rke : RkePackage Images)
    (get : Text → Option (ℕ × List Text)) (d : KdmData Images Options) (g : Generator)
    (k3s_release rke2_release : List Text) (of_rke : SystemImages Images Options)
    (k3s_upgrade rke2_all : List Text)
    → release_images (record { source = k3s; kdm_data = d.k3s_data }) ≡ ok k3s_release
    → release_images (record { source = rke2; kdm_data = d.rke2_data }) ≡ ok rke2_release
    → system_images rke semver (system_of semver rke get d g.rancher_version) ≡ ok of_rke
    → upgrade_images get semver (upgrade_of g k3s d.k3s_data) ≡ ok k3s_upgrade
    → rke2_upgrade semver rke get g d ≡ ok rke2_all
    → (g' : Generator) × (generate_from_kdm_data semver rke get d g ≡ ok g')
      × (g'.generated_windows_images ≡ g.generated_windows_images)
      × ((image s : Text)
          → has_source g'.generated_linux_images image s ≡ (
              kdm_source k3s_release rke2_release of_rke k3s_upgrade rke2_all image s
              || has_source g.generated_linux_images image s))
unfolding generate_from_kdm_data kdm_source
generate_from_kdm_data-sources semver rke get d g k3s_release rke2_release of_rke k3s_upgrade
      rke2_all ea eb ec ed ee =
    let m₁ = label_images (codes "[k3s-release(rancher)]") k3s_release g.generated_linux_images in
    let m₂ = label_images (codes "[rke2-release(rancher)]") rke2_release m₁ in
    let m₃ = merge_sources of_rke.linux_image_set m₂ in
    let m₄ = merge_sources of_rke.windows_image_set m₃ in
    let m₅ = label_images (codes "k3sUpgrade") k3s_upgrade m₄ in
    (
      record g { generated_linux_images = label_images (codes "rke2All") rke2_all m₅ },
      rw (ea, eb, ec, ed, ee),
      refl,
      λ image s.
          rw
            (
              has_source-label_images (codes "rke2All") rke2_all m₅ image s,
              has_source-label_images (codes "k3sUpgrade") k3s_upgrade m₄ image s,
              has_source-merge of_rke.windows_image_set m₃ image s,
              has_source-merge of_rke.linux_image_set m₂ image s,
              has_source-label_images (codes "[rke2-release(rancher)]") rke2_release m₁ image s,
              has_source-label_images (codes "[k3s-release(rancher)]") k3s_release
                  g.generated_linux_images image s,
            )
            (six_parts _ _ (not (is_empty image)) _ _ _ _ _),
    )
