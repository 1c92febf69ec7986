-- ===== src/Tests/Systems.antt =====
-- The system images, and the generator on a small release.
use mathlib.Core.Option.{some-injective}
use image_tools.Prelude.{
  ◌≡◌, refl, sym, ap, ◌∙◌, ◌↔◌, inl, inr, true, false, ◌||◌, none, some, List, [], ◌∷◌, ◌++◌, arith,
  Bool-cases, Option-cases, has, lookup, is_missing, ok, Text, codes, ◌==◌, contains_any, non_empty,
  ==_eq,
}
use image_tools.Rancher.KdmImages.{k3s, rke2}
use image_tools.Rancher.KdmImages.Release.{release_images}
use image_tools.Rancher.KdmImages.Sorting.{text_less}
use image_tools.Rancher.KdmImages.System.{
  RkePackage, SystemImages, fetch_images_from_collection, max_versions, keys, system_images,
}
use image_tools.Rancher.KdmImages.System.Collected.{IsObjectOf, IsNamed}
use image_tools.Rancher.KdmImages.System.Kept.{IsSystemImage, system_images-kept}
use image_tools.Rancher.ListGenerator.{Generator}
use image_tools.Rancher.ListGenerator.Kdm.{KdmData, rke2_upgrade, generate_from_kdm_data}
use image_tools.Rancher.ListGenerator.Sources.{kdm_source, generate_from_kdm_data-sources}
use image_tools.Rancher.Values.{str, obj, Fields, end, field}
use image_tools.Tests.Kdm.{versions, kdm_fields, answer, upgrade_test}
use image_tools.Utils.ImageName.{is_registry}
use image_tools.Utils.ImageSet.{has_source}

abbrev name_fields : Text → Fields
name_fields image = field (some (codes "name")) (str image) end

-- The fields for the keys of a list, with the values that a map has for them.
unfoldable object_of : List (Text × Text) → List (Text × Text) → Fields
unfolding lookup
object_of all [] = end
object_of all ((k, x) ∷ m) =
    let rest = object_of all m in
    elim (lookup k all) [ none ↦ rest | some image ↦ field (some k) (obj (name_fields image)) rest ]

-- The images of a version are the text of one.
abbrev one_image : RkePackage Text
one_image = record {
  windows_images = λ image. image ++ codes "-windows";
  linux_images = λ image. image;
  to_obj = λ m. some (object_of m m);
}

abbrev two_images : List (Text × Text)
two_images = (codes "v1.2.1", codes "rancher/old") ∷ (codes "v1.2.3", codes "rancher/new") ∷ []

abbrev options : List (Text × Text)
options = (codes "v1.2", []) ∷ []

abbrev of_systems : SystemImages Text Text
of_systems = record {
  rancher_version = codes "v2.7";
  rke_sys_images = some two_images;
  linux_svc_options = some options;
  windows_svc_options = some options;
  rancher_versions = some [];
  linux_image_set = [];
  windows_image_set = [];
}

abbrev with_images : SystemImages Text Text
with_images = record of_systems {
  linux_image_set = (codes "rancher/new", codes "system" ∷ []) ∷ [];
  windows_image_set = (codes "rancher/new-windows", codes "system" ∷ []) ∷ [];
}

system_test : system_images one_image versions of_systems ≡ ok with_images
unfolding system_images object_of ◌==◌ text_less non_empty is_registry contains_any
system_test = refl

texts_from :
    (all m : List (Text × Text)) (image : Text)
    → has (fetch_images_from_collection (object_of all m)) image ≡ true
    → (version : Text) × (x : Text) × (lookup version all ≡ some x)
      × (has (fetch_images_from_collection (name_fields x)) image ≡ true)
unfolding object_of fetch_images_from_collection has
texts_from all [] image h = absurd (ground arith)
texts_from all ((k, y) ∷ m) image h = elim (Option-cases (lookup k all)) [
  | inl e ↦ texts_from all m image (rw (e, object_of) at h)
  | inr (x, e) ↦ elim (Bool-cases (x == image)) [
    | inl same ↦ (k, x, e, rw same)
    | inr differs ↦ texts_from all m image (rw (differs) at (rw (object_of, e) at h))
  ]
]

texts_to :
    (all m : List (Text × Text)) (image version x : Text)
    → is_missing (lookup version m) ≡ false
    → lookup version all ≡ some x
    → has (fetch_images_from_collection (name_fields x)) image ≡ true
    → has (fetch_images_from_collection (object_of all m)) image ≡ true
unfolding object_of fetch_images_from_collection has is_missing lookup
texts_to all [] image version x there e h = absurd (ground arith)
texts_to all ((k, y) ∷ m) image version x there e h = elim (Option-cases (lookup k all)) [
  | inl missing ↦ elim (Bool-cases (k == version)) [
    | inl same ↦ absurd (ground (arith, ap (λ v. lookup v all) (==_eq same)))
    | inr differs ↦
        rw (object_of, missing) (texts_to all m image version x (rw (differs) at there) e h)
  ]
  | inr (z, found) ↦
      rw (object_of, found)
        (elim (Bool-cases (k == version)) [
          | inl same ↦
              let zx : z ≡ x =
                some-injective z x (sym found ∙ ap (λ v. lookup v all) (==_eq same) ∙ e) in
              ground (arith, ap (λ w. w == image) zx)
          | inr differs ↦
              let rest = texts_to all m image version x (rw (differs) at there) e h in ground arith
        ])
]

one_image-IsObjectOf :
    (m : List (Text × Text))
    → (fields : Fields) × (one_image.to_obj m ≡ some fields) × IsObjectOf name_fields m fields
unfolding is_missing
one_image-IsObjectOf m = (
  object_of m m,
  refl,
  λ image. (texts_from m m image, λ (version, x, e, h). texts_to m m image version x (rw e) e h),
)

system_images-kept_example :
    (t : SystemImages Text Text) × (system_images one_image versions of_systems ≡ ok t)
    × ((image source : Text)
        → ((has_source t.linux_image_set image source ≡ true)
            ↔ IsSystemImage
                (IsNamed name_fields one_image.linux_images two_images options
                  (max_versions versions (codes "v2.7") [] (keys two_images) []))
                []
                image
                source)
          × ((has_source t.windows_image_set image source ≡ true)
              ↔ IsSystemImage
                  (IsNamed name_fields one_image.windows_images two_images options
                    (max_versions versions (codes "v2.7") [] (keys two_images) []))
                  []
                  image
                  source))
system_images-kept_example =
    system_images-kept one_image name_fields versions of_systems two_images options options []
      one_image-IsObjectOf refl refl refl refl refl

abbrev kdm : KdmData Text Text
kdm = record {
  k3s_data = kdm_fields;
  rke2_data = kdm_fields;
  k8s_version_rke_system_images = some two_images;
  k8s_version_service_options = some options;
  k8s_version_windows_service_options = some options;
  k8s_version_info = some [];
}

abbrev generator : Generator
generator = record {
  rancher_version = codes "v2.7";
  min_kube_version = [];
  charts_paths = none;
  chart_urls = none;
  kdm_path = codes "data.json";
  kdm_url = [];
  generated_linux_images = [];
  generated_windows_images = [];
}

abbrev installers : Text → List Text
installers source =
    (codes "rancher/system-agent-installer-" ++ (source ++ codes ":v1.3-1"))
    ∷ (codes "rancher/system-agent-installer-" ++ (source ++ codes ":v1.2-1"))
    ∷ []

release_k3s : release_images (record { source = k3s; kdm_data = kdm_fields }) ≡ ok (installers k3s)
unfolding release_images is_missing
release_k3s = refl

release_rke2 :
    release_images (record { source = rke2; kdm_data = kdm_fields }) ≡ ok (installers rke2)
unfolding release_images is_missing
release_rke2 = refl

abbrev upgraded : Text → List Text
upgraded source =
    codes "rancher/a"
    ∷ codes "rancher/b"
    ∷ (codes "rancher/" ++ (source ++ codes "-upgrade:v1.2-1"))
    ∷ (codes "rancher/" ++ (source ++ codes "-upgrade:v1.3-1"))
    ∷ (codes "rancher/system-agent-installer-" ++ (source ++ codes ":v1.2-1"))
    ∷ (codes "rancher/system-agent-installer-" ++ (source ++ codes ":v1.3-1"))
    ∷ []

second_upgrade_test : rke2_upgrade versions one_image answer generator kdm ≡ ok (upgraded rke2)
unfolding rke2_upgrade
second_upgrade_test = refl

generate_from_kdm_data-sources_example :
    (g' : Generator) × (generate_from_kdm_data versions one_image answer kdm generator ≡ ok g')
    × (g'.generated_windows_images ≡ [])
    × ((image s : Text)
        → has_source g'.generated_linux_images image s ≡ (
            kdm_source
              (installers k3s)
              (installers rke2)
              with_images
              (upgraded k3s)
              (upgraded rke2)
              image
              s
            || has_source [] image s))
generate_from_kdm_data-sources_example =
    generate_from_kdm_data-sources versions one_image answer kdm generator (installers k3s)
      (installers rke2) with_images (upgraded k3s) (upgraded rke2) release_k3s release_rke2
      system_test upgrade_test second_upgrade_test
