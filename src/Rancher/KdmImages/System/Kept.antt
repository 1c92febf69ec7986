-- ===== src/Rancher/KdmImages/System/Kept.antt =====
-- pkg/rancher/kdmimages/system.go: the sets of the system images.
use mathlib.Core.Option.{none-ne-some}
use image_tools.Prelude.{
  ◌≡◌, refl, ap, ◌↔◌, ◌⊎◌, inl, inr, Bool, true, false, not, ◌&&◌, ◌||◌, some, List, [], ◌∷◌, arith,
  Bool-cases, has, lookup, ok, Text, codes, ◌==◌, is_empty, ==_refl, ==_eq,
}
use image_tools.Rancher.KdmImages.System.{
  fetch_images, K8sVersionInfo, RkePackage, VersionInfo, SystemImages, discard_image,
  fetch_images_from_collection, add_all_images, delete_discarded, max_versions, keys, collect,
  no_info, system_images,
}
use image_tools.Rancher.KdmImages.System.Collected.{IsObjectOf, IsNamed, IsValueText, IsNamed-iff}
use image_tools.Rancher.Values.{Fields}
use image_tools.Utils.ImageSet.{ImageSet, add_source_to_image, has_source, has_source-add}
use image_tools.Utils.Semver.{SemverPackage}

has_source-delete_discarded :
    (set : ImageSet) (image s : Text)
    → has_source (delete_discarded set) image s
      ≡ (not (discard_image image) && has_source set image s)
unfolding delete_discarded has_source
has_source-delete_discarded [] image s = ground arith
has_source-delete_discarded ((i, sources) ∷ set) image s = elim (Bool-cases (i == image)) [
  | inl e ↦ ground (arith, ap discard_image (==_eq e), has_source-delete_discarded set image s)
  | inr e ↦ ground (arith, has_source-delete_discarded set image s)
]

has_source-add_all_images :
    (source : Text) (images : List Text) (set : ImageSet) (image s : Text)
    → has_source (add_all_images source images set) image s
      ≡ ((not (is_empty image) && has images image && source == s) || has_source set image s)
unfolding add_all_images has
has_source-add_all_images source [] set image s = ground arith
has_source-add_all_images source (i ∷ images) set image s = ground (
  arith,
  has_source-add_all_images source images (add_source_to_image set i (source ∷ [])) image s,
  has_source-add set i (source ∷ []) image s,
)

abbrev kept_set : List Text → ImageSet → ImageSet
kept_set images set = delete_discarded (add_all_images (codes "system") images set)

has_source-kept_set :
    (images : List Text) (set : ImageSet) (image s : Text)
    → has_source (kept_set images set) image s ≡ (
        not (discard_image image)
        && ((not (is_empty image) && has images image && codes "system" == s)
            || has_source set image s))
has_source-kept_set images set image s = rw (
  has_source-delete_discarded (add_all_images (codes "system") images set) image s,
  has_source-add_all_images (codes "system") images set image s,
)

-- What `fetchImages` adds, for the map of an info: the texts of its values.
fetch_images-texts :
    {Images Options : Type 0} (rke : RkePackage Images) (fields_of : Images → Fields)
    (info : VersionInfo Images Options) (set : ImageSet) (m : List (Text × Images))
    → ((m : List (Text × Images))
        → (fields : Fields) × (rke.to_obj m ≡ some fields) × IsObjectOf fields_of m fields)
    → info.rke_system_images ≡ m
    → (images : List Text) × (fetch_images rke info set
        ≡ ok (add_all_images (codes "system") images set))
      × ((image : Text) → (has images image ≡ true) ↔ IsValueText fields_of m image)
unfolding fetch_images add_all_images lookup has
fetch_images-texts rke fields_of info set [] json e = (
  [],
  rw e,
  λ image. (λ h. absurd (ground arith), λ (v, x, nothing, h). absurd (none-ne-some x nothing)),
)
fetch_images-texts rke fields_of info set (x ∷ m) json e =
    let (fields, made, texts) = json (x ∷ m) in
    (fetch_images_from_collection fields, rw (fetch_images, e, made), texts)

kept_iff :
    (d e h q before : Bool) (N Q : Type 0)
    → (h ≡ true) ↔ N
    → (q ≡ true) ↔ Q
    → ((not d && ((not e && h && q) || before)) ≡ true)
      ↔ ((d ≡ false) × (((e ≡ false) × N × Q) ⊎ (before ≡ true)))
kept_iff d e h q before N Q (to_n, from_n) (to_q, from_q) = (
  λ x. elim (Bool-cases before) [
    | inl b ↦ (ground arith, inr b)
    | inr b ↦ (ground arith, inl (ground arith, to_n (ground arith), to_q (ground arith)))
  ],
  λ x. elim x.1 [
    | inl (named, n, source) ↦ ground (arith, from_n n, from_q source, x.0)
    | inr b ↦ ground (arith, x.0)
  ],
)

then_iff : {A B C : Type 0} → A ↔ B → B ↔ C → A ↔ C
then_iff (f, g) (h, k) = (λ a. h (f a), λ c. g (k c))

-- The image is of a project that is kept, and had the source before, or is named by a version of the
-- newest ones with the source "system".
abbrev pub IsSystemImage : (Text → Type 0) → ImageSet → Text → Text → Type 0
IsSystemImage named set image source =
    (discard_image image ≡ false)
    × (((is_empty image ≡ false) × named image × (codes "system" ≡ source))
        ⊎ (has_source set image source ≡ true))

kept_set-IsSystemImage :
    (images : List Text) (set : ImageSet) (named : Text → Type 0)
    → ((image : Text) → (has images image ≡ true) ↔ named image)
    → (image source : Text)
    → (has_source (kept_set images set) image source ≡ true) ↔ IsSystemImage named set image source
kept_set-IsSystemImage images set named h image source =
    rw (has_source-kept_set images set image source) (
      kept_iff (discard_image image) (is_empty image) (has images image) (codes "system" == source)
        (has_source set image source) (named image) (codes "system" ≡ source) (h image)
        (==_eq, λ e. rw e (==_refl source)))

-- When no map is nil and the Rancher version is not empty, and the JSON object of a map of images has
-- the texts of the objects of its values, the sets are made: an image has a source when it is of a
-- project that is kept, and either had the source before, or the source is "system" and the image is
-- named by the images that the map has for some version, reduced for the system. The version is one
-- that was chosen as the newest of its major version, and the major version has options for the
-- system.
pub system_images-kept :
    {Images Options : Type 0} (rke : RkePackage Images) (fields_of : Images → Fields)
    (semver : SemverPackage) (s : SystemImages Images Options) (all : List (Text × Images))
    (linux_options windows_options : List (Text × Options)) (infos : List (Text × K8sVersionInfo))
    → ((m : List (Text × Images))
        → (fields : Fields) × (rke.to_obj m ≡ some fields) × IsObjectOf fields_of m fields)
    → s.rke_sys_images ≡ some all
    → s.linux_svc_options ≡ some linux_options
    → s.windows_svc_options ≡ some windows_options
    → s.rancher_versions ≡ some infos
    → is_empty s.rancher_version ≡ false
    → let newest = max_versions semver s.rancher_version infos (keys all) [] in
      (t : SystemImages Images Options) × (system_images rke semver s ≡ ok t)
      × ((image source : Text)
          → ((has_source t.linux_image_set image source ≡ true)
              ↔ IsSystemImage
                  (IsNamed fields_of rke.linux_images all linux_options newest)
                  s.linux_image_set
                  image
                  source)
            × ((has_source t.windows_image_set image source ≡ true)
                ↔ IsSystemImage
                    (IsNamed fields_of rke.windows_images all windows_options newest)
                    s.windows_image_set
                    image
                    source))
unfolding system_images
system_images-kept rke fields_of semver s all linux_options windows_options infos json ea el ew ei
      er =
    let newest = max_versions semver s.rancher_version infos (keys all) [] in
    let (of_linux, el', named_l) =
      fetch_images-texts rke fields_of (collect rke.linux_images all linux_options newest no_info)
        s.linux_image_set _ json refl in
    let (of_windows, ew', named_w) =
      fetch_images-texts rke fields_of
        (collect rke.windows_images all windows_options newest no_info) s.windows_image_set _ json
        refl in
    (
      record s {
        linux_image_set = kept_set of_linux s.linux_image_set;
        windows_image_set = kept_set of_windows s.windows_image_set;
      },
      rw (ea, el, ew, ei, er, el', ew'),
      λ image source. (
        kept_set-IsSystemImage of_linux s.linux_image_set _
            (λ k.
              then_iff (named_l k)
                (IsNamed-iff fields_of rke.linux_images all linux_options newest k))
            image source,
        kept_set-IsSystemImage of_windows s.windows_image_set _
            (λ k.
              then_iff (named_w k)
                (IsNamed-iff fields_of rke.windows_images all windows_options newest k))
            image source,
      ),
    )
