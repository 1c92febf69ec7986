-- ===== src/Hangar/Loader/Validation.antt =====
-- pkg/hangar/loader.go: `validateWorker`.
use mathlib.Core.Option
use mathlib.Core.Path.{fun_ext}
use image_tools.Destination.{Destination, exists}
use image_tools.Destination.Images.{allowed_digests, spec_digests}
use image_tools.Destination.Queries.{manifest_images, image_by_set}
use image_tools.Hangar.Archive.Index.{ImageSpec, Image, mark_specs, has_all}
use image_tools.Hangar.Archive.Index.Digests.{digests, has_all_iff}
use image_tools.Hangar.Loader.{LoaderOptions, load_destination}
use image_tools.Hangar.Loader.Worker.{excludes}
use image_tools.Hangar.Mirrorer.Validation.{has-spec_digests, held_images, yes_iff}
use image_tools.Manifest.{ManifestImage}
use image_tools.Media.{SpecSet, Inspector}
use image_tools.Prelude.{
  ◌≡◌, refl, ap, ◌∙◌, ◌↔◌, inl, inr, Bool, true, false, not, ◌||◌, Option, some, List, [], ◌∷◌,
  arith, if◌then◌else◌, Bool-cases, has, select, All, Result, ok, err, Text,
}
use image_tools.Types.{ImageError}

-- The images of an archived image that the systems and architectures admit.
unfoldable pub admitted_specs : SpecSet → List ImageSpec → List ImageSpec
unfolding select has
admitted_specs set specs =
    select (λ img. not (excludes set.arch img.arch || excludes set.os img.os)) specs

-- The questions to the destination, for the images that are asked for.
unfoldable pub validate_specs :
    SpecSet → Result ImageError Destination → List ImageSpec → Option Bool
unfolding exists image_by_set mark_specs has_all
validate_specs set r [] = some true
validate_specs set (err e) (spec ∷ specs) = some false
validate_specs set (ok d) (spec ∷ specs) =
    if exists d
    then Option.map (λ held. has_all (mark_specs held.images []) (spec ∷ specs))
        (image_by_set d set)
    else some false

-- Whether an archived image passes; `none` is a panic of `ImageBySet`.
unfoldable pub validate_loaded : Inspector → SpecSet → LoaderOptions → Image → Option Bool
unfolding validate_specs admitted_specs load_destination
validate_loaded registry set o image =
    validate_specs set (load_destination registry o image) (admitted_specs set image.images)

held_iff :
    (set : SpecSet) (held : List ImageSpec) (images : List ManifestImage) (specs : List ImageSpec)
    → spec_digests held ≡ allowed_digests set images
    → (has_all (mark_specs held []) specs ≡ true)
      ↔ All (λ spec. has (allowed_digests set images) spec.digest ≡ true) specs
held_iff set held images specs digests =
    let same : has (mark_specs held []) ≡ has (allowed_digests set images) =
      fun_ext (λ k. has-spec_digests held k ∙ ap (λ l. has l k) digests) in
    rw same at (has_all_iff (mark_specs held []) specs)

validate_specs_iff :
    (set : SpecSet) (d : Destination) (images : List ManifestImage) (specs : List ImageSpec)
    → exists d ≡ true
    → manifest_images d ≡ some images
    → (validate_specs set (ok d) specs ≡ some true)
      ↔ All (λ spec. has (allowed_digests set images) spec.digest ≡ true) specs
unfolding validate_specs
validate_specs_iff set d images [] he hd = (λ e. tt, λ h. refl)
validate_specs_iff set d images (spec ∷ specs) he hd =
    let (held, eh, digests) = held_images d set images hd in
    rw (he, eh)
      (yes_iff (has_all (mark_specs held.images []) (spec ∷ specs)) _
        (held_iff set held.images images (spec ∷ specs) digests))

-- The digest of an image stands in a list, if the sets admit its system and its architecture.
abbrev pub IsCovered : SpecSet → List Text → ImageSpec → Type 0
IsCovered set held img =
    excludes set.arch img.arch ≡ false → excludes set.os img.os ≡ false → has held img.digest ≡ true

IsCovered-iff :
    (set : SpecSet) (held : List Text) (specs : List ImageSpec)
    → All (λ spec. has held spec.digest ≡ true) (admitted_specs set specs)
      ↔ All (IsCovered set held) specs
unfolding admitted_specs select
IsCovered-iff set held [] = (λ h. tt, λ h. tt)
IsCovered-iff set held (img ∷ specs) =
    let (to, from) = IsCovered-iff set held specs in
    elim (Bool-cases (excludes set.arch img.arch || excludes set.os img.os)) [
      | inl out ↦ rw out ((λ h. (λ a o. ground arith, to h)), (λ h. from h.1))
      | inr in_sets ↦
          rw in_sets
            ((λ h. (λ a o. h.0, to h.1)), (λ h. (h.0 (ground arith) (ground arith), from h.1)))
    ]

-- The validation of an archived image on a destination that is read without an error, exists and
-- lists its images: it passes exactly when every image of it, if the sets admit its system and its
-- architecture, is among the images of the destination that the sets allow.
pub validate_loaded_iff :
    (registry : Inspector) (set : SpecSet) (o : LoaderOptions) (image : Image) (d : Destination)
    (images : List ManifestImage)
    → load_destination registry o image ≡ ok d
    → exists d ≡ true
    → manifest_images d ≡ some images
    → (validate_loaded registry set o image ≡ some true)
      ↔ All (IsCovered set (allowed_digests set images)) image.images
unfolding validate_loaded
validate_loaded_iff registry set o image d images e he hd =
    let (to, from) = validate_specs_iff set d images (admitted_specs set image.images) he hd in
    let (down, up) = IsCovered-iff set (allowed_digests set images) image.images in
    rw e ((λ h. down (to h)), (λ h. from (up h)))
