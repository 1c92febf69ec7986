-- ===== src/Hangar/Mirrorer/Validation.antt =====
-- pkg/hangar/mirrorer.go: what the validation compares.
use mathlib.Core.Option
use mathlib.Core.Path.{fun_ext}
use mathlib.Core.Option.{none-ne-some, some-injective}
use image_tools.Destination.{Destination, exists}
use image_tools.Destination.Images.{allowed_digests, spec_digests, image_by_set-manifest_images}
use image_tools.Destination.Queries.{manifest_images, image_by_set}
use image_tools.Hangar.Archive.Index.{ImageSpec, Image, mark_specs, has_all}
use image_tools.Hangar.Archive.Index.Digests.{digests, has-mark_specs, has_all_iff}
use image_tools.Hangar.Mirrorer.{compare_at, validate_mirror}
use image_tools.Manifest.{ManifestImage}
use image_tools.Media.{
  Mime, absent, docker_list, docker_schema2, docker_schema1, docker_schema1_signed, other, SpecSet,
}
use image_tools.Prelude.{
  ◌≡◌, refl, ap, ◌∙◌, ◌↔◌, Bool, true, false, Option, none, some, List, [], ◌∷◌, map, arith, has,
  has_nil, All, Text,
}
use image_tools.Source.{Source}
use image_tools.Source.Load.{source_image_by_set}

unfoldable pub is_schema1 : Mime → Bool
is_schema1 docker_schema1 = true
is_schema1 docker_schema1_signed = true
is_schema1 mime = false

spec_digests-map : (specs : List ImageSpec) → spec_digests specs ≡ map (λ spec. spec.digest) specs
unfolding spec_digests
spec_digests-map [] = refl
spec_digests-map (spec ∷ specs) = ap (λ l. spec.digest ∷ l) (spec_digests-map specs)

pub some-map :
    {A B : Type 0} (o : Option A) (f : A → B) (b : B)
    → Option.map f o ≡ some b
    → (a : A) × (o ≡ some a) × (f a ≡ b)
some-map none f b h = absurd (none-ne-some b h)
some-map (some a) f b h = (a, refl, some-injective (f a) b h)

pub has-spec_digests :
    (specs : List ImageSpec) (k : Text) → has (mark_specs specs []) k ≡ has (spec_digests specs) k
has-spec_digests specs k = ground (
  arith,
  has-mark_specs specs [] k,
  ap (λ digests. has digests k) (spec_digests-map specs),
  has_nil k,
)

compare_at_general :
    (mime : Mime) (s : Source) (d : Destination) (set : SpecSet) (held image : Image)
    → is_schema1 mime ≡ false
    → image_by_set d set ≡ some held
    → source_image_by_set s set ≡ some image
    → compare_at mime s d set ≡ some (has_all (mark_specs held.images []) image.images)
unfolding compare_at is_schema1 Option.bind
compare_at_general docker_schema1 s d set held image h hd hs = ground arith
compare_at_general docker_schema1_signed s d set held image h hd hs = ground arith
compare_at_general absent s d set held image h hd hs = rw (hd, hs)
compare_at_general docker_list s d set held image h hd hs = rw (hd, hs)
compare_at_general docker_schema2 s d set held image h hd hs = rw (hd, hs)
compare_at_general Mime.oci_index s d set held image h hd hs = rw (hd, hs)
compare_at_general Mime.oci_manifest s d set held image h hd hs = rw (hd, hs)
compare_at_general (other t) s d set held image h hd hs = rw (hd, hs)

pub held_images :
    (d : Destination) (set : SpecSet) (images : List ManifestImage)
    → manifest_images d ≡ some images
    → (held : Image) × (image_by_set d set ≡ some held)
      × (spec_digests held.images ≡ allowed_digests set images)
held_images d set images h =
    some-map (image_by_set d set) (λ image. spec_digests image.images) (allowed_digests set images)
      (image_by_set-manifest_images d set ∙ ap (Option.map (allowed_digests set)) h)

pub yes_iff : (b : Bool) (P : Type 0) → (b ≡ true) ↔ P → (some b ≡ some true) ↔ P
yes_iff b P (to, from) = (λ h. to (some-injective b true h), λ p. ap some (from p))

-- The validation of a mirrored image whose source is not of schema 1, on a destination that exists and
-- lists its images: it answers yes exactly when every image of the source for the sets is among the
-- images of the destination whose architecture and system the sets allow.
pub validate_mirror_iff :
    (s : Source) (d : Destination) (set : SpecSet) (images : List ManifestImage) (image : Image)
    → is_schema1 s.mime ≡ false
    → exists d ≡ true
    → manifest_images d ≡ some images
    → source_image_by_set s set ≡ some image
    → (validate_mirror s d set ≡ some true)
      ↔ All (λ spec. has (allowed_digests set images) spec.digest ≡ true) image.images
unfolding validate_mirror
validate_mirror_iff s d set images image hm he hd hs =
    let (held, eh, digests) = held_images d set images hd in
    let same : has (mark_specs held.images []) ≡ has (allowed_digests set images) =
      fun_ext (λ k. has-spec_digests held.images k ∙ ap (λ l. has l k) digests) in
    rw (he, compare_at_general s.mime s d set held image hm eh hs)
      (yes_iff (has_all (mark_specs held.images []) image.images) _
        (rw same at (has_all_iff (mark_specs held.images []) image.images)))
