-- ===== src/Destination/Images.antt =====
-- pkg/destination/destination.go: what a destination holds, against its list of images.
use mathlib.Core.Option
use mathlib.Core.Option.{none-ne-some}
use image_tools.Destination.{Destination, store_manifest}
use image_tools.Destination.Queries.{
  lists_digest, index_lists_digest, have_digest_at, have_digest, to_image, list_images,
  index_images, manifest_images_at, manifest_images, allows, no_image, bare_spec, take_image,
  list_by_set, index_by_set, image_by_set_at, image_by_set,
}
use image_tools.Hangar.Archive.Index.{ImageSpec, Image}
use image_tools.Manifest.{ManifestImage, new_image, update_platform, contain_digest}
use image_tools.Media.{
  Mime, absent, docker_list, docker_schema2, docker_schema1, docker_schema1_signed, oci_manifest,
  other, Platform, Descriptor, OciDescriptor, SpecSet, Inspector,
}
use image_tools.Prelude.{
  ℕ, ◌≡◌, refl, ap, ◌∙◌, inl, inr, Bool, false, ◌&&◌, Option, none, some, List, [], ◌∷◌, ◌++◌,
  append-nil, append_assoc, arith, if◌then◌else◌, Bool-cases, Option-cases, is_missing, Text,
  is_empty,
}

-- The manifest is a list or an index that its parser refuses.
unfoldable pub unreadable : Inspector → Text → Mime → Bool
unfolding is_missing
unreadable registry b docker_list = is_missing (registry.parse_list b)
unreadable registry b Mime.oci_index = is_missing (registry.parse_index b)
unreadable registry b mime = false

-- A destination that no manifest is stored in yet takes every manifest, and then the question
-- whether it holds a digest panics exactly when the manifest is a list or an index that does not
-- parse.
pub have_digest-store_manifest :
    (registry : Inspector) (b k : Text) (mime : Mime) (d : Destination)
    → d.schema2_list ≡ none
    → d.oci_index ≡ none
    → is_empty k ≡ false
    → is_missing (have_digest (store_manifest registry b mime d) k) ≡ unreadable registry b mime
unfolding have_digest have_digest_at store_manifest unreadable is_missing
have_digest-store_manifest registry b k docker_list d hl hi hk = ground arith
have_digest-store_manifest registry b k Mime.oci_index d hl hi hk = ground arith
have_digest-store_manifest registry b k absent d hl hi hk = ground arith
have_digest-store_manifest registry b k docker_schema2 d hl hi hk = ground arith
have_digest-store_manifest registry b k docker_schema1 d hl hi hk = ground arith
have_digest-store_manifest registry b k docker_schema1_signed d hl hi hk = ground arith
have_digest-store_manifest registry b k oci_manifest d hl hi hk = ground arith
have_digest-store_manifest registry b k (other t) d hl hi hk = ground arith

Option-map-map :
    {A B C : Type 0} (o : Option A) (f : B → C) (g : A → B) (h : A → C)
    → ((a : A) → h a ≡ f (g a))
    → Option.map h o ≡ Option.map f (Option.map g o)
Option-map-map none f g h e = refl
Option-map-map (some a) f g h e = ap some (e a)

lists_digest-list_images :
    (l : List Descriptor) (k : Text) → contain_digest (list_images l) k ≡ lists_digest l k
unfolding contain_digest list_images lists_digest to_image new_image update_platform
lists_digest-list_images [] k = refl
lists_digest-list_images (m ∷ l) k = rw (lists_digest-list_images l k)

index_lists_digest-index_images :
    (l : List OciDescriptor) (k : Text) (images : List ManifestImage)
    → index_images l ≡ some images
    → contain_digest images k ≡ index_lists_digest l k
unfolding contain_digest index_images index_lists_digest to_image new_image update_platform
index_lists_digest-index_images [] k images h = ground arith
index_lists_digest-index_images (m ∷ l) k images h = elim (Option-cases (index_images l)) [
  | inl e ↦ ground arith
  | inr (rest, e) ↦ ground (arith, index_lists_digest-index_images l k rest e)
]

at_index :
    (o : Option (List OciDescriptor)) (k : Text) (images : List ManifestImage)
    → Option.bind o index_images ≡ some images
    → Option.map (λ l. index_lists_digest l k) o ≡ some (contain_digest images k)
unfolding Option.bind
at_index none k images h = absurd (none-ne-some images h)
at_index (some l) k images h = rw (index_lists_digest-index_images l k images h)

at_mime :
    (mime : Mime) (d : Destination) (k : Text) (images : List ManifestImage)
    → manifest_images_at mime d ≡ some images
    → have_digest_at mime d k ≡ some (contain_digest images k)
unfolding have_digest_at manifest_images_at contain_digest
at_mime docker_list d k images h = elim (Option-cases d.schema2_list) [
  | inl e ↦ ground arith
  | inr (l, e) ↦ ground (arith, lists_digest-list_images l k)
]
at_mime Mime.oci_index d k images h = at_index d.oci_index k images h
at_mime absent d k images h = ground arith
at_mime docker_schema2 d k images h = ground arith
at_mime docker_schema1 d k images h = ground arith
at_mime docker_schema1_signed d k images h = ground arith
at_mime oci_manifest d k images h = ground arith
at_mime (other t) d k images h = ground arith

-- A destination that lists its images holds a digest exactly when one of the images has it.
pub have_digest-manifest_images :
    (d : Destination) (k : Text) (images : List ManifestImage)
    → manifest_images d ≡ some images
    → is_empty k ≡ false
    → have_digest d k ≡ some (contain_digest images k)
unfolding have_digest have_digest_at manifest_images
have_digest-manifest_images d k images h hk = rw hk (at_mime d.mime d k images h)

-- The digests of the images whose architecture and system the sets allow.
unfoldable pub allowed_digests : SpecSet → List ManifestImage → List Text
allowed_digests set [] = []
allowed_digests set (m ∷ l) =
    let rest = allowed_digests set l in
    if allows set.arch m.platform.arch && allows set.os m.platform.os then m.digest ∷ rest else rest

unfoldable pub spec_digests : List ImageSpec → List Text
spec_digests [] = []
spec_digests (s ∷ l) = s.digest ∷ spec_digests l

spec_digests-append :
    (xs : List ImageSpec) (d : Text)
    → spec_digests (xs ++ bare_spec d ∷ []) ≡ spec_digests xs ++ d ∷ []
unfolding spec_digests
spec_digests-append [] d = refl
spec_digests-append (x ∷ xs) d = rw (spec_digests-append xs d)

spec_digests-take_image :
    (set : SpecSet) (d mime : Text) (size : ℕ) (p : Platform) (l : List ManifestImage)
    (image : Image)
    → spec_digests (take_image set p d image).images ++ allowed_digests set l
      ≡ spec_digests image.images ++ allowed_digests set (to_image d mime size p ∷ l)
unfolding take_image allowed_digests to_image new_image update_platform
spec_digests-take_image set d mime size p l image =
    elim (Bool-cases (allows set.arch p.architecture && allows set.os p.os)) [
      | inl e ↦ rw (e, spec_digests-append image.images d) (simp append_assoc)
      | inr e ↦ rw e
    ]

spec_digests-list_by_set :
    (set : SpecSet) (l : List Descriptor) (image : Image)
    → spec_digests (list_by_set set l image).images
      ≡ spec_digests image.images ++ allowed_digests set (list_images l)
unfolding list_by_set list_images
spec_digests-list_by_set set [] image = unfold allowed_digests in simp append-nil
spec_digests-list_by_set set (m ∷ l) image =
    spec_digests-list_by_set set l (take_image set m.platform m.digest image)
    ∙ spec_digests-take_image set m.digest m.media_type m.size m.platform (list_images l) image

spec_digests-index_by_set :
    (set : SpecSet) (l : List OciDescriptor) (image : Image)
    → Option.map (λ final. spec_digests final.images) (index_by_set set l image)
      ≡ Option.map
          (λ images. spec_digests image.images ++ allowed_digests set images)
          (index_images l)
unfolding index_by_set index_images
spec_digests-index_by_set set [] image = unfold allowed_digests in simp append-nil
spec_digests-index_by_set set (m ∷ l) image = elim (Option-cases m.platform) [
  | inl e ↦ rw e
  | inr (p, e) ↦
      rw (e, spec_digests-index_by_set set l (take_image set p m.digest image))
        (Option-map-map (index_images l) _ _ _
          (λ images. spec_digests-take_image set m.digest m.media_type m.size p images image))
]

by_mime :
    (mime : Mime) (d : Destination) (set : SpecSet)
    → Option.map (λ image. spec_digests image.images) (image_by_set_at mime d set)
      ≡ Option.map (allowed_digests set) (manifest_images_at mime d)
unfolding image_by_set_at manifest_images_at allowed_digests spec_digests
by_mime docker_list d set = elim (Option-cases d.schema2_list) [
  | inl e ↦ rw e
  | inr (l, e) ↦ rw e (ap some (spec_digests-list_by_set set l no_image))
]
by_mime Mime.oci_index d set = elim (Option-cases d.oci_index) [
  | inl e ↦ rw e (unfold Option.bind in refl)
  | inr (l, e) ↦ rw e (unfold Option.bind in spec_digests-index_by_set set l no_image)
]
by_mime absent d set = refl
by_mime docker_schema2 d set = refl
by_mime docker_schema1 d set = refl
by_mime docker_schema1_signed d set = refl
by_mime oci_manifest d set = refl
by_mime (other t) d set = refl

-- For any sets of architectures and systems, the images that a destination answers for the sets
-- are, by their digests and in order, the listed images that the sets allow; and the question
-- panics exactly when listing the images panics.
pub image_by_set-manifest_images :
    (d : Destination) (set : SpecSet)
    → Option.map (λ image. spec_digests image.images) (image_by_set d set)
      ≡ Option.map (allowed_digests set) (manifest_images d)
unfolding image_by_set manifest_images
image_by_set-manifest_images d set = by_mime d.mime d set
