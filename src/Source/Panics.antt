-- ===== src/Source/Panics.antt =====
-- pkg/source/source.go: when `ImageBySet` dereferences the nil pointer of a platform.
use mathlib.Core.Option
use image_tools.Destination.Queries.{no_image, take_image, index_by_set}
use image_tools.Hangar.Archive.Index.{Image}
use image_tools.Media.{
  Mime, absent, docker_list, docker_schema2, docker_schema1, docker_schema1_signed, other, Platform,
  OciDescriptor, SpecSet, Inspector,
}
use image_tools.Prelude.{
  ◌≡◌, refl, inl, inr, Bool, false, ◌||◌, Option, none, some, List, [], ◌∷◌, arith, Option-cases,
  is_missing, ok, Text,
}
use image_tools.Source.{Source}
use image_tools.Source.Load.{load, take_single, source_image_at, source_image_by_set}

unfoldable pub any_unplaced : List OciDescriptor → Bool
any_unplaced [] = false
any_unplaced (m ∷ l) = is_missing m.platform || any_unplaced l

-- The manifest is an index with an image that has no platform, or that of an OCI image whose config
-- descriptor has none.
unfoldable pub unplaced : Inspector → Text → Mime → Bool
unfolding any_unplaced
unplaced registry b Mime.oci_index = elim (registry.parse_index b) [
  | none ↦ false
  | some l ↦ any_unplaced l
]
unplaced registry b Mime.oci_manifest = elim (registry.parse_manifest b) [
  | none ↦ false
  | some m ↦ is_missing m.config_platform
]
unplaced registry b mime = false

is_missing-index_by_set :
    (set : SpecSet) (l : List OciDescriptor) (image : Image)
    → is_missing (index_by_set set l image) ≡ any_unplaced l
unfolding index_by_set any_unplaced is_missing
is_missing-index_by_set set [] image = refl
is_missing-index_by_set set (m ∷ l) image = elim (Option-cases m.platform) [
  | inl e ↦ rw e
  | inr (p, e) ↦ rw e (is_missing-index_by_set set l (take_image set p m.digest image))
]

is_missing-take_single :
    (set : SpecSet) (d : Text) (o : Option Platform)
    → is_missing (take_single set d o) ≡ is_missing o
unfolding is_missing
is_missing-take_single set d none = refl
is_missing-take_single set d (some p) = refl

-- The answer of `ImageBySet` after a manifest was loaded: it panics exactly when the manifest is an
-- index with an image that has no platform, or that of an OCI image whose config descriptor has no
-- platform, whatever the sets are.
pub source_image_by_set-load :
    (registry : Inspector) (b : Text) (mime : Mime) (s s' : Source) (set : SpecSet)
    → load registry b mime (record s { mime = mime }) ≡ ok s'
    → is_missing (source_image_by_set s' set) ≡ unplaced registry b mime
unfolding load source_image_by_set source_image_at unplaced is_missing Option.bind
source_image_by_set-load registry b docker_list s s' set h =
    elim (Option-cases (registry.parse_list b)) [ inl e ↦ ground arith | inr (l, e) ↦ ground arith ]
source_image_by_set-load registry b docker_schema2 s s' set h = ground arith
source_image_by_set-load registry b docker_schema1 s s' set h = ground arith
source_image_by_set-load registry b docker_schema1_signed s s' set h = ground arith
source_image_by_set-load registry b Mime.oci_index s s' set h =
    elim (Option-cases (registry.parse_index b)) [
      | inl e ↦ ground arith
      | inr (l, e) ↦ ground (arith, is_missing-index_by_set set l no_image)
    ]
source_image_by_set-load registry b Mime.oci_manifest s s' set h =
    elim (Option-cases (registry.parse_manifest b)) [
      | inl e ↦ ground arith
      | inr (m, e) ↦ ground (arith, is_missing-take_single set s'.manifest_digest m.config_platform)
    ]
source_image_by_set-load registry b absent s s' set h = ground arith
source_image_by_set-load registry b (other t) s s' set h = ground arith
