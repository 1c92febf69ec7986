-- ===== src/Hangar/Syncer/Start.antt =====
-- pkg/hangar/syncer.go: what the syncer knows when it starts.
use image_tools.Hangar.Archive.Index.{ImageSpec, Image, Index}
use image_tools.Hangar.Saver.{spec_blobs, image_blobs}
use image_tools.Hangar.Saver.Blobs.{list_blobs, IsSaved}
use image_tools.Hangar.Syncer.{known_specs, known_images, start_sync}
use image_tools.Prelude.{
  ◌≡◌, refl, Bool, true, false, not, ◌&&◌, ◌||◌, List, [], ◌∷◌, arith, has, mark, mark_all, has_nil,
  has-append, has-mark, has-mark_all, Text, ◌==◌, is_empty,
}

in_spec : ImageSpec → Text → Bool
in_spec spec k =
    spec.digest == k || has spec.layers k || (not (is_empty spec.config) && spec.config == k)

in_specs : List ImageSpec → Text → Bool
in_specs [] k = false
in_specs (spec ∷ specs) k = in_spec spec k || in_specs specs k

has-spec_blobs :
    (spec : ImageSpec) (set : List Text) (k : Text)
    → has (spec_blobs spec set) k ≡ (in_spec spec k || has set k)
unfolding spec_blobs in_spec
has-spec_blobs spec set k = ground (
  arith,
  has-mark_all spec.layers set k,
  has-mark spec.config k (mark_all spec.layers set),
  has-mark spec.digest k (mark_all spec.layers set),
  has-mark spec.digest k (mark spec.config (mark_all spec.layers set)),
)

has-image_blobs :
    (specs : List ImageSpec) (set : List Text) (k : Text)
    → has (image_blobs specs set) k ≡ (in_specs specs k || has set k)
unfolding image_blobs in_specs
has-image_blobs [] set k = refl
has-image_blobs (spec ∷ specs) set k =
    ground (arith, has-image_blobs specs (spec_blobs spec set) k, has-spec_blobs spec set k)

has-known_specs :
    (specs : List ImageSpec) (set : List Text) (k : Text)
    → has (known_specs specs set) k ≡ (in_specs specs k || has set k)
unfolding known_specs in_specs in_spec
has-known_specs [] set k = refl
has-known_specs (spec ∷ specs) set k =
    let named = mark spec.digest (mark_all spec.layers set) in
    ground (
      arith,
      has-known_specs specs named k,
      has-known_specs specs (mark spec.config named) k,
      has-mark_all spec.layers set k,
      has-mark spec.digest k (mark_all spec.layers set),
      has-mark spec.config k named,
    )

has-known_images :
    (images : List Image) (set : List Text) (k : Text)
    → has (known_images images set) k ≡ (has (list_blobs images) k || has set k)
unfolding known_images list_blobs
has-known_images [] set k = ground (arith, has_nil k)
has-known_images (image ∷ images) set k = ground (
  arith,
  has-known_images images (known_specs image.images set) k,
  has-known_specs image.images set k,
  has-image_blobs image.images [] k,
  has_nil k,
  has-append (image_blobs image.images []) (list_blobs images) k,
)

pub start_sync-IsSaved :
    (index : Index) (blobs images : List Text)
    → ((k : Text) → has (list_blobs index.list) k ≡ true → has blobs k ≡ true)
    → IsSaved (start_sync index blobs images)
unfolding start_sync
start_sync-IsSaved index blobs images h = record {
  listed = λ k e. ground (arith, has-known_images index.list [] k);
  stored = λ k e. ground (arith, h k, has-known_images index.list [] k, has_nil k);
}
