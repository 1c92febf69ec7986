-- ===== src/Hangar/Layers.antt =====
-- pkg/hangar/common.go: the layer manager of a load, which counts the references to each blob and
-- deletes a blob from the cache when its last image is cleaned up.
pub mod Counts
pub mod References
pub mod Safety
use image_tools.Hangar.Archive.Index.{ImageSpec, Image, Index}
use image_tools.Prelude.{
  Bool, true, false, not, Option, none, some, List, [], ◌∷◌, ◌++◌, map, if◌then◌else◌, mark, lookup,
  insert, select, ℤ, pos, inc, dec, is_positive, is_zero, Text, ◌==◌, is_empty,
}

-- `layers_ref_map` maps the encoded digest of a blob to its counter. `blobs` are the files in the
-- manager's blob directory; one that is being extracted again counts as whole.
pub record LayerManager : Type 0 where
  pub layers_ref_map : List (Text × ℤ)
  pub blobs : List Text

-- `m[k]++`, where a missing counter reads as 0.
unfoldable pub increment : Text → List (Text × ℤ) → List (Text × ℤ)
increment k m = insert k (elim (lookup k m) [ none ↦ pos 1 | some n ↦ inc n ]) m

unfoldable pub increment_all : List Text → List (Text × ℤ) → List (Text × ℤ)
unfolding increment
increment_all [] m = m
increment_all (k ∷ ks) m = increment_all ks (increment k m)

-- The file is gone, whether or not it was there. That the deletion fails is only logged.
unfoldable pub remove_all : Text → List Text → List Text
unfolding select ◌==◌
remove_all k blobs = select (λ blob. not (blob == k)) blobs

-- `extract blob` tells whether `ar.Decompress` succeeds on the blob; the loop stops at the first
-- that fails, and the flag tells that none did.
unfoldable pub decompress_blobs : (Text → Bool) → List Text → List Text → List Text × Bool
unfolding mark
decompress_blobs extract [] blobs = (blobs, true)
decompress_blobs extract (layer ∷ layers) blobs =
    let rest = decompress_blobs extract layers (mark layer blobs) in
    if extract layer then rest else (blobs, false)

-- The body of the loop of `clean`, behind the read of the counter.
unfoldable pub settle : Text → LayerManager → Option ℤ → LayerManager
unfolding remove_all
settle layer m none = m
settle layer m (some ref) =
    let left = if is_positive ref then dec ref else ref in
    if is_zero left
    then record {
      layers_ref_map = insert layer (dec left) m.layers_ref_map;
      blobs = remove_all layer m.blobs;
    }
    else record m { layers_ref_map = insert layer left m.layers_ref_map }

unfoldable pub clean_one : Text → LayerManager → LayerManager
unfolding settle
clean_one layer m = settle layer m (lookup layer m.layers_ref_map)

unfoldable pub clean_layers : List Text → LayerManager → LayerManager
unfolding clean_one
clean_layers [] m = m
clean_layers (layer ∷ layers) m = clean_layers layers (clean_one layer m)

-- `encoded` is `digest.Encoded`.
module _ (encoded : Text → Text) where
  -- The counters that one spec raises, in the order of the loop.
  unfoldable pub spec_layers : ImageSpec → List Text
  spec_layers spec =
      map encoded spec.layers
      ++ (if is_empty spec.config then [] else encoded spec.config ∷ [])
      ++ encoded spec.digest ∷ []

  unfoldable pub count_specs : List ImageSpec → List (Text × ℤ) → List (Text × ℤ)
  unfolding increment_all spec_layers
  count_specs [] m = m
  count_specs (spec ∷ specs) m = count_specs specs (increment_all (spec_layers spec) m)

  unfoldable pub count_images : List Image → List (Text × ℤ) → List (Text × ℤ)
  unfolding count_specs
  count_images [] m = m
  count_images (image ∷ images) m = count_images images (count_specs image.images m)

  -- The manager of a fresh temporary directory.
  unfoldable pub new_layer_manager : Index → LayerManager
  unfolding count_images
  new_layer_manager index = record { layers_ref_map = count_images index.list []; blobs = [] }

  unfoldable pub get_image_layers : ImageSpec → List Text
  get_image_layers img =
      map encoded img.layers
      ++ encoded img.digest ∷ (if is_empty img.config then [] else encoded img.config ∷ [])

  -- It takes no lock: other steps may come between the turns of its loop.
  unfoldable pub decompress_layer : (Text → Bool) → ImageSpec → LayerManager → LayerManager × Bool
  unfolding decompress_blobs get_image_layers
  decompress_layer extract img m =
      let (blobs, done) = decompress_blobs extract (get_image_layers img) m.blobs in
      (record m { blobs = blobs }, done)

  unfoldable pub clean : ImageSpec → LayerManager → LayerManager
  unfolding clean_layers get_image_layers
  clean img m = clean_layers (get_image_layers img) m

-- `cleanAll`
unfoldable pub clean_all : LayerManager → LayerManager
clean_all m = record m { blobs = [] }
