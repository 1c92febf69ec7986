-- ===== src/Utils/ImageSet.antt =====
-- pkg/utils/utils.go: `AddSourceToImage` on the maps from images to the sets of their sources.
use image_tools.Prelude.{
  ◌≡◌, ap, Bool, true, false, not, ◌&&◌, ◌||◌, List, [], ◌∷◌, arith, if◌then◌else◌, has, mark_all,
  has_nil, has-mark_all, Text, ◌==◌, is_empty, ==_iff, ==_eq,
}

abbrev pub ImageSet : Type 0
ImageSet = List (Text × List Text)

-- `imagesSet[image]` is made if it is nil, and gets the sources.
unfoldable pub add_entry : Text → List Text → ImageSet → ImageSet
unfolding mark_all
add_entry image sources [] = (image, mark_all sources []) ∷ []
add_entry image sources ((i, old) ∷ m) =
    if i == image then (i, mark_all sources old) ∷ m else (i, old) ∷ add_entry image sources m

unfoldable pub add_source_to_image : ImageSet → Text → List Text → ImageSet
unfolding add_entry
add_source_to_image m image sources = if is_empty image then m else add_entry image sources m

-- The two loops that add all sources of all images of one map to another.
unfoldable pub add_sources : Text → List Text → ImageSet → ImageSet
unfolding add_source_to_image
add_sources image [] m = m
add_sources image (s ∷ sources) m = add_sources image sources (add_source_to_image m image (s ∷ []))

unfoldable pub merge_sources : ImageSet → ImageSet → ImageSet
unfolding add_sources
merge_sources [] m = m
merge_sources ((image, sources) ∷ from) m = merge_sources from (add_sources image sources m)

-- `m[image][source]`, where no image stands twice.
unfoldable pub has_source : ImageSet → Text → Text → Bool
unfolding has
has_source [] image s = false
has_source ((i, sources) ∷ m) image s = (i == image && has sources s) || has_source m image s

pub has_source-add_entry :
    (image : Text) (sources : List Text) (m : ImageSet) (j s : Text)
    → has_source (add_entry image sources m) j s
      ≡ ((image == j && has sources s) || has_source m j s)
unfolding has_source add_entry
has_source-add_entry image sources [] j s = ground (arith, has-mark_all sources [] s, has_nil s)
has_source-add_entry image sources ((i, old) ∷ m) j s = ground (
  arith,
  ==_iff i image,
  ==_iff i j,
  ==_iff image j,
  has-mark_all sources old s,
  has_source-add_entry image sources m j s,
)

is_empty_of_== : (s t : Text) → (s == t) ≡ true → is_empty s ≡ is_empty t
is_empty_of_== s t h = ap is_empty (==_eq h)

-- Adding sources to an image that has a name adds just these.
pub has_source-add :
    (m : ImageSet) (image : Text) (sources : List Text) (j s : Text)
    → has_source (add_source_to_image m image sources) j s
      ≡ ((not (is_empty j) && image == j && has sources s) || has_source m j s)
unfolding add_source_to_image
has_source-add m image sources j s =
    ground (arith, is_empty_of_== image j, has_source-add_entry image sources m j s)

has_source-add_sources :
    (image : Text) (sources : List Text) (m : ImageSet) (j s : Text)
    → has_source (add_sources image sources m) j s
      ≡ ((not (is_empty j) && image == j && has sources s) || has_source m j s)
unfolding add_sources has
has_source-add_sources image [] m j s = ground arith
has_source-add_sources image (t ∷ sources) m j s = ground (
  arith,
  has_source-add_sources image sources (add_source_to_image m image (t ∷ [])) j s,
  has_source-add m image (t ∷ []) j s,
)

-- The union of two maps.
pub has_source-merge :
    (from m : ImageSet) (j s : Text)
    → has_source (merge_sources from m) j s
      ≡ ((not (is_empty j) && has_source from j s) || has_source m j s)
unfolding merge_sources has_source
has_source-merge [] m j s = ground arith
has_source-merge ((image, sources) ∷ from) m j s = ground (
  arith,
  has_source-merge from (add_sources image sources m) j s,
  has_source-add_sources image sources m j s,
)
