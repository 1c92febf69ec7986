-- ===== src/Hangar/Syncer.antt =====
-- pkg/hangar/syncer.go: a saver that starts from the index of an archive that is there. Its worker
-- does under its lock what that of the saver does, which `compress` models.
pub mod Start
pub mod Run
use image_tools.Hangar.Archive.Index.{ImageSpec, Image, Index}
use image_tools.Hangar.Saver.{SaveState}
use image_tools.Prelude.{List, [], ◌∷◌, if◌then◌else◌, mark, mark_all, Text, is_empty}

-- The digests of one image, in the order of the start.
unfoldable pub known_specs : List ImageSpec → List Text → List Text
unfolding mark mark_all
known_specs [] set = set
known_specs (spec ∷ specs) set =
    let named = mark spec.digest (mark_all spec.layers set) in
    known_specs specs (if is_empty spec.config then named else mark spec.config named)

unfoldable pub known_images : List Image → List Text → List Text
unfolding known_specs
known_images [] set = set
known_images (image ∷ images) set = known_images images (known_specs image.images set)

-- The syncer on an archive with this index, these blobs and these image directories.
unfoldable pub start_sync : Index → List Text → List Text → SaveState
unfolding known_images
start_sync index blobs images = record {
  layers_set = known_images index.list [];
  index = index;
  blobs = blobs;
  images = images;
}
