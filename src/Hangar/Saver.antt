-- ===== src/Hangar/Saver.antt =====
-- pkg/hangar/saver.go: what a worker does under the lock of the archive, once an image is copied to
-- its cache directory, and the validation.
pub mod Blobs
pub mod Run
pub mod Validation
pub mod Complete
use mathlib.Core.Option
use image_tools.Hangar.Archive.Index.{ImageSpec, Image, Index, append, has_image, has_reference}
use image_tools.Hangar.Archive.Writer.{CacheDir, Walk, write_dir}
use image_tools.Media.{Mime, docker_schema1, docker_schema1_signed, SpecSet}
use image_tools.Prelude.{
  Bool, false, not, ◌&&◌, ◌||◌, Option, some, List, [], ◌∷◌, ◌++◌, if◌then◌else◌, has, mark,
  mark_all, select, Text, ◌==◌, is_empty,
}
use image_tools.Source.{Source}
use image_tools.Source.Load.{source_image_by_set}

-- The part of the saver under its lock, and the files that are in the archive as a whole: blobs and
-- image directories, by their digests.
pub record SaveState : Type 0 where
  pub layers_set : List Text
  pub index : Index
  pub blobs : List Text
  pub images : List Text

-- The digests of one image that `imageBlobs` takes.
unfoldable pub spec_blobs : ImageSpec → List Text → List Text
unfolding mark mark_all
spec_blobs spec set =
    let layers = mark_all spec.layers set in
    mark spec.digest (if is_empty spec.config then layers else mark spec.config layers)

unfoldable pub image_blobs : List ImageSpec → List Text → List Text
unfolding spec_blobs
image_blobs [] set = set
image_blobs (spec ∷ specs) set = image_blobs specs (spec_blobs spec set)

unfoldable pub lists_image : List ImageSpec → Text → Bool
lists_image [] d = false
lists_image (spec ∷ specs) d = spec.digest == d || lists_image specs d

-- The files that stay in the cache directory, when those of known digests are deleted. A deletion is
-- taken to succeed; one that fails is only logged, and the file is written once more.
unfoldable pub without_known : List Text → List ImageSpec → CacheDir → CacheDir
unfolding select has image_blobs lists_image
without_known known specs cache = record {
  blobs = select (λ k. not (has (image_blobs specs []) k && has known k)) cache.blobs;
  images = select (λ k. not (lists_image specs k && has known k)) cache.images;
}

-- The digests are marked, and then `aw.Write` walks over what stays in the directory; what it stored
-- remains in the archive when it fails. The answer is whether it succeeds.
unfoldable pub compress : Walk → CacheDir → Image → SaveState → SaveState × Bool
unfolding without_known image_blobs mark_all append write_dir
compress met cache image st =
    let (stored, done) = write_dir met (without_known st.layers_set image.images cache) in
    (
      record {
        layers_set = mark_all (image_blobs image.images []) st.layers_set;
        index = if done then append st.index (some image) else st.index;
        blobs = st.blobs ++ stored.blobs;
        images = st.images ++ stored.images;
      },
      done,
    )

-- What `validateWorker` answers for an initialised source, by its media type.
unfoldable pub validate_at : Mime → Index → Source → SpecSet → Option Bool
unfolding has_reference has_image source_image_by_set
validate_at docker_schema1 i s set = some (has_reference i s.project s.name s.tag)
validate_at docker_schema1_signed i s set = some (has_reference i s.project s.name s.tag)
validate_at mime i s set = Option.map (has_image i) (source_image_by_set s set)

unfoldable pub validate_saved : Index → Source → SpecSet → Option Bool
unfolding validate_at
validate_saved i s set = validate_at s.mime i s set
