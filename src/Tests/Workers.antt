-- ===== src/Tests/Workers.antt =====
-- Savers and mirrorers on small images.
use image_tools.Hangar.Archive.Index.{new_index, append}
use image_tools.Hangar.Archive.Writer.{visited, failed_visit, CacheDir, Walk, write_dir}
use image_tools.Hangar.Mirrorer.{MirrorerOptions}
use image_tools.Hangar.Saver.{SaveState, image_blobs, without_known, compress}
use image_tools.Hangar.Saver.Blobs.{compress-failed}
use image_tools.Manifest.{ManifestImage}
use image_tools.Prelude.{
  ◌≡◌, refl, true, ◌||◌, some, List, [], ◌∷◌, if◌then◌else◌, has, codes, ◌==◌,
}
use image_tools.Tests.Archives.{one_image}
use image_tools.Tests.Manifests.{on}

abbrev empty_archive : SaveState
empty_archive = record { layers_set = []; index = new_index []; blobs = []; images = [] }

abbrev one_cache : CacheDir
one_cache = record { blobs = codes "h:9" ∷ codes "h:1" ∷ []; images = codes "h:1" ∷ [] }

abbrev pub every_file : Walk
every_file = record { visit_image = λ image. visited; visit_blob = λ blob. visited; flushes = true }

-- The disk is full after the first blob.
abbrev full_disk : Walk
full_disk = record {
  visit_image = λ image. visited;
  visit_blob = λ blob. if blob == codes "h:1" then failed_visit else visited;
  flushes = true;
}

abbrev after_failure : SaveState
after_failure = (compress full_disk one_cache one_image empty_archive).0

kept_test :
    (after_failure.blobs ≡ codes "h:9" ∷ [])
    × ((compress every_file one_cache one_image after_failure).0.blobs ≡ codes "h:9" ∷ [])
unfolding compress ◌==◌
kept_test = (refl, refl)

compress-failed_example :
    let (st₂, done) = compress every_file one_cache one_image after_failure in
    (after_failure.index ≡ empty_archive.index)
    × (has after_failure.blobs (codes "h:1") ≡ (
        has [] (codes "h:1")
        || has
            (write_dir full_disk (without_known [] one_image.images one_cache)).0.blobs
            (codes "h:1")))
    × (has st₂.blobs (codes "h:1") ≡ has after_failure.blobs (codes "h:1"))
    × (done ≡ true → st₂.index ≡ append empty_archive.index (some one_image))
compress-failed_example =
    compress-failed full_disk every_file one_cache one_cache one_image empty_archive (codes "h:1")
      (unfold compress ◌==◌ in refl) (unfold image_blobs has ◌==◌ in refl)

abbrev pub to_private : MirrorerOptions
to_private = record {
  source_registry = [];
  source_project = [];
  destination_registry = codes "private.io";
  destination_project = [];
}

abbrev pub old_images : List ManifestImage
old_images = on (codes "old") (codes "amd64") ∷ []

abbrev pub new_arm : List ManifestImage
new_arm = on (codes "new") (codes "arm64") ∷ []
