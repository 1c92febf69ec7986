-- ===== src/Hangar/Loader/Worker.antt =====
-- pkg/hangar/loader.go: the worker of a loader.
use mathlib.Core.Option
use image_tools.Destination.{Destination}
use image_tools.Destination.Queries.{manifest_images, reference_name_digest}
use image_tools.Hangar.Archive.Index.{ImageSpec, Image}
use image_tools.Hangar.Layers.{LayerManager, decompress_layer, clean}
use image_tools.Hangar.Loader.{LoaderOptions, archived_name, load_destination, merge_loaded}
use image_tools.Manifest.{ManifestImage, update_platform}
use image_tools.Manifest.Push.{push}
use image_tools.Media.{Descriptor, SpecSet, Inspector, Remote}
use image_tools.Prelude.{
  Bool, false, not, ◌||◌, Option, none, some, List, [], ◌∷◌, ◌++◌, if◌then◌else◌, has, mark, Result,
  ok, err, ◌>>=◌, Text, is_empty,
}
use image_tools.Source.{Source, new_source}
use image_tools.Source.Load.{init_source}
use image_tools.Source.Single.{finish, copy_source}
use image_tools.Types.{oci, ImageError, malformed, no_available_image}

-- What a loader finds outside, in states that change: the copier, the registry, the extraction of
-- the directory of an image (`none` for an error) and of a blob, `NewImageByInspect`, and the
-- sending of a manifest list to a reference. `encoded` is `digest.Encoded`.
pub record LoadWorld (S : Type 0) : Type 0 where
  pub remote : Remote S
  pub inspector : S → Inspector
  pub decompress_dir : S → Text → Option Text × S
  pub extract : S → Text → Bool
  pub inspect : S → Text → Option ManifestImage
  pub send : S → Text → List Descriptor → Bool × S
  pub encoded : Text → Text

pub record LoadRun (S : Type 0) : Type 0 where
  pub layers : LayerManager
  pub failed_image_set : List Text
  pub world : S

-- `len(set) != 0 && !set[k]`
abbrev pub excludes : List Text → Text → Bool
excludes [] k = false
excludes (x ∷ set) k = not (has (x ∷ set) k)

-- What one image of an archived image gives: nothing when it is skipped, or what was pushed, or an
-- error; with the state, and whether its cache is to be cleaned up.
pub data Loaded : Type 0 where
  skipped : Loaded
  loaded : ManifestImage → Loaded
  not_loaded : ImageError → Loaded

unfoldable pub load_failed : {S : Type 0} → Text → LoadRun S → LoadRun S
unfolding mark
load_failed name st = record st { failed_image_set = mark name st.failed_image_set }

module _ {S : Type 0} (env : LoadWorld S) (set : SpecSet) where
  -- `DecompressImageTmp`
  unfoldable pub decompress_image_tmp : ImageSpec → S → Result ImageError Text × S
  unfolding has
  decompress_image_tmp img w =
      if excludes set.os img.os || excludes set.arch img.arch
      then (err no_available_image, w)
      else (let (made, after) = env.decompress_dir w (env.encoded img.digest) in
          (elim made [ none ↦ err malformed | some d ↦ ok d ], after))

  -- What the image is in the destination after the copy.
  unfoldable pub inspect_loaded : Destination → ImageSpec → S → Loaded
  unfolding reference_name_digest update_platform
  inspect_loaded d img w = elim (env.inspect w (reference_name_digest d img.digest)) [
    | none ↦ not_loaded malformed
    | some mi ↦
        loaded (update_platform mi img.arch img.variant img.os img.os_version img.os_features)
  ]

  -- The error that no image is available is passed over.
  unfoldable pub loaded_outcome :
      Result ImageError (Unit {0}) → Destination → ImageSpec → S → Loaded
  unfolding inspect_loaded
  loaded_outcome (ok u) d img w = inspect_loaded d img w
  loaded_outcome (err no_available_image) d img w = inspect_loaded d img w
  loaded_outcome (err e) d img w = not_loaded e

  -- The copy from the directory, `none` for a panic of `Copy`.
  unfoldable pub load_from :
      Destination → ImageSpec → Result ImageError Source → LoadRun S → Option (Loaded × LoadRun S)
  unfolding copy_source loaded_outcome
  load_from d img (err e) st = some (not_loaded e, st)
  load_from d img (ok s) st =
      Option.map (λ c. (loaded_outcome c.outcome d img c.world, record st { world = c.world }))
        (copy_source env.remote (env.inspector st.world) set d s st.world)

  unfoldable pub oci_source : Text → Result ImageError Source
  unfolding new_source
  oci_source directory = new_source (record {
    image_type = oci;
    directory = directory;
    registry = [];
    project = [];
    name = [];
    tag = [];
    digest = [];
  })

  -- The blobs of the image are extracted, and then it is copied.
  unfoldable pub load_layers :
      Destination → ImageSpec → Text → LoadRun S → Option (Loaded × LoadRun S)
  unfolding decompress_layer load_from oci_source init_source
  load_layers d img directory st =
      let (layers, done) = decompress_layer env.encoded (env.extract st.world) img st.layers in
      if done
      then load_from d img (do s ← oci_source directory; init_source (env.inspector st.world) s)
          (record st { layers = layers })
      else some (not_loaded malformed, record st { layers = layers })

  -- The body of the loop, behind the test of the digest.
  unfoldable pub load_extracted :
      Destination → ImageSpec → Result ImageError Text × S → LoadRun S → Option (Loaded × LoadRun S)
  unfolding load_layers
  load_extracted d img (ok directory, after) st =
      load_layers d img directory (record st { world = after })
  load_extracted d img (err no_available_image, after) st =
      some (skipped, record st { world = after })
  load_extracted d img (err e, after) st = some (not_loaded e, record st { world = after })

  -- The deferred `clean`, when the worker returns.
  abbrev pub clean_state : ImageSpec → LoadRun S → LoadRun S
  clean_state img st = record st { layers = clean env.encoded img st.layers }

  -- What one image gives, with the rest of the loop and of the worker for the images so far.
  unfoldable pub after_spec :
      Text
      → ImageSpec
      → (List ManifestImage → LoadRun S → Option (LoadRun S))
      → List ManifestImage
      → Option (Loaded × LoadRun S)
      → Option (LoadRun S)
  unfolding clean load_failed
  after_spec name img rest images none = none
  after_spec name img rest images (some (not_loaded e, st)) =
      some (clean_state img (load_failed name st))
  after_spec name img rest images (some (skipped, st)) =
      Option.map (clean_state img) (rest images st)
  after_spec name img rest images (some (loaded mi, st)) =
      Option.map (clean_state img) (rest (images ++ mi ∷ []) st)

  -- The loop over the images, then the rest of the worker, then the deferred calls, latest first.
  -- `finish` is the rest of the worker for the images that were loaded.
  unfoldable pub load_specs :
      Text
      → Destination
      → (List ManifestImage → LoadRun S → Option (LoadRun S))
      → List ImageSpec
      → List ManifestImage
      → LoadRun S
      → Option (LoadRun S)
  unfolding decompress_image_tmp load_extracted after_spec
  load_specs name d finish [] images st = finish images st
  load_specs name d finish (img ∷ specs) images st =
      let rest = load_specs name d finish specs in
      if is_empty img.digest
      then rest images st
      else after_spec name img rest images
          (load_extracted d img (decompress_image_tmp img st.world) st)

  -- The end of the worker: the manifest that the merge gives is sent.
  unfoldable pub send_manifest :
      Text → Destination → Result ImageError (List Descriptor) → LoadRun S → LoadRun S
  unfolding load_failed
  send_manifest name d (err e) st = load_failed name st
  send_manifest name d (ok l) st =
      let (sent, after) = env.send st.world d.reference_name l in
      if sent then record st { world = after } else load_failed name (record st { world = after })

  unfoldable pub send_merged :
      Text → Destination → Result ImageError (Option (List ManifestImage)) → LoadRun S → LoadRun S
  unfolding send_manifest push load_failed
  send_merged name d (err e) st = load_failed name st
  send_merged name d (ok none) st = st
  send_merged name d (ok (some images)) st = send_manifest name d (push images) st

  -- `none` is a panic of `ManifestImages`.
  unfoldable pub finish_load :
      Text → Destination → List ManifestImage → LoadRun S → Option (LoadRun S)
  unfolding send_merged merge_loaded manifest_images
  finish_load name d new st =
      Option.map (λ old. send_merged name d (merge_loaded old new) st) (manifest_images d)

  unfoldable pub load_into :
      Text → List ImageSpec → Result ImageError Destination → LoadRun S → Option (LoadRun S)
  unfolding load_specs finish_load load_failed
  load_into name specs (err e) st = some (load_failed name st)
  load_into name specs (ok d) st = load_specs name d (finish_load name d) specs [] st

  unfoldable pub load_worker : LoaderOptions → Image → LoadRun S → Option (LoadRun S)
  unfolding load_into load_destination
  load_worker o image st =
      load_into (archived_name image) image.images
        (load_destination (env.inspector st.world) o image) st
