-- ===== src/Tests/Runs.antt =====
-- Runs of a saver, a syncer and a loader on one line.
use mathlib.Core.Option
use image_tools.Destination.{Destination, exists}
use image_tools.Destination.Images.{allowed_digests}
use image_tools.Destination.Queries.{list_images, manifest_images}
use image_tools.Hangar.Archive.Index.{Index, index_version, new_index}
use image_tools.Hangar.Archive.Writer.{CacheDir}
use image_tools.Hangar.ImageList.{default, detect}
use image_tools.Hangar.Loader.{archived_name, load_destination}
use image_tools.Hangar.Loader.Failed.{load_run-failed}
use image_tools.Hangar.Loader.Run.{SourceNames, wanted_name, load_run}
use image_tools.Hangar.Loader.Validation.{validate_loaded, IsCovered, validate_loaded_iff}
use image_tools.Hangar.Loader.Worker.{LoadWorld}
use image_tools.Hangar.Saver.Blobs.{list_blobs}
use image_tools.Hangar.Saver.Complete.{HoldsAll, IsComplete, save_run-IsComplete}
use image_tools.Hangar.Saver.Run.{SaverOptions, SaveWorld, SaveRun, new_run, save_line, save_run}
use image_tools.Hangar.Syncer.Run.{opened_run, sync_run, sync_run-IsComplete}
use image_tools.Media.{
  docker_list, docker_schema2, SpecSet, FetchError, Fetched, failed, raw, Inspector,
}
use image_tools.Prelude.{
  ℕ, ◌≡◌, refl, ◌↔◌, true, false, none, some, List, [], ◌∷◌, eqb, if◌then◌else◌, has, Holds, select,
  All, Result, ok, err, Text, codes, ◌==◌, contains, split, non_empty, trim_space,
}
use image_tools.Tests.Archives.{one_image}
use image_tools.Tests.Destinations.{
  platform_of, two_platforms, nginx_destination, broken_registry, arm_only,
}
use image_tools.Tests.Loaders.{as_saved}
use image_tools.Tests.Sources.{good_remote, one_layer}
use image_tools.Tests.Workers.{every_file}
use image_tools.Types.{ImageError, copy_failed}

abbrev pub not_found : FetchError
not_found = record { canceled = false; deadline_exceeded = false; message = [] }

-- Names of the transport of Docker begin with a "d".
abbrev fetch_single : Text → Fetched
fetch_single [] = failed not_found
fetch_single (c ∷ name) = if eqb c b'd' then raw (codes "{}") docker_schema2 else failed not_found

-- A registry that holds one image, in which nothing that is not in a registry is found.
abbrev single_registry : Inspector
single_registry = record broken_registry {
  fetch = fetch_single;
  manifest_digest = λ b. some (codes "sha256:d");
  parse_schema2 = λ b. some one_layer;
  inspect =
      λ name. some (record { architecture = codes "amd64"; os = codes "linux"; variant = [] });
  config = λ name. some (platform_of (codes "amd64"));
}

abbrev no_sets : SpecSet
no_sets = record { os = []; arch = []; variant = [] }

abbrev copied_cache : CacheDir
copied_cache = record {
  blobs = codes "sha256:e" ∷ codes "sha256:f" ∷ codes "sha256:d" ∷ [];
  images = codes "sha256:d" ∷ [];
}

abbrev save_world : SaveWorld ℕ
save_world = record {
  remote = good_remote;
  inspector = λ n. single_registry;
  make_dir = λ n. (some (codes "/tmp/c"), n);
  cache_of = λ n directory. copied_cache;
  write = λ n directory. (every_file, n);
  write_index = λ n i. (true, n);
  close = λ n. (true, n);
}

abbrev no_names : SaverOptions
no_names = record { source_registry = []; source_project = [] }

abbrev lines : List Text
lines = codes "nginx" ∷ codes "a b" ∷ []

abbrev summary : Result ImageError (SaveRun ℕ) → List Text × List Text
summary (ok st) = (st.save.layers_set, st.failed_image_set)
summary (err e) = ([], [])

saved_test :
    Option.map summary (save_run save_world no_sets no_names lines 0)
    ≡ some (copied_cache.blobs, [])
unfolding save_run Option.bind non_empty split trim_space contains ◌==◌
saved_test = refl

-- The index cannot be written, and the run returns no error.
unwritten_test :
    Option.map summary
      (save_run (record save_world { write_index = λ n i. (false, n) }) no_sets no_names lines 0)
    ≡ some (copied_cache.blobs, [])
unfolding save_run Option.bind non_empty split trim_space contains ◌==◌
unwritten_test = refl

saved-HoldsAll : HoldsAll save_world no_sets no_names lines (new_run 0)
unfolding save_line detect non_empty split trim_space contains Option.bind ◌==◌
saved-HoldsAll = (((λ k h. h), (λ k h. refl)), (tt, tt))

save_run-IsComplete_example : Holds IsComplete (save_run save_world no_sets no_names lines 0)
save_run-IsComplete_example = save_run-IsComplete save_world no_sets no_names lines 0 saved-HoldsAll

synced-HoldsAll :
    HoldsAll save_world no_sets no_names lines
      (opened_run save_world no_sets (new_index []) [] [] 0)
unfolding save_line detect non_empty split trim_space contains Option.bind ◌==◌
synced-HoldsAll = (((λ k h. h), (λ k h. refl)), (tt, tt))

sync_run-IsComplete_example :
    Holds IsComplete (sync_run save_world no_sets no_names lines (new_index []) [] [] 0)
sync_run-IsComplete_example =
    sync_run-IsComplete save_world no_sets no_names lines (new_index []) [] [] 0
      (λ k h. unfold new_index list_blobs in h) synced-HoldsAll

abbrev load_world : LoadWorld ℕ
load_world = record {
  remote = good_remote;
  inspector = λ n. single_registry;
  decompress_dir = λ n d. (some (codes "/tmp/d"), n);
  extract = λ n d. true;
  inspect = λ n name. none;
  send = λ n name l. (true, n);
  encoded = λ d. d;
}

abbrev no_sources : SourceNames
no_sources = record { source_registry = []; source_project = [] }

abbrev archive : Index
archive = record { list = one_image ∷ []; version = index_version; time = []; digest_set = none }

unknown_line : detect (codes "busybox") ≡ default
unfolding detect non_empty split trim_space select contains
unknown_line = refl

is_wanted : has (codes "nginx" ∷ codes "busybox" ∷ []) (codes "busybox") ≡ true
unfolding has ◌==◌
is_wanted = refl

not_archived :
    All
      (λ image. (archived_name image == wanted_name no_sources (codes "busybox")) ≡ false)
      archive.list
unfolding wanted_name ◌==◌ non_empty split contains
not_archived = (refl, tt)

load_run-failed_example :
    Holds
      (λ r. r ≡ err copy_failed)
      (load_run load_world no_sets no_sources as_saved archive
        (codes "nginx" ∷ codes "busybox" ∷ [])
        0)
load_run-failed_example =
    load_run-failed load_world no_sets no_sources as_saved archive
      (codes "nginx" ∷ codes "busybox" ∷ []) (codes "busybox") 0 is_wanted unknown_line not_archived

-- A registry that holds a list for each name.
abbrev pub list_registry : Inspector
list_registry = record broken_registry { parse_list = λ b. some two_platforms }

abbrev with_list : Destination
with_list = record nginx_destination {
  reference_name = codes "docker://docker.io/library/nginx:latest";
  mime = docker_list;
  schema2_list = some two_platforms;
}

list_found : load_destination list_registry as_saved one_image ≡ ok with_list
unfolding load_destination non_empty split contains
list_found = refl

validate_loaded_iff_example :
    (validate_loaded list_registry arm_only as_saved one_image ≡ some true)
    ↔ All
        (IsCovered arm_only (allowed_digests arm_only (list_images two_platforms)))
        one_image.images
validate_loaded_iff_example =
    validate_loaded_iff list_registry arm_only as_saved one_image with_list
      (list_images two_platforms) list_found (unfold exists in refl)
      (unfold manifest_images in refl)
