-- ===== src/Tests/Loaders.antt =====
-- A loader that overrides nothing, and options for one system.
use image_tools.Hangar.Common.{CommonOptions, spec_set}
use image_tools.Hangar.Common.Filters.{Passes, is_skipped-spec_set}
use image_tools.Hangar.Loader.{LoaderOptions, load_option, merge_loaded}
use image_tools.Hangar.Loader.Merge.{AreListed, merge_loaded_lem}
use image_tools.Hangar.Loader.Names.{load_option-get_copied_image}
use image_tools.Manifest.{ManifestPlatform, ManifestImage}
use image_tools.Manifest.Builder.{digest_of, IsDistinct, last_digest}
use image_tools.Prelude.{
  ◌≡◌, refl, ◌↔◌, false, none, some, List, [], ◌∷◌, cons-ne-nil, arith, ok, codes,
}
use image_tools.Source.Copy.{is_skipped, get_copied_image}
use image_tools.Tests.Destinations.{platform_of}
use image_tools.Tests.Sources.{nginx_source}
use image_tools.Tests.Workers.{old_images, new_arm}

abbrev pub as_saved : LoaderOptions
as_saved = record { destination_registry = []; destination_project = [] }

load_option-get_copied_image_example :
    ((load_option as_saved (get_copied_image nginx_source)).registry ≡ codes "docker.io")
    × ((load_option as_saved (get_copied_image nginx_source)).project ≡ codes "library")
    × ((load_option as_saved (get_copied_image nginx_source)).name ≡ codes "nginx")
    × ((load_option as_saved (get_copied_image nginx_source)).tag ≡ codes "latest")
load_option-get_copied_image_example =
    load_option-get_copied_image nginx_source as_saved refl refl (cons-ne-nil _ _, omega arith)
      (cons-ne-nil _ _, omega arith) (omega arith) (omega arith) (omega arith)

merge_loaded_lem_example :
    (AreListed old_images new_arm → merge_loaded old_images new_arm ≡ ok none)
    × (¬ AreListed old_images new_arm
        → (l : List ManifestImage) × (merge_loaded old_images new_arm ≡ ok (some l))
          × IsDistinct l
          × ((q : ManifestPlatform)
              → digest_of l q ≡ last_digest new_arm q (last_digest old_images q none)))
merge_loaded_lem_example = merge_loaded_lem old_images new_arm (cons-ne-nil _ _)

abbrev windows_only : CommonOptions
windows_only = record {
  images = [];
  arch = [];
  os = codes "windows" ∷ [];
  variant = [];
  workers = 1;
}

is_skipped-spec_set_example :
    (is_skipped (spec_set windows_only) (platform_of (codes "amd64")) ≡ false)
    ↔ (Passes (codes "windows" ∷ []) (codes "linux") × Passes [] (codes "amd64") × Passes [] [])
is_skipped-spec_set_example = is_skipped-spec_set windows_only (platform_of (codes "amd64"))
