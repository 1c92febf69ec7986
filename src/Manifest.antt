-- ===== src/Manifest.antt =====
-- pkg/manifest: the images of a manifest list and the builder that collects them.
pub mod Platforms
pub mod Builder
pub mod Push
use mathlib.Core.Option
use image_tools.Prelude.{
  ℕ, zero, suc, Bool, true, false, ◌&&◌, ◌||◌, Option, none, some, List, [], ◌∷◌, ◌++◌,
  if◌then◌else◌, Text, ◌==◌,
}

pub record ManifestPlatform : Type 0 where
  pub arch : Text
  pub os : Text
  pub variant : Text
  pub os_version : Text
  pub os_features : List Text

pub record ManifestImage : Type 0 where
  pub size : ℕ
  pub digest : Text
  pub media_type : Text
  pub platform : ManifestPlatform

-- `NewImage`: the platform is zero.
unfoldable pub new_image : Text → Text → ℕ → ManifestImage
new_image digest mime size = record {
  size = size;
  digest = digest;
  media_type = mime;
  platform = record { arch = []; os = []; variant = []; os_version = []; os_features = [] };
}

unfoldable pub update_platform :
    ManifestImage → Text → Text → Text → Text → List Text → ManifestImage
update_platform p arch variant os os_version os_features = record p {
  platform = record {
    arch = arch;
    os = os;
    variant = variant;
    os_version = os_version;
    os_features = os_features;
  };
}

-- The comparison of two feature lists: first the lengths, then index by index.
unfoldable pub features_equal : List Text → List Text → Bool
features_equal [] [] = true
features_equal [] (d ∷ ds) = false
features_equal (p ∷ ps) [] = false
features_equal (p ∷ ps) (d ∷ ds) = p == d && features_equal ps ds

unfoldable pub platform_equal : ManifestPlatform → ManifestPlatform → Bool
unfolding features_equal
platform_equal p d =
    p.arch == d.arch
    && p.os == d.os
    && p.variant == d.variant
    && p.os_version == d.os_version
    && features_equal p.os_features d.os_features

-- `Image.Equal` on pointers that are not nil: the digest and the platform, not the size or the
-- media type.
unfoldable pub image_equal : ManifestImage → ManifestImage → Bool
unfolding platform_equal
image_equal p d = p.digest == d.digest && platform_equal p.platform d.platform

unfoldable pub contains_image : List ManifestImage → ManifestImage → Bool
unfolding image_equal
contains_image [] d = false
contains_image (p ∷ images) d = image_equal p d || contains_image images d

unfoldable pub contain_digest : List ManifestImage → Text → Bool
contain_digest [] d = false
contain_digest (p ∷ images) d = p.digest == d || contain_digest images d

-- `none` is the index -1.
unfoldable pub find_platform_index : List ManifestImage → ManifestPlatform → Option ℕ
unfolding platform_equal
find_platform_index [] p = none
find_platform_index (img ∷ images) p =
    if platform_equal img.platform p then some 0 else Option.map suc (find_platform_index images p)

unfoldable pub images_equal : List ManifestImage → List ManifestImage → Bool
unfolding image_equal
images_equal [] [] = true
images_equal [] (d ∷ ds) = false
images_equal (p ∷ ps) [] = false
images_equal (p ∷ ps) (d ∷ ds) = image_equal p d && images_equal ps ds

-- `append(images[:i], images[i+1:]...)`
unfoldable pub remove_at : ℕ → List ManifestImage → List ManifestImage
remove_at i [] = []
remove_at zero (img ∷ images) = images
remove_at (suc i) (img ∷ images) = img ∷ remove_at i images

-- `Builder.Add` on the images of the builder.
unfoldable pub add : List ManifestImage → ManifestImage → List ManifestImage
unfolding contains_image find_platform_index remove_at
add images p =
    if contains_image images p then images else elim (find_platform_index images p.platform) [
      | none ↦ images ++ p ∷ []
      | some i ↦ remove_at i images ++ p ∷ []
    ]

-- `for _, img := range news { builder.Add(img) }`
unfoldable pub add_all : List ManifestImage → List ManifestImage → List ManifestImage
unfolding add
add_all images [] = images
add_all images (p ∷ ps) = add_all (add images p) ps
