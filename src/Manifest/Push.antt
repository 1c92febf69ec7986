-- ===== src/Manifest/Push.antt =====
-- pkg/manifest/builder.go: the list that the builder pushes.
use image_tools.Manifest.{ManifestImage}
use image_tools.Media.{Descriptor}
use image_tools.Prelude.{List, [], ◌∷◌, map, Result, ok, err}
use image_tools.Types.{ImageError, no_available_image}

unfoldable pub descriptor_of : ManifestImage → Descriptor
descriptor_of img = record {
  media_type = img.media_type;
  size = img.size;
  digest = img.digest;
  platform = record {
    architecture = img.platform.arch;
    os = img.platform.os;
    os_version = img.platform.os_version;
    os_features = img.platform.os_features;
    variant = img.platform.variant;
  };
}

-- The manifests of the list that `Push` sends to the registry, or its error for no images.
unfoldable pub push : List ManifestImage → Result ImageError (List Descriptor)
unfolding descriptor_of
push [] = err no_available_image
push (img ∷ images) = ok (map descriptor_of (img ∷ images))
