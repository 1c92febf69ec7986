-- ===== src/Tests/Manifests.antt =====
-- Builders on small manifest lists.
use image_tools.Manifest.{ManifestImage, new_image, update_platform}
use image_tools.Prelude.{[], Text, codes}

abbrev pub on : Text → Text → ManifestImage
on digest arch = update_platform (new_image digest [] 10) arch [] (codes "linux") [] []
