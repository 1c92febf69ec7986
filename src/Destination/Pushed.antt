-- ===== src/Destination/Pushed.antt =====
-- pkg/destination/destination.go: what is pushed is read back.
use mathlib.Core.Option
use image_tools.Destination.{Destination}
use image_tools.Destination.Queries.{to_image, list_images, manifest_images_at, manifest_images}
use image_tools.Manifest.{ManifestImage, new_image, update_platform}
use image_tools.Manifest.Push.{descriptor_of, push}
use image_tools.Media.{docker_list, Descriptor}
use image_tools.Prelude.{◌≡◌, refl, ap, ◌∙◌, ◌≢◌, some, List, [], ◌∷◌, map, ok}

list_images-map : (images : List ManifestImage) → list_images (map descriptor_of images) ≡ images
unfolding list_images descriptor_of to_image new_image update_platform
list_images-map [] = refl
list_images-map (img ∷ images) = ap (λ l. img ∷ l) (list_images-map images)

-- A list of images that is not empty is pushed, and a destination whose manifest is the pushed list
-- lists just these images, with their platforms, in order.
pub manifest_images-push :
    (d : Destination) (images : List ManifestImage)
    → images ≢ []
    → d.mime ≡ docker_list
    → (l : List Descriptor) × (push images ≡ ok l)
      × (d.schema2_list ≡ some l → manifest_images d ≡ some images)
unfolding push manifest_images manifest_images_at
manifest_images-push d [] h em = absurd (h refl)
manifest_images-push d (img ∷ images) h em = (
  map descriptor_of (img ∷ images),
  refl,
  λ el.
      ap (λ mime. manifest_images_at mime d) em
      ∙ ap (Option.map list_images) el
      ∙ ap some (list_images-map (img ∷ images)),
)
