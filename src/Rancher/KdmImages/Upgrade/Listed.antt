-- ===== src/Rancher/KdmImages/Upgrade/Listed.antt =====
-- pkg/rancher/kdmimages/upgrade.go: the list of the images for an upgrade.
use image_tools.Prelude.{
  ℕ, ◌≡◌, refl, sym, ◌∙◌, ◌⊎◌, inl, inr, Bool, false, ◌||◌, Option, List, [], ◌∷◌, arith, has,
  mark_all, has_nil, has-mark_all, ok, Text, ◌==◌,
}
use image_tools.Rancher.KdmImages.{k3s, rke2, releases_of}
use image_tools.Rancher.KdmImages.Sorting.{sort_strings}
use image_tools.Rancher.KdmImages.Sorting.Laws.{
  IsSorted, IsKeySet, mark_all-IsKeySet, has-sort_strings, sort_strings-IsSorted,
  sort_strings_unique,
}
use image_tools.Rancher.KdmImages.System.{keys}
use image_tools.Rancher.KdmImages.Upgrade.{
  UpgradeImages, compatible_releases, images_of_release, external_images, upgrade_images,
}
use image_tools.Rancher.Values.{Items}
use image_tools.Utils.Semver.{SemverPackage}

module _ (get : Text → Option (ℕ × List Text)) (source : Text) where
  -- Some release of the list offers the image.
  unfoldable pub offers : List Text → Text → Bool
  unfolding images_of_release has
  offers [] k = false
  offers (release ∷ releases) k = has (images_of_release get source release) k || offers releases k

  external_images-IsKeySet :
      (releases keys : List Text)
      → IsKeySet keys
      → IsKeySet (external_images get source releases keys)
  unfolding external_images
  external_images-IsKeySet [] keys h = h
  external_images-IsKeySet (r ∷ releases) keys h =
      external_images-IsKeySet releases (mark_all (images_of_release get source r) keys)
        (mark_all-IsKeySet (images_of_release get source r) keys h)

  has-external_images :
      (releases keys : List Text) (k : Text)
      → has (external_images get source releases keys) k ≡ (offers releases k || has keys k)
  unfolding external_images offers
  has-external_images [] keys k = refl
  has-external_images (r ∷ releases) keys k = ground (
    arith,
    has-external_images releases (mark_all (images_of_release get source r) keys) k,
    has-mark_all (images_of_release get source r) keys k,
  )

upgrade_images_of_source :
    (get : Text → Option (ℕ × List Text)) (semver : SemverPackage) (g : UpgradeImages)
    (releases : Items)
    → ((g.source ≡ k3s) ⊎ (g.source ≡ rke2))
    → releases_of g.kdm_data ≡ ok releases
    → upgrade_images get semver g
      ≡ ok (sort_strings (external_images get g.source (compatible_releases semver g releases) []))
unfolding upgrade_images ◌==◌
upgrade_images_of_source get semver g releases (inl e) hr = rw (e, hr)
upgrade_images_of_source get semver g releases (inr e) hr = rw (e, hr)

-- For one of the two sources and data that has releases, the list of the images is made. It is sorted
-- and names each image once, and it has exactly the images that some compatible release offers.
-- However the map of the images is walked, as a list of its keys, each once, sorting gives this list.
pub upgrade_images-offers :
    (get : Text → Option (ℕ × List Text)) (semver : SemverPackage) (g : UpgradeImages)
    (releases : Items)
    → ((g.source ≡ k3s) ⊎ (g.source ≡ rke2))
    → releases_of g.kdm_data ≡ ok releases
    → (l : List Text) × (upgrade_images get semver g ≡ ok l)
      × IsSorted l
      × ((image : Text)
          → has l image ≡ offers get g.source (compatible_releases semver g releases) image)
      × ((keys : List Text)
          → IsKeySet keys
          → ((image : Text)
              → has keys image ≡ offers get g.source (compatible_releases semver g releases) image)
          → sort_strings keys ≡ l)
unfolding upgrade_images
upgrade_images-offers get semver g releases hs hr =
    let keys = external_images get g.source (compatible_releases semver g releases) [] in
    let distinct =
      external_images-IsKeySet get g.source (compatible_releases semver g releases) [] tt in
    let counted : ((k : Text)
        → has keys k ≡ offers get g.source (compatible_releases semver g releases) k) =
      λ k. ground (
        arith,
        has-external_images get g.source (compatible_releases semver g releases) [] k,
        has_nil k,
      ) in
    (
      sort_strings keys,
      upgrade_images_of_source get semver g releases hs hr,
      sort_strings-IsSorted keys distinct,
      (λ k. has-sort_strings keys k ∙ counted k),
      (λ all d h. sort_strings_unique all keys d distinct (λ k. h k ∙ sym (counted k))),
    )
