-- ===== src/Manifest/Builder.antt =====
-- pkg/manifest/builder.go: a builder is a map from platforms to digests.
use image_tools.Manifest.{
  ManifestPlatform, ManifestImage, platform_equal, image_equal, contains_image, find_platform_index,
  remove_at, add, add_all,
}
use image_tools.Manifest.Platforms.{platform_equal_iff}
use image_tools.Prelude.{
  ℕ, zero, suc, ◌≡◌, refl, ap, ◌∙◌, inl, inr, true, false, Option, none, some, List, [], ◌∷◌, ◌++◌,
  arith, if◌then◌else◌, Bool-cases, Option-cases, Text, ==_iff,
}

-- The digest that a list of images gives for a platform.
unfoldable pub digest_of : List ManifestImage → ManifestPlatform → Option Text
digest_of [] q = none
digest_of (img ∷ images) q =
    if platform_equal img.platform q then some img.digest else digest_of images q

-- No two images of the list have the same platform.
abbrev pub IsDistinct : List ManifestImage → Type 0
IsDistinct [] = Unit
IsDistinct (img ∷ images) = (digest_of images img.platform ≡ none) × IsDistinct images

digest_of_absent :
    (images : List ManifestImage) (q : ManifestPlatform)
    → find_platform_index images q ≡ none
    → digest_of images q ≡ none
unfolding find_platform_index digest_of
digest_of_absent [] q h = refl
digest_of_absent (img ∷ images) q h = ground (arith, digest_of_absent images q)

-- One more image at the end answers for its platform only, if none did.
digest_of-append :
    (images : List ManifestImage) (p : ManifestImage) (q : ManifestPlatform)
    → digest_of images p.platform ≡ none
    → digest_of (images ++ p ∷ []) q
      ≡ (if platform_equal p.platform q then some p.digest else digest_of images q)
unfolding digest_of
digest_of-append [] p q h = refl
digest_of-append (img ∷ images) p q h = ground (
  arith,
  digest_of-append images p q,
  platform_equal_iff img.platform q,
  platform_equal_iff p.platform q,
  platform_equal_iff img.platform p.platform,
)

IsDistinct-append :
    (images : List ManifestImage) (p : ManifestImage)
    → digest_of images p.platform ≡ none
    → IsDistinct images
    → IsDistinct (images ++ p ∷ [])
unfolding digest_of
IsDistinct-append [] p h d = (refl, tt)
IsDistinct-append (img ∷ images) p h (fresh, d) = (
  ground (
    arith,
    digest_of-append images p img.platform,
    platform_equal_iff img.platform p.platform,
    platform_equal_iff p.platform img.platform,
  ),
  IsDistinct-append images p (ground arith) d,
)

digest_of-remove_at_absent :
    (i : ℕ) (images : List ManifestImage) (q : ManifestPlatform)
    → digest_of images q ≡ none
    → digest_of (remove_at i images) q ≡ none
unfolding digest_of remove_at
digest_of-remove_at_absent i [] q h = refl
digest_of-remove_at_absent zero (img ∷ images) q h = ground arith
digest_of-remove_at_absent (suc i) (img ∷ images) q h =
    ground (arith, digest_of-remove_at_absent i images q)

IsDistinct-remove_at :
    (i : ℕ) (images : List ManifestImage) → IsDistinct images → IsDistinct (remove_at i images)
unfolding remove_at
IsDistinct-remove_at i [] d = tt
IsDistinct-remove_at zero (img ∷ images) d = d.1
IsDistinct-remove_at (suc i) (img ∷ images) (fresh, d) =
    (digest_of-remove_at_absent i images img.platform fresh, IsDistinct-remove_at i images d)

-- Where a platform is found, and where it is found behind the first image.
found_first :
    (img : ManifestImage) (images : List ManifestImage) (p : ManifestPlatform)
    → find_platform_index (img ∷ images) p ≡ some 0
    → platform_equal img.platform p ≡ true
unfolding find_platform_index
found_first img images p h = elim (Option-cases (find_platform_index images p)) [
  | inl e ↦ ground arith
  | inr (i, e) ↦ ground arith
]

found_later :
    (img : ManifestImage) (images : List ManifestImage) (p : ManifestPlatform) (i : ℕ)
    → find_platform_index (img ∷ images) p ≡ some (suc i)
    → (platform_equal img.platform p ≡ false) × (find_platform_index images p ≡ some i)
unfolding find_platform_index
found_later img images p i h = elim (Option-cases (find_platform_index images p)) [
  | inl e ↦ ground arith
  | inr (j, e) ↦ ground arith
]

-- Without the image that was found, the list answers for all platforms but that one.
digest_of-remove_at :
    (images : List ManifestImage) (p q : ManifestPlatform) (i : ℕ)
    → IsDistinct images
    → find_platform_index images p ≡ some i
    → digest_of (remove_at i images) q ≡ (if platform_equal p q then none else digest_of images q)
unfolding digest_of remove_at find_platform_index
digest_of-remove_at [] p q i d h = cc
digest_of-remove_at (img ∷ images) p q zero (fresh, d) h = ground (
  arith,
  found_first img images p h,
  platform_equal_iff img.platform p,
  platform_equal_iff img.platform q,
  platform_equal_iff p q,
)
digest_of-remove_at (img ∷ images) p q (suc i) (fresh, d) h =
    let (other, found) = found_later img images p i h in
    ground (
      arith,
      digest_of-remove_at images p q i d found,
      platform_equal_iff img.platform p,
      platform_equal_iff img.platform q,
      platform_equal_iff p q,
    )

digest_of-contains_image :
    (images : List ManifestImage) (p : ManifestImage)
    → IsDistinct images
    → contains_image images p ≡ true
    → digest_of images p.platform ≡ some p.digest
unfolding digest_of contains_image image_equal
digest_of-contains_image [] p d h = cc
digest_of-contains_image (img ∷ images) p (fresh, d) h = ground (
  arith,
  digest_of-contains_image images p d,
  platform_equal_iff img.platform p.platform,
  ==_iff img.digest p.digest,
)

-- `Add` keeps the platforms of the images distinct.
pub add-IsDistinct :
    (images : List ManifestImage) (p : ManifestImage)
    → IsDistinct images
    → IsDistinct (add images p)
unfolding add
add-IsDistinct images p d = elim (Bool-cases (contains_image images p)) [
  | inl held ↦ rw held d
  | inr new ↦ elim (Option-cases (find_platform_index images p.platform)) [
    | inl absent ↦
        rw (new, absent) (IsDistinct-append images p (digest_of_absent images p.platform absent) d)
    | inr (i, found) ↦
        rw (new, found)
          (IsDistinct-append (remove_at i images) p
            (ground (
              arith,
              digest_of-remove_at images p.platform p.platform i d found,
              platform_equal_iff p.platform p.platform,
            ))
            (IsDistinct-remove_at i images d))
  ]
]

-- `Add` on images of distinct platforms: the digest listed for the platform of the added image is
-- now that image's, and for every other platform it is what it was.
pub digest_of-add :
    (images : List ManifestImage) (p : ManifestImage) (q : ManifestPlatform)
    → IsDistinct images
    → digest_of (add images p) q
      ≡ (if platform_equal p.platform q then some p.digest else digest_of images q)
unfolding add
digest_of-add images p q d = elim (Bool-cases (contains_image images p)) [
  | inl held ↦
      rw held
        (ground (arith, digest_of-contains_image images p d held, platform_equal_iff p.platform q))
  | inr new ↦ elim (Option-cases (find_platform_index images p.platform)) [
    | inl absent ↦
        rw (new, absent) (digest_of-append images p q (digest_of_absent images p.platform absent))
    | inr (i, found) ↦
        rw (new, found)
          (ground (
            arith,
            digest_of-append (remove_at i images) p q,
            digest_of-remove_at images p.platform q i d found,
            digest_of-remove_at images p.platform p.platform i d found,
            platform_equal_iff p.platform p.platform,
          ))
  ]
]

-- The digest of the last image for a platform, or what was there before.
unfoldable pub last_digest : List ManifestImage → ManifestPlatform → Option Text → Option Text
last_digest [] q before = before
last_digest (p ∷ ps) q before =
    last_digest ps q (if platform_equal p.platform q then some p.digest else before)

-- Adding images one after another keeps the platforms distinct, and lists for each platform the
-- digest of the last image added for it, or else the digest that was listed before.
pub digest_of-add_all :
    (images ps : List ManifestImage)
    → IsDistinct images
    → IsDistinct (add_all images ps)
      × ((q : ManifestPlatform)
          → digest_of (add_all images ps) q ≡ last_digest ps q (digest_of images q))
unfolding add_all last_digest
digest_of-add_all images [] d = (d, λ q. refl)
digest_of-add_all images (p ∷ ps) d =
    let (d', e) = digest_of-add_all (add images p) ps (add-IsDistinct images p d) in
    (d', λ q. e q ∙ ap (last_digest ps q) (digest_of-add images p q d))
