-- ===== src/Hangar/Loader/Merge.antt =====
-- pkg/hangar/loader.go: the manifest that the worker pushes.
use image_tools.Hangar.Loader.{skip_load, merge_loaded}
use image_tools.Hangar.Mirrorer.{all_contained}
use image_tools.Hangar.Mirrorer.Merge.{merged-digest_of, merged-ne-nil}
use image_tools.Manifest.{ManifestPlatform, ManifestImage, contain_digest, add_all}
use image_tools.Manifest.Builder.{digest_of, IsDistinct, last_digest}
use image_tools.Prelude.{
  ◌≡◌, refl, ◌≢◌, ◌↔◌, inl, inr, true, false, none, some, List, [], ◌∷◌, map, arith, eqb,
  Bool-cases, has, length, nil_of_length, All, ok, Text,
}

-- The digests of some images are all among those of others.
abbrev pub AreListed : List ManifestImage → List ManifestImage → Type 0
AreListed old new = All (λ img. has (map (λ p. p.digest) old) img.digest ≡ true) new

contain_digest-has :
    (images : List ManifestImage) (d : Text)
    → contain_digest images d ≡ has (map (λ p. p.digest) images) d
unfolding contain_digest has
contain_digest-has [] d = refl
contain_digest-has (p ∷ images) d = ground (arith, contain_digest-has images d)

all_contained_iff :
    (new old : List ManifestImage) → (all_contained new old ≡ true) ↔ AreListed old new
unfolding all_contained
all_contained_iff [] old = (λ _. tt, λ _. refl)
all_contained_iff (img ∷ images) old =
    ground (arith, all_contained_iff images old, contain_digest-has old img.digest)

skip_load_iff :
    (old new : List ManifestImage) → new ≢ [] → (skip_load old new ≡ true) ↔ AreListed old new
unfolding skip_load has
skip_load_iff [] [] h = absurd (h refl)
skip_load_iff [] (p ∷ new) h = (λ e. absurd (ground arith), λ listed. listed.0)
skip_load_iff (img ∷ old) new h = all_contained_iff new (img ∷ old)

-- When some image was loaded, then nothing is pushed if the digests of all loaded images are among
-- those of the images of the destination, and otherwise a manifest with distinct platforms, which
-- lists for each platform the digest of the last loaded image, or else that of the last image of
-- the destination.
pub merge_loaded_lem :
    (old new : List ManifestImage)
    → new ≢ []
    → (AreListed old new → merge_loaded old new ≡ ok none)
      × (¬ AreListed old new
          → (l : List ManifestImage) × (merge_loaded old new ≡ ok (some l))
            × IsDistinct l
            × ((q : ManifestPlatform) → digest_of l q ≡ last_digest new q (last_digest old q none)))
unfolding merge_loaded
merge_loaded_lem old new h =
    let (d, e) = merged-digest_of old new in
    let (to, from) = skip_load_iff old new h in
    (
      λ listed. rw (from listed),
      λ missing.
          let hs : skip_load old new ≡ false = elim (Bool-cases (skip_load old new)) [
            | inl e ↦ absurd (missing (to e))
            | inr e ↦ e
          ] in
          elim (Bool-cases (eqb (length (add_all (add_all [] old) new)) 0)) [
            | inl empty ↦ absurd (merged-ne-nil old new h (nil_of_length _ empty))
            | inr e₀ ↦ (add_all (add_all [] old) new, rw (hs, e₀), d, e)
          ],
    )
