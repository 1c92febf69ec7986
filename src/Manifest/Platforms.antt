-- ===== src/Manifest/Platforms.antt =====
-- pkg/manifest/struct.go: the comparisons are equality of platforms, and of digest and platform.
use image_tools.Manifest.{ManifestPlatform, features_equal, platform_equal}
use image_tools.Prelude.{◌≡◌, refl, ◌↔◌, true, List, [], ◌∷◌, arith, Text, ==_iff}

features_equal_iff : (ps ds : List Text) → (features_equal ps ds ≡ true) ↔ (ps ≡ ds)
unfolding features_equal
features_equal_iff [] [] = (λ _. refl, λ _. refl)
features_equal_iff [] (d ∷ ds) = ground arith
features_equal_iff (p ∷ ps) [] = ground arith
features_equal_iff (p ∷ ps) (d ∷ ds) = ground (arith, ==_iff p d, features_equal_iff ps ds)

-- Two platforms compare equal just when they are equal in all five fields.
pub platform_equal_iff : (p d : ManifestPlatform) → (platform_equal p d ≡ true) ↔ (p ≡ d)
unfolding platform_equal
platform_equal_iff p d = ground (
  arith,
  ==_iff p.arch d.arch,
  ==_iff p.os d.os,
  ==_iff p.variant d.variant,
  ==_iff p.os_version d.os_version,
  features_equal_iff p.os_features d.os_features,
)
