-- ===== src/Hangar/Mirrorer/Merge.antt =====
-- pkg/hangar/mirrorer.go: the manifest that is pushed.
use mathlib.Core.Option.{none-ne-some}
use image_tools.Manifest.{ManifestPlatform, ManifestImage, platform_equal, add_all}
use image_tools.Manifest.Builder.{digest_of, IsDistinct, last_digest, digest_of-add_all}
use image_tools.Manifest.Platforms.{platform_equal_iff}
use image_tools.Prelude.{
  ◌≡◌, refl, sym, ap, ◌∙◌, ◌≢◌, inl, inr, true, Option, none, some, List, [], ◌∷◌, Bool-cases, Text,
}

last_digest-some :
    (ps : List ManifestImage) (q : ManifestPlatform) (d : Text) → last_digest ps q (some d) ≢ none
unfolding last_digest
last_digest-some [] q d = λ h. absurd (none-ne-some d (sym h))
last_digest-some (p ∷ ps) q d = elim (Bool-cases (platform_equal p.platform q)) [
  | inl e ↦ rw e (last_digest-some ps q p.digest)
  | inr e ↦ rw e (last_digest-some ps q d)
]

-- What the builder holds after both loops.
pub merged-digest_of :
    (old new : List ManifestImage)
    → IsDistinct (add_all (add_all [] old) new)
      × ((q : ManifestPlatform)
          → digest_of (add_all (add_all [] old) new) q ≡ last_digest new q (last_digest old q none))
unfolding digest_of
merged-digest_of old new =
    let (d, e) = digest_of-add_all [] old tt in
    let (d₂, e₂) = digest_of-add_all (add_all [] old) new d in
    (d₂, λ q. e₂ q ∙ ap (last_digest new q) (e q))

last_digest-cons :
    (p : ManifestImage) (new : List ManifestImage) (q : ManifestPlatform) (before : Option Text)
    → platform_equal p.platform q ≡ true
    → last_digest (p ∷ new) q before ≡ last_digest new q (some p.digest)
unfolding last_digest
last_digest-cons p new q before h = rw h

digest_of_nil : (q : ManifestPlatform) → digest_of [] q ≡ none
unfolding digest_of
digest_of_nil q = refl

pub merged-ne-nil : (old new : List ManifestImage) → new ≢ [] → add_all (add_all [] old) new ≢ []
merged-ne-nil old [] h e = h refl
merged-ne-nil old (p ∷ new) h e = last_digest-some new p.platform p.digest (
    sym (last_digest-cons p new p.platform _ ((platform_equal_iff p.platform p.platform).1 refl))
    ∙ sym ((merged-digest_of old (p ∷ new)).1 p.platform)
    ∙ ap (λ l. digest_of l p.platform) e
    ∙ digest_of_nil p.platform)
