-- ===== src/Utils/Semver/Laws.antt =====
-- pkg/utils/utils.go: what the comparison of versions guarantees.
use image_tools.Prelude.{
  ◌≡◌, refl, ◌≢◌, ◌⊎◌, inl, inr, true, false, [], ◌∷◌, arith, Bool-cases, ok, err, Text,
}
use image_tools.Utils.Semver.{invalid_version, SemverPackage, ensure_semver_valid, semver_compare}

-- A version that the package takes, or takes with a "v" in front.
abbrev pub IsVersion : SemverPackage → Text → Type 0
IsVersion semver v = (semver.is_valid v ≡ true) ⊎ (semver.is_valid (b'v' ∷ v) ≡ true)

-- The valid form of a version: itself, or if the package does not take it, with a "v" in front.
abbrev pub IsForm : SemverPackage → Text → Text → Type 0
IsForm semver v w =
    (semver.is_valid w ≡ true) × ((w ≡ v) ⊎ ((semver.is_valid v ≡ false) × (w ≡ b'v' ∷ v)))

module _ (semver : SemverPackage) where
  -- `EnsureSemverValid` succeeds just on such versions, and returns their valid form.
  ensure_semver_valid_lem :
      (v : Text)
      → (IsVersion semver v
          → (w : Text) × (ensure_semver_valid semver v ≡ ok w) × IsForm semver v w)
        × (¬ IsVersion semver v → ensure_semver_valid semver v ≡ err (invalid_version v))
  unfolding ensure_semver_valid
  ensure_semver_valid_lem v = elim (Bool-cases (semver.is_valid v)) [
    | inl plain ↦ (λ h. (v, rw plain, (plain, inl refl)), λ h. absurd (h (inl plain)))
    | inr bare ↦ elim (Bool-cases (semver.is_valid (b'v' ∷ v))) [
      | inl good ↦
          (λ h. (b'v' ∷ v, rw (bare, good), (good, inr (bare, refl))), λ h. absurd (h (inr good)))
      | inr bad ↦ (λ h. absurd (ground arith), λ h. rw (bare, bad))
    ]
  ]

  pub semver_compare_ensured :
      (a b : Text)
      → a ≢ []
      → b ≢ []
      → IsVersion semver a
      → IsVersion semver b
      → (a' : Text) × (b' : Text) × (ensure_semver_valid semver a ≡ ok a')
        × (ensure_semver_valid semver b ≡ ok b')
        × (semver_compare semver a b ≡ ok (semver.compare a' b'))
  unfolding semver_compare
  semver_compare_ensured [] b na nb ha hb = absurd (na refl)
  semver_compare_ensured (c ∷ a) [] na nb ha hb = absurd (nb refl)
  semver_compare_ensured (c ∷ a) (d ∷ b) na nb ha hb =
      let (a', ea, va) = (ensure_semver_valid_lem (c ∷ a)).0 ha in
      let (b', eb, vb) = (ensure_semver_valid_lem (d ∷ b)).0 hb in (a', b', ea, eb, rw (ea, eb))

  -- For two versions that are not empty, `SemverCompare` has the result of the package on their valid
  -- forms, each of them the version itself or the version with a "v" in front, if both have one; else
  -- it returns the error for the first of them that has none.
  pub semver_compare_lem :
      (a b : Text)
      → a ≢ []
      → b ≢ []
      → (IsVersion semver a
          → IsVersion semver b
          → (a' : Text) × (b' : Text) × IsForm semver a a'
            × IsForm semver b b'
            × (semver_compare semver a b ≡ ok (semver.compare a' b')))
        × (¬ IsVersion semver a → semver_compare semver a b ≡ err (invalid_version a))
        × (IsVersion semver a
            → ¬ IsVersion semver b
            → semver_compare semver a b ≡ err (invalid_version b))
  unfolding semver_compare
  semver_compare_lem [] b na nb = absurd (na refl)
  semver_compare_lem (c ∷ a) [] na nb = absurd (nb refl)
  semver_compare_lem (c ∷ a) (d ∷ b) na nb =
      let (good_a, bad_a) = ensure_semver_valid_lem (c ∷ a) in
      let (good_b, bad_b) = ensure_semver_valid_lem (d ∷ b) in
      (
        λ ha hb.
            let (a', ea, va) = good_a ha in
            let (b', eb, vb) = good_b hb in (a', b', va, vb, rw (ea, eb)),
        λ ha. rw (bad_a ha),
        λ ha hb. let (a', ea, va) = good_a ha in rw (ea, bad_b hb),
      )
