-- ===== src/Utils/Semver.antt =====
-- pkg/utils/utils.go: the comparison of versions, over the package golang.org/x/mod/semver.
pub mod Laws
use Prim.Native.Nat.{Ordering}
use image_tools.Prelude.{
  Bool, false, ◌||◌, ◌∷◌, if◌then◌else◌, Result, ok, err, ◌>>=◌, Text, ◌==◌, is_empty,
}

-- The functions of the package that the program calls. `compare` gives -1, 0 and 1 as `lt`, `eq`
-- and `gt`.
pub record SemverPackage : Type 0 where
  pub is_valid : Text → Bool
  pub compare : Text → Text → Ordering
  pub major : Text → Text
  pub major_minor : Text → Text

pub data SemverError : Type 0 where
  version_is_empty : SemverError
  invalid_version : Text → SemverError

module _ (semver : SemverPackage) where
  unfoldable pub ensure_semver_valid : Text → Result SemverError Text
  ensure_semver_valid v =
      if semver.is_valid v
      then ok v
      else if semver.is_valid (b'v' ∷ v)
      then ok (b'v' ∷ v)
      else err (invalid_version v)

  unfoldable pub semver_compare : Text → Text → Result SemverError Ordering
  unfolding ensure_semver_valid
  semver_compare a b =
      if is_empty a || is_empty b
      then err version_is_empty
      else (do a' ← ensure_semver_valid a; b' ← ensure_semver_valid b; ok (semver.compare a' b'))

  -- The two functions that differ only in what they compare.
  unfoldable pub semver_agree : (Text → Text) → Text → Text → Bool
  unfolding ensure_semver_valid
  semver_agree f a b =
      if is_empty a || is_empty b
      then false
      else elim (do a' ← ensure_semver_valid a; b' ← ensure_semver_valid b; ok (f a' == f b')) [
        | ok same ↦ same
        | err e ↦ false
      ]

  unfoldable pub semver_major_equal : Text → Text → Bool
  unfolding semver_agree
  semver_major_equal a b = semver_agree semver.major a b

  unfoldable pub semver_major_minor_equal : Text → Text → Bool
  unfolding semver_agree
  semver_major_minor_equal a b = semver_agree semver.major_minor a b
