-- ===== src/Tests/Versions.antt =====
-- Versions, compared by a package that knows two of them.
use Prim.Native.Nat.{Ordering}
use image_tools.Prelude.{◌≡◌, refl, ◌||◌, cons-ne-nil, if◌then◌else◌, ok, err, Text, codes, ◌==◌}
use image_tools.Utils.Semver.{SemverPackage, invalid_version, semver_compare}
use image_tools.Utils.Semver.Laws.{IsVersion, IsForm, semver_compare_lem}

abbrev two_versions : SemverPackage
two_versions = record {
  is_valid = λ v. v == codes "v1.2" || v == codes "v1.3";
  compare =
      λ a b. if a == b then Ordering.eq else if a == codes "v1.2" then Ordering.lt else Ordering.gt;
  major = λ v. codes "v1";
  major_minor = λ v. v;
}

semver_compare_lem_example :
    (IsVersion two_versions (codes "1.2")
      → IsVersion two_versions (codes "v1.3")
      → (a' : Text) × (b' : Text) × IsForm two_versions (codes "1.2") a'
        × IsForm two_versions (codes "v1.3") b'
        × (semver_compare two_versions (codes "1.2") (codes "v1.3")
            ≡ ok (two_versions.compare a' b')))
    × (¬ IsVersion two_versions (codes "1.2")
        → semver_compare two_versions (codes "1.2") (codes "v1.3")
          ≡ err (invalid_version (codes "1.2")))
    × (IsVersion two_versions (codes "1.2")
        → ¬ IsVersion two_versions (codes "v1.3")
        → semver_compare two_versions (codes "1.2") (codes "v1.3")
          ≡ err (invalid_version (codes "v1.3")))
semver_compare_lem_example =
    semver_compare_lem two_versions (codes "1.2") (codes "v1.3") (cons-ne-nil _ _) (cons-ne-nil _ _)

bare_compare : semver_compare two_versions (codes "1.2") (codes "v1.3") ≡ ok Ordering.lt
unfolding semver_compare ◌==◌
bare_compare = refl
