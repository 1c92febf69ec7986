-- ===== src/Rancher/ChartImages/Versions.antt =====
-- pkg/rancher/chartimages/chartimages.go: the versions of a chart that a Rancher version admits.
use image_tools.Prelude.{
  ℕ, Bool, true, Option, none, some, List, [], ◌∷◌, ◌++◌, eqb, if◌then◌else◌, has, join_path,
  Result, ok, err, ◌>>=◌, Text, codes, is_empty,
}

-- What the program uses of the package Masterminds/semver: constraints and versions, and their
-- parsers, `none` for an error. `release` is `NewVersion` of three numbers printed with dots.
pub record ConstraintPackage (Constraint Version : Type 0) : Type 0 where
  pub new_constraint : Text → Option Constraint
  pub new_version : Text → Option Version
  pub major : Version → ℕ
  pub minor : Version → ℕ
  pub patch : Version → ℕ
  pub release : ℕ → ℕ → ℕ → Option Version
  pub check : Constraint → Version → Bool

-- `index_out_of_range` stands for a panic.
pub data ChartError : Type 0 where
  empty_constraint invalid_constraint invalid_version index_out_of_range : ChartError
  unknown_chart_type no_path index_failed clone_failed : ChartError

-- A version in an index; the annotation is that of the Rancher version.
pub record ChartVersion : Type 0 where
  pub name : Text
  pub version : Text
  pub annotation : Option Text
  pub urls : List Text

-- What `decodeQuestionsFile` gives: the minimal and the maximal version, or an error.
pub data Questions : Type 0 where
  questions : Text → Text → Questions
  not_exist unreadable : Questions

pub data ChartType : Type 0 where
  default system other_type : ChartType

unfoldable pub min_max_to_constraint : Text → Text → Text
min_max_to_constraint [] [] = []
min_max_to_constraint [] (c ∷ high) = codes "<= " ++ c ∷ high
min_max_to_constraint (c ∷ low) [] = codes ">= " ++ c ∷ low
min_max_to_constraint (c ∷ low) (d ∷ high) = (c ∷ low) ++ (codes " - " ++ d ∷ high)

-- `versions[0].URLs[0]`
abbrev pub first_url : List Text → Result ChartError Text
first_url [] = err index_out_of_range
first_url (url ∷ urls) = ok url

abbrev pub or_fail {ℓ} : {A : Type ℓ} → ChartError → Option A → Result ChartError A
or_fail e none = err e
or_fail e (some a) = ok a

-- The second name is tried when there is no file of the first name.
abbrev pub or_else : Questions → Questions → Questions
or_else not_exist q = q
or_else q second = q

abbrev pub system_charts_to_check : List Text
system_charts_to_check = codes "rancher-monitoring" ∷ []

-- The charts of which all versions are checked.
unfoldable pub charts_to_check : ChartType → Result ChartError (List Text)
charts_to_check default = ok []
charts_to_check system = ok system_charts_to_check
charts_to_check other_type = err unknown_chart_type

module _ {C V : Type 0} (semver : ConstraintPackage C V) (read_questions : Text → Questions) where
  -- The patch number 99 of a development version counts as 98.
  unfoldable pub release_of : V → Option V
  release_of v =
      semver.release (semver.major v) (semver.minor v)
        (if eqb (semver.patch v) 99 then 98 else semver.patch v)

  unfoldable pub compare_to_constraint : Text → Text → Result ChartError Bool
  unfolding release_of
  compare_to_constraint rancher [] = err empty_constraint
  compare_to_constraint rancher (c ∷ constraint) = do
    parsed ← or_fail invalid_constraint (semver.new_constraint (c ∷ constraint))
    version ← or_fail invalid_version (semver.new_version rancher)
    released ← or_fail invalid_version (release_of version)
    ok (semver.check parsed released)

  unfoldable pub compare_questions : Text → Questions → Result ChartError Bool
  unfolding compare_to_constraint min_max_to_constraint
  compare_questions rancher (questions low high) =
      if is_empty (min_max_to_constraint low high)
      then ok true
      else compare_to_constraint rancher (min_max_to_constraint low high)
  compare_questions rancher q = ok true

  -- `checkChartVersionConstraint` of a chart at a path.
  unfoldable pub check_constraint : Text → Text → ChartVersion → Result ChartError Bool
  unfolding compare_questions compare_to_constraint join_path
  check_constraint rancher path v = elim v.annotation [
    | some constraint ↦ compare_to_constraint rancher constraint
    | none ↦ do
      url ← first_url v.urls
      compare_questions rancher (
          or_else (read_questions (join_path (join_path path url) (codes "questions.yaml")))
            (read_questions (join_path (join_path path url) (codes "questions.yml"))))
  ]

  -- The loop that keeps the versions that are admitted.
  unfoldable pub admitted : Text → Text → List ChartVersion → Result ChartError (List ChartVersion)
  unfolding check_constraint
  admitted rancher path [] = ok []
  admitted rancher path (v ∷ versions) = do
    keep ← check_constraint rancher path v
    rest ← admitted rancher path versions
    ok (if keep then v ∷ rest else rest)

  -- The versions of one chart: the latest one, and the others for the charts to check.
  unfoldable pub admitted_of_chart :
      ChartType → Text → Text → List ChartVersion → Result ChartError (List ChartVersion)
  unfolding admitted charts_to_check has
  admitted_of_chart type rancher path [] = ok []
  admitted_of_chart type rancher path (latest ∷ versions) = do
    first ← admitted rancher path (latest ∷ [])
    checked ← charts_to_check type
    rest ← (if has checked latest.name then admitted rancher path versions else ok [])
    ok (first ++ rest)

  unfoldable pub admitted_of_index :
      ChartType → Text → Text → List (List ChartVersion) → Result ChartError (List ChartVersion)
  unfolding admitted_of_chart
  admitted_of_index type rancher path [] = ok []
  admitted_of_index type rancher path (versions ∷ entries) = do
    first ← admitted_of_chart type rancher path versions
    rest ← admitted_of_index type rancher path entries
    ok (first ++ rest)
