-- ===== src/Rancher/ChartImages/Selection.antt =====
-- pkg/rancher/chartimages/chartimages.go: which versions of the charts are looked at.
use image_tools.Prelude.{
  ◌≡◌, refl, sym, ap, inl, inr, Bool, true, false, List, [], ◌∷◌, ◌++◌, append-nil, if◌then◌else◌,
  Bool-cases, has, select, All, ok, err, Text,
}
use image_tools.Rancher.ChartImages.Versions.{
  ConstraintPackage, ChartVersion, Questions, ChartType, first_url, charts_to_check,
  check_constraint, admitted, admitted_of_chart, admitted_of_index,
}

select-append :
    {A : Type 0} (keep : A → Bool) (xs ys : List A)
    → select keep (xs ++ ys) ≡ select keep xs ++ select keep ys
unfolding select
select-append keep [] ys = refl
select-append keep (x ∷ xs) ys = elim (Bool-cases (keep x)) [
  | inl e ↦ rw (e, select-append keep xs ys)
  | inr e ↦ rw (e, select-append keep xs ys)
]

-- The version has a URL, from which the values are read.
abbrev pub IsPlaced : ChartVersion → Type 0
IsPlaced v = (url : Text) × (first_url v.urls ≡ ok url)

-- The versions that are checked: the latest of each chart, and all of the charts to check.
unfoldable pub candidates_of_chart : List Text → List ChartVersion → List ChartVersion
candidates_of_chart charts [] = []
candidates_of_chart charts (latest ∷ versions) =
    latest ∷ (if has charts latest.name then versions else [])

unfoldable pub candidates : List Text → List (List ChartVersion) → List ChartVersion
unfolding candidates_of_chart
candidates charts [] = []
candidates charts (versions ∷ entries) =
    candidates_of_chart charts versions ++ candidates charts entries

module _ {C V : Type 0} (semver : ConstraintPackage C V) (read_questions : Text → Questions)
    (rancher path : Text) where
  -- The check of a version has a result.
  abbrev pub IsChecked : ChartVersion → Type 0
  IsChecked v = (b : Bool) × (check_constraint semver read_questions rancher path v ≡ ok b)

  unfoldable pub passes : ChartVersion → Bool
  unfolding check_constraint
  passes v = elim (check_constraint semver read_questions rancher path v) [
    | ok b ↦ b
    | err e ↦ false
  ]

  passes_of_check :
      (v : ChartVersion) (b : Bool)
      → check_constraint semver read_questions rancher path v ≡ ok b
      → passes v ≡ b
  unfolding passes
  passes_of_check v b e = rw (passes, e)

  admitted-select :
      (l : List ChartVersion)
      → All IsChecked l
      → admitted semver read_questions rancher path l ≡ ok (select passes l)
  unfolding admitted select
  admitted-select [] h = refl
  admitted-select (v ∷ l) ((true, e), h) = rw (e, admitted-select l h, passes_of_check v true e)
  admitted-select (v ∷ l) ((false, e), h) = rw (e, admitted-select l h, passes_of_check v false e)

  All-tail :
      (xs ys : List ChartVersion) → All IsChecked (xs ++ ys) → All IsChecked xs × All IsChecked ys
  All-tail [] ys h = (tt, h)
  All-tail (x ∷ xs) ys (hx, h) = let (hl, hr) = All-tail xs ys h in ((hx, hl), hr)

  admitted_of_chart-select :
      (type : ChartType) (charts : List Text) (versions : List ChartVersion)
      → charts_to_check type ≡ ok charts
      → All IsChecked (candidates_of_chart charts versions)
      → admitted_of_chart semver read_questions type rancher path versions
        ≡ ok (select passes (candidates_of_chart charts versions))
  unfolding admitted_of_chart candidates_of_chart select
  admitted_of_chart-select type charts [] e h = refl
  admitted_of_chart-select type charts (latest ∷ versions) e (hl, h) =
      elim (Bool-cases (has charts latest.name)) [
        | inl checked ↦
            let hv : All IsChecked versions = rw checked at h in
            rw (admitted-select (latest ∷ []) (hl, tt), e, checked, admitted-select versions hv)
              (ap ok (sym (select-append passes (latest ∷ []) versions)))
        | inr plain ↦
            rw (admitted-select (latest ∷ []) (hl, tt), e, plain)
              (ap ok (append-nil (select passes (latest ∷ []))))
      ]

  -- When the type of the charts is known and the check of each version that is looked at has a
  -- result, the index is read without an error, and the versions of which the values are read are
  -- those that pass: of each chart the latest version, and all versions of the charts to check, in order.
  pub admitted_of_index-select :
      (type : ChartType) (charts : List Text) (entries : List (List ChartVersion))
      → charts_to_check type ≡ ok charts
      → All IsChecked (candidates charts entries)
      → admitted_of_index semver read_questions type rancher path entries
        ≡ ok (select passes (candidates charts entries))
  unfolding admitted_of_index candidates
  admitted_of_index-select type charts [] e h = unfold select in refl
  admitted_of_index-select type charts (versions ∷ entries) e h =
      let (hv, hr) = All-tail (candidates_of_chart charts versions) (candidates charts entries) h in
      rw
        (
          admitted_of_chart-select type charts versions e hv,
          admitted_of_index-select type charts entries e hr,
        )
        (ap ok (
          sym (
            select-append passes (candidates_of_chart charts versions)
              (candidates charts entries))))
