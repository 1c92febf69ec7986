-- ===== src/Rancher/ChartImages/Fetched.antt =====
-- pkg/rancher/chartimages/chartimages.go: the images of a directory of charts.
use image_tools.Prelude.{
  ◌≡◌, refl, ap, Bool, false, ◌&&◌, ◌||◌, some, List, [], ◌∷◌, arith, select, All, All-select,
  join_path, ok, err, Text, ◌==◌,
}
use image_tools.Rancher.ChartImages.{OsType, pick_images_from_values_map}
use image_tools.Rancher.ChartImages.Fetch.{
  Chart, ChartFiles, chart_source, values_or_none, pick_all, pick_versions, fetch_from_path,
}
use image_tools.Rancher.ChartImages.Nodes.{
  nodes, two_steps, any_names, pick_images_from_values_map-nodes,
}
use image_tools.Rancher.ChartImages.Selection.{
  IsPlaced, candidates, IsChecked, passes, admitted_of_index-select,
}
use image_tools.Rancher.ChartImages.Versions.{
  ConstraintPackage, ChartVersion, first_url, charts_to_check,
}
use image_tools.Rancher.Values.{obj, Fields}
use image_tools.Utils.ImageSet.{ImageSet, has_source}

module _ (files : ChartFiles) (os : OsType) (path image s : Text) where
  unfoldable pub any_values : List Fields → Bool
  unfolding any_names nodes
  any_values [] = false
  any_values (values ∷ l) =
      any_names files.print_nested os (nodes (obj values)) image || any_values l

  unfoldable pub values_of : ChartVersion → List Fields
  values_of v = elim (first_url v.urls) [
    | ok url ↦ values_or_none (files.decode_values (join_path path url))
    | err e ↦ []
  ]

  -- Some version is the source and has values that name the image.
  unfoldable pub any_version : List ChartVersion → Bool
  unfolding any_values values_of chart_source
  any_version [] = false
  any_version (v ∷ l) = (any_values (values_of v) && chart_source path v == s) || any_version l

module _ {C V : Type 0} (semver : ConstraintPackage C V) (files : ChartFiles) (os : OsType)
    (path image s : Text) where
  has_source-pick_all :
      (source : Text) (l : List Fields) (set : ImageSet)
      → has_source (pick_all semver files os source l set) image s
        ≡ ((any_values files os path image s l && source == s) || has_source set image s)
  unfolding pick_all any_values
  has_source-pick_all source [] set = refl
  has_source-pick_all source (values ∷ l) set =
      two_steps (any_names files.print_nested os (nodes (obj values)) image)
        (any_values files os path image s l) (source == s) (has_source set image s) _ _
        (has_source-pick_all source l
          (pick_images_from_values_map files.print_nested os source values set))
        (pick_images_from_values_map-nodes files.print_nested os source values set image s)

  values_of_first :
      (v : ChartVersion) (url : Text)
      → first_url v.urls ≡ ok url
      → values_of files os path image s v
        ≡ values_or_none (files.decode_values (join_path path url))
  unfolding values_of
  values_of_first v url e = rw (values_of, e)

module _ {C V : Type 0} (semver : ConstraintPackage C V) (files : ChartFiles) (os : OsType)
    (path : Text) where
  has_source-pick_versions :
      (l : List ChartVersion) (set : ImageSet)
      → All IsPlaced l
      → (set' : ImageSet) × (pick_versions semver files os path l set ≡ ok set')
        × ((image s : Text)
            → has_source set' image s
              ≡ (any_version files os path image s l || has_source set image s))
  unfolding pick_versions any_version
  has_source-pick_versions [] set h = (set, refl, λ image s. refl)
  has_source-pick_versions (v ∷ l) set ((url, e), h) =
      let values = values_or_none (files.decode_values (join_path path url)) in
      let (set', found, counted) =
        has_source-pick_versions l (pick_all semver files os (chart_source path v) values set) h in
      (
        set',
        rw e found,
        λ image s. ground (
          arith,
          counted image s,
          has_source-pick_all semver files os path image s (chart_source path v) values set,
          ap (any_values files os path image s)
              (values_of_first semver files os path image s v url e),
        ),
      )

-- A directory is values without an error when it has an index, the type of the charts is known, and
-- each version that is looked at has a URL and its check has a result. Then a chart version is
-- added as the source of exactly the images that its values name for the system, for the versions
-- that pass the check: of each chart the latest, and all versions of the charts to check. The
-- sources that were there before are kept, and the rest of the chart is unchanged.
pub fetch_from_path-images :
    {C V : Type 0} (semver : ConstraintPackage C V) (files : ChartFiles) (c : Chart)
    (charts : List Text) (entries : List (List ChartVersion))
    → files.build_or_get_index c.path ≡ some entries
    → charts_to_check c.type ≡ ok charts
    → All
        (IsChecked semver files.read_questions c.rancher_version c.path)
        (candidates charts entries)
    → All IsPlaced (candidates charts entries)
    → (set : ImageSet) × (fetch_from_path semver files c ≡ ok (record c { image_set = set }))
      × ((image s : Text)
          → has_source set image s ≡ (
              any_version files c.os c.path image s (
                select
                  (passes semver files.read_questions c.rancher_version c.path)
                  (candidates charts entries))
              || has_source c.image_set image s))
unfolding fetch_from_path
fetch_from_path-images semver files c charts entries e t h hp =
    let kept =
      select (passes semver files.read_questions c.rancher_version c.path)
        (candidates charts entries) in
    let (set, found, counted) = has_source-pick_versions semver files c.os c.path kept c.image_set (
      All-select IsPlaced (passes semver files.read_questions c.rancher_version c.path)
        (candidates charts entries) hp) in
    (
      set,
      rw (
        e,
        admitted_of_index-select semver files.read_questions c.rancher_version c.path c.type charts
            entries t h,
        found,
      ),
      counted,
    )
