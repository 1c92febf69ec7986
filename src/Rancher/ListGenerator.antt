-- ===== src/Rancher/ListGenerator.antt =====
-- pkg/rancher/listgenerator/generator.go: the lists of the images of a Rancher version.
pub mod Kdm
pub mod Generate
pub mod Sources
use image_tools.Prelude.{
  Bool, not, ◌||◌, Option, none, some, List, ◌∷◌, if◌then◌else◌, is_missing, Result, ok, err, Text,
  codes, is_empty, strip_prefix,
}
use image_tools.Rancher.ChartImages.Versions.{ChartError, ChartType}
use image_tools.Rancher.KdmImages.{KdmError}
use image_tools.Utils.ImageSet.{ImageSet}
use image_tools.Utils.Semver.{SemverPackage}

-- The maps with the keys of the charts are `none` for a nil map; a URL has a type and a branch.
pub record Generator : Type 0 where
  pub rancher_version : Text
  pub min_kube_version : Text
  pub charts_paths : Option (List (Text × ChartType))
  pub chart_urls : Option (List (Text × ChartType × Text))
  pub kdm_path : Text
  pub kdm_url : Text
  pub generated_linux_images : ImageSet
  pub generated_windows_images : ImageSet

pub data GeneratorError : Type 0 where
  rancher_version_is_empty no_input read_failed decode_failed delete_failed http_failed :
      GeneratorError
  not_valid : Text → GeneratorError
  chart_failed : ChartError → GeneratorError
  kdm_failed : KdmError → GeneratorError

abbrev pub of_chart {ℓ} : {A : Type ℓ} → Result ChartError A → Result GeneratorError A
of_chart (ok a) = ok a
of_chart (err e) = err (chart_failed e)

abbrev pub of_kdm {ℓ} : {A : Type ℓ} → Result KdmError A → Result GeneratorError A
of_kdm (ok a) = ok a
of_kdm (err e) = err (kdm_failed e)

abbrev pub read {ℓ} : {A : Type ℓ} → GeneratorError → Option A → Result GeneratorError A
read e none = err e
read e (some a) = ok a

module _ (semver : SemverPackage) where
  -- The Rancher version gets its "v".
  unfoldable pub with_v : Text → Text
  unfolding strip_prefix
  with_v version = if is_missing (strip_prefix version (codes "v")) then b'v' ∷ version else version

  unfoldable pub has_input : Generator → Bool
  has_input g =
      not (is_missing g.chart_urls)
      || not (is_missing g.charts_paths)
      || not (is_empty g.kdm_path)
      || not (is_empty g.kdm_url)

  unfoldable pub self_check : Generator → Result GeneratorError Generator
  unfolding with_v has_input
  self_check g =
      if is_empty g.rancher_version
      then err rancher_version_is_empty
      else if not (semver.is_valid (with_v g.rancher_version))
      then err (not_valid (with_v g.rancher_version))
      else if not (has_input g)
      then err no_input
      else ok (record g { rancher_version = with_v g.rancher_version })
