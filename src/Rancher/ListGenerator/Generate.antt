-- ===== src/Rancher/ListGenerator/Generate.antt =====
-- pkg/rancher/listgenerator/generator.go: `Generate`.
-- What the program reads from outside: a file, an answer to the n-th request of a URL, with the
-- status and the body (`none` for an error), the KDM data in a text, the charts and the clones.
use image_tools.Prelude.{
  ℕ, Bool, Option, none, some, List, [], ◌∷◌, eqb, if◌then◌else◌, Result, ok, err, ◌>>=◌, Text,
  is_empty,
}
use image_tools.Rancher.ChartImages.{linux, windows}
use image_tools.Rancher.ChartImages.Fetch.{Chart, ChartFiles, GitPackage, fetch_images}
use image_tools.Rancher.ChartImages.Versions.{ConstraintPackage, ChartType}
use image_tools.Rancher.KdmImages.System.{RkePackage}
use image_tools.Rancher.ListGenerator.{
  Generator, GeneratorError, read_failed, decode_failed, delete_failed, http_failed, of_chart, read,
  self_check,
}
use image_tools.Rancher.ListGenerator.Kdm.{KdmData, generate_from_kdm_data}
use image_tools.Utils.ImageSet.{merge_sources}
use image_tools.Utils.Semver.{SemverPackage}

pub record Outside (Images Options : Type 0) : Type 0 where
  pub read_file : Text → Option Text
  pub respond : ℕ → Text → Option (ℕ × Option Text)
  pub from_data : Text → Option (KdmData Images Options)
  pub files : ChartFiles
  pub git : GitPackage
  pub cache_directory : Text
  pub deleted : Bool

module _ {C V Images Options : Type 0} (constraints : ConstraintPackage C V)
    (semver : SemverPackage) (rke : RkePackage Images) (get : Text → Option (ℕ × List Text))
    (world : Outside Images Options) where
  abbrev pub chart_at : Generator → ChartType → Text → Text → Text → Chart
  chart_at g type path url branch = record {
    rancher_version = g.rancher_version;
    os = linux;
    type = type;
    path = path;
    url = url;
    clone_base_dir = [];
    branch = branch;
    image_set = [];
  }

  -- The images for Linux, then for Windows, of the same chart.
  unfoldable pub add_chart : Chart → Generator → Result GeneratorError Generator
  unfolding fetch_images merge_sources
  add_chart c g = do
    for_linux ← of_chart (fetch_images constraints world.files world.git world.cache_directory c)
    for_windows ← of_chart (
        fetch_images constraints world.files world.git world.cache_directory
          (record for_linux { os = windows; image_set = [] }))
    ok (record g {
      generated_linux_images = merge_sources for_linux.image_set g.generated_linux_images;
      generated_windows_images = merge_sources for_windows.image_set g.generated_windows_images;
    })

  unfoldable pub generate_from_chart_paths :
      List (Text × ChartType) → Generator → Result GeneratorError Generator
  unfolding add_chart
  generate_from_chart_paths [] g = ok g
  generate_from_chart_paths ((path, type) ∷ paths) g = do
    g' ← add_chart (chart_at g type path [] []) g
    generate_from_chart_paths paths g'

  -- The clone is deleted after each URL.
  unfoldable pub generate_from_chart_urls :
      List (Text × ChartType × Text) → Generator → Result GeneratorError Generator
  unfolding add_chart
  generate_from_chart_urls [] g = ok g
  generate_from_chart_urls ((url, type, branch) ∷ urls) g = do
    g' ← add_chart (chart_at g type [] url branch) g
    g'' ← (if world.deleted then ok g' else err delete_failed)
    generate_from_chart_urls urls g''

  unfoldable pub generate_from_text : Text → Generator → Result GeneratorError Generator
  unfolding generate_from_kdm_data
  generate_from_text b g = do
    d ← read decode_failed (world.from_data b)
    generate_from_kdm_data semver rke get d g

  unfoldable pub generate_from_kdm_path : Generator → Result GeneratorError Generator
  unfolding generate_from_text
  generate_from_kdm_path g =
      if is_empty g.kdm_path
      then ok g
      else (do b ← read read_failed (world.read_file g.kdm_path); generate_from_text b g)

  unfoldable pub get_http_data : ℕ → Text → Option Text
  get_http_data n link = elim (world.respond n link) [
    | none ↦ none
    | some (status, body) ↦ if eqb status 200 then body else none
  ]

  -- A second request is made when the first one fails.
  unfoldable pub get_twice : Text → Option Text
  unfolding get_http_data
  get_twice link = elim (get_http_data 0 link) [ some b ↦ some b | none ↦ get_http_data 1 link ]

  unfoldable pub generate_from_kdm_url : Generator → Result GeneratorError Generator
  unfolding generate_from_text get_twice
  generate_from_kdm_url g =
      if is_empty g.kdm_url
      then ok g
      else (do b ← read http_failed (get_twice g.kdm_url); generate_from_text b g)

  abbrev pub given {ℓ} : {A : Type ℓ} → Option (List A) → List A
  given none = []
  given (some l) = l

  unfoldable pub generate : Generator → Result GeneratorError Generator
  unfolding self_check generate_from_chart_paths generate_from_chart_urls generate_from_kdm_path
      generate_from_kdm_url
  generate g = do
    g₀ ← self_check semver g
    g₁ ← generate_from_chart_paths (given g₀.charts_paths) g₀
    g₂ ← generate_from_chart_urls (given g₁.chart_urls) g₁
    g₃ ← generate_from_kdm_path g₂
    generate_from_kdm_url g₃
