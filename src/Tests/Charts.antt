-- ===== src/Tests/Charts.antt =====
-- The values of a chart and a directory of charts.
use image_tools.Prelude.{
  ◌≡◌, refl, true, false, ◌&&◌, ◌||◌, Option, none, some, List, [], ◌∷◌, eqb, if◌then◌else◌, has,
  select, All, ok, Text, codes, ◌==◌,
}
use image_tools.Rancher.ChartImages.{linux, windows, pick_images_from_values_map}
use image_tools.Rancher.ChartImages.Fetch.{Chart, ChartFiles, fetch_from_path}
use image_tools.Rancher.ChartImages.Fetched.{any_version, fetch_from_path-images}
use image_tools.Rancher.ChartImages.Nodes.{nodes, any_names, pick_images_from_values_map-nodes}
use image_tools.Rancher.ChartImages.Selection.{
  IsPlaced, candidates, IsChecked, passes, admitted_of_index-select,
}
use image_tools.Rancher.ChartImages.Versions.{
  ConstraintPackage, ChartVersion, not_exist, system, system_charts_to_check, charts_to_check,
  check_constraint, admitted_of_index,
}
use image_tools.Rancher.Values.{Value, str, scalar, obj, Fields, end, field}
use image_tools.Utils.ImageSet.{ImageSet, has_source}

abbrev values : Fields
values =
    field (some (codes "image"))
      (obj (
        field (some (codes "repository")) (str (codes "rancher/a"))
          (field (some (codes "tag")) (str (codes "v1")) end)))
      (field (some (codes "windows"))
        (obj (
          field (some (codes "repository")) (str (codes "rancher/w")) (
            field (some (codes "tag")) (scalar (codes "float64") (codes "1.5"))
              (field (some (codes "os")) (str (codes "windows, Linux")) end))))
        end)

abbrev no_print : Value → Text
no_print v = []

picked_tests :
    (pick_images_from_values_map no_print linux (codes "s") values []
      ≡ (codes "rancher/a:v1", codes "s" ∷ [])
        ∷ (codes "rancher/w:%!s(float64=1.5)", codes "s" ∷ [])
        ∷ [])
    × (pick_images_from_values_map no_print windows (codes "s") values []
        ≡ (codes "rancher/w:%!s(float64=1.5)", codes "s" ∷ []) ∷ [])
unfolding pick_images_from_values_map
picked_tests = (refl, refl)

pick_images_from_values_map-nodes_example :
    has_source
      (pick_images_from_values_map no_print linux (codes "s") values [])
      (codes "rancher/a:v1")
      (codes "s")
    ≡ ((any_names no_print linux (nodes (obj values)) (codes "rancher/a:v1")
          && codes "s" == codes "s")
        || has_source [] (codes "rancher/a:v1") (codes "s"))
pick_images_from_values_map-nodes_example =
    pick_images_from_values_map-nodes no_print linux (codes "s") values [] (codes "rancher/a:v1")
      (codes "s")

-- Constraints are texts, and a version satisfies the constraint that it is.
abbrev constraints : ConstraintPackage Text Text
constraints = record {
  new_constraint = λ s. some s;
  new_version = λ s. some s;
  major = λ v. 2;
  minor = λ v. 7;
  patch = λ v. 99;
  release = λ a b c. if eqb c 98 then some (codes "2.7.98") else none;
  check = λ c v. c == v;
}

abbrev version_of_a : Option Text → ChartVersion
version_of_a annotation = record {
  name = codes "a";
  version = codes "1";
  annotation = annotation;
  urls = codes "a-1" ∷ [];
}

abbrev files : ChartFiles
files = record {
  build_or_get_index = λ p. some (
      (version_of_a none ∷ [])
      ∷ (version_of_a (some (codes "2.7.98")) ∷ [])
      ∷ (version_of_a (some (codes "2.8")) ∷ [])
      ∷ []);
  decode_values = λ p. some (values ∷ []);
  read_questions = λ p. not_exist;
  print_nested = no_print;
}

abbrev chart : Chart
chart = record {
  rancher_version = codes "2.7.99";
  os = linux;
  type = system;
  path = codes "p";
  url = [];
  clone_base_dir = [];
  branch = [];
  image_set = [];
}

abbrev index : List (List ChartVersion)
index =
    (version_of_a none ∷ [])
    ∷ (version_of_a (some (codes "2.7.98")) ∷ [])
    ∷ (version_of_a (some (codes "2.8")) ∷ [])
    ∷ []

All-IsChecked :
    All
      (IsChecked constraints files.read_questions (codes "2.7.99") (codes "p"))
      (candidates system_charts_to_check index)
unfolding check_constraint candidates has ◌==◌
All-IsChecked = ((true, refl), ((true, refl), ((false, refl), tt)))

All-IsPlaced : All IsPlaced (candidates system_charts_to_check index)
unfolding candidates has ◌==◌
All-IsPlaced = ((codes "a-1", refl), ((codes "a-1", refl), ((codes "a-1", refl), tt)))

system_known : charts_to_check system ≡ ok system_charts_to_check
unfolding charts_to_check
system_known = refl

admitted_of_index-select_example :
    admitted_of_index constraints files.read_questions system (codes "2.7.99") (codes "p") index
    ≡ ok (
        select
          (passes constraints files.read_questions (codes "2.7.99") (codes "p"))
          (candidates system_charts_to_check index))
admitted_of_index-select_example =
    admitted_of_index-select constraints files.read_questions (codes "2.7.99") (codes "p") system
      system_charts_to_check index system_known All-IsChecked

fetch_from_path-images_example :
    (set : ImageSet) × (fetch_from_path constraints files chart
      ≡ ok (record chart { image_set = set }))
    × ((image s : Text)
        → has_source set image s ≡ (
            any_version files linux (codes "p") image s (
              select
                (passes constraints files.read_questions (codes "2.7.99") (codes "p"))
                (candidates system_charts_to_check index))
            || has_source [] image s))
fetch_from_path-images_example =
    fetch_from_path-images constraints files chart system_charts_to_check index refl system_known
      All-IsChecked All-IsPlaced
