-- ===== src/Tests/Sources.antt =====
-- Sources copied by a copier that always succeeds.
use mathlib.Core.Option
use image_tools.Destination.Queries.{have_digest_at, have_digest}
use image_tools.Media.{Mime, docker_list, docker_schema2, Manifest, raw, Inspector, Remote}
use image_tools.Prelude.{
  ℕ, suc, ◌≡◌, refl, ◌↔◌, true, false, none, some, [], ◌∷◌, map, has, is_missing, Holds, ok, err,
  codes, ◌==◌,
}
use image_tools.Source.{Source, empty_source}
use image_tools.Source.Load.{load, source_image_by_set}
use image_tools.Source.Outcomes.{selected, Answers, copy_source-no_available_image}
use image_tools.Source.Panics.{unplaced, source_image_by_set-load}
use image_tools.Source.Platforms.{
  spec_platform, is_wanted, wanted_platforms, copy_source-wanted_platforms,
}
use image_tools.Source.Records.{IsRecorded}
use image_tools.Source.Records.Copies.{copy_source-IsRecorded}
use image_tools.Source.Single.{Copied, copy_at, copy_source}
use image_tools.Tests.Destinations.{
  platform_of, two_platforms, nginx_destination, broken_registry, arm_only,
}
use image_tools.Types.{docker, no_available_image}

-- The world is the number of copies.
abbrev pub good_remote : Remote ℕ
good_remote = record {
  is_reference = λ s. true;
  copy_image = λ o s d n. (true, suc n);
  fetch_from = λ n s. raw (codes "{}") docker_schema2;
  rename = λ s d n. (true, n);
  encoded = λ s. s;
  read_mime = λ s. docker_schema2;
  print_mime = λ m. [];
}

abbrev pub one_layer : Manifest
one_layer = record {
  config = codes "sha256:f";
  config_platform = none;
  layers = record { digest = codes "sha256:e"; urls = [] } ∷ [];
}

abbrev good_registry : Inspector
good_registry = record broken_registry {
  parse_list = λ b. some two_platforms;
  parse_schema2 = λ b. some one_layer;
  parse_manifest = λ b. some one_layer;
  config = λ b. some (platform_of (codes "amd64"));
}

abbrev pub nginx_source : Source
nginx_source = record empty_source {
  image_type = docker;
  registry = codes "docker.io";
  project = codes "library";
  name = codes "nginx";
  tag = codes "latest";
  mime = docker_list;
  schema2_list = some two_platforms;
}

fresh_answers : Answers good_remote good_registry arm_only nginx_destination
unfolding have_digest have_digest_at
fresh_answers [] = (false, refl)
fresh_answers (c ∷ k) = (false, refl)

copy_source-no_available_image_example :
    (c : Copied ℕ) × (copy_source good_remote good_registry arm_only nginx_destination nginx_source
        0
      ≡ some c)
    × ((c.outcome ≡ err no_available_image) ↔ (selected arm_only two_platforms ≡ []))
copy_source-no_available_image_example =
    copy_source-no_available_image good_remote good_registry arm_only nginx_destination nginx_source
      0 two_platforms refl refl fresh_answers

copy_source-wanted_platforms_example :
    (c : Copied ℕ) × (copy_source good_remote good_registry arm_only nginx_destination nginx_source
        0
      ≡ some c)
    × (c.outcome ≡ ok tt
        → map spec_platform c.source.copied_list ≡ platform_of (codes "arm64") ∷ [])
unfolding wanted_platforms is_wanted has ◌==◌
copy_source-wanted_platforms_example =
    copy_source-wanted_platforms good_remote good_registry arm_only nginx_destination nginx_source 0
      two_platforms refl refl refl fresh_answers

fresh_IsRecorded : IsRecorded nginx_source
fresh_IsRecorded = record { by_arch = λ k. refl; by_os = λ k. refl }

copy_source-IsRecorded_example :
    Holds
      (λ c. IsRecorded c.source)
      (copy_source good_remote good_registry arm_only nginx_destination nginx_source 0)
copy_source-IsRecorded_example =
    copy_source-IsRecorded good_remote good_registry arm_only nginx_destination nginx_source 0
      fresh_IsRecorded

abbrev oci_source : Source
oci_source = record nginx_source {
  mime = Mime.oci_manifest;
  oci_manifest = some one_layer;
  oci_config = some (platform_of (codes "amd64"));
}

source_image_by_set-load_example : is_missing (source_image_by_set oci_source arm_only) ≡ true
unfolding unplaced is_missing
source_image_by_set-load_example =
    source_image_by_set-load good_registry (codes "{}") Mime.oci_manifest nginx_source oci_source
      arm_only (unfold load in refl)

copied_arm_only :
    Option.map
      (λ c. c.world)
      (copy_source good_remote good_registry arm_only nginx_destination nginx_source 0)
    ≡ some 1
unfolding copy_source copy_at Option.bind have_digest has ◌==◌
copied_arm_only = refl
