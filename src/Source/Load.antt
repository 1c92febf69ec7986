-- ===== src/Source/Load.antt =====
-- pkg/source/source.go: reading the manifest of the source, and its images by sets.
use mathlib.Core.Option
use image_tools.Destination.Queries.{no_image, take_image, list_by_set, index_by_set}
use image_tools.Hangar.Archive.Index.{Image}
use image_tools.Media.{
  Mime, docker_list, docker_schema2, docker_schema1, docker_schema1_signed, Platform, SpecSet,
  InspectInfo, failed, raw, Inspector,
}
use image_tools.Prelude.{Option, none, some, [], Result, ok, err, ◌>>=◌, Text}
use image_tools.Source.{Source, name_source}
use image_tools.Types.{ImageError, unsupported_mime, fetch_failed, malformed}

-- A parser's error.
abbrev pub or_malformed {ℓ} : {A : Type ℓ} → Option A → Result ImageError A
or_malformed none = err malformed
or_malformed (some a) = ok a

-- The switch of `initManifest`. A source whose initialisation fails is not used, so its state then
-- is left out.
unfoldable pub load : Inspector → Text → Mime → Source → Result ImageError Source
load registry b docker_list s = do
  l ← or_malformed (registry.parse_list b)
  ok (record s { schema2_list = some l })
load registry b docker_schema2 s = do
  m ← or_malformed (registry.parse_schema2 b)
  info ← or_malformed (registry.inspect s.reference_name)
  config ← or_malformed (registry.config s.reference_name)
  ok (record s { schema2 = some m; inspect_info = some info; oci_config = some config })
load registry b docker_schema1 s = do
  m ← or_malformed (registry.parse_schema1 b)
  info ← or_malformed (registry.inspect s.reference_name)
  ok (record s { inspect_info = some info })
load registry b docker_schema1_signed s = do
  m ← or_malformed (registry.parse_schema1 b)
  info ← or_malformed (registry.inspect s.reference_name)
  ok (record s { inspect_info = some info })
load registry b Mime.oci_index s = do
  l ← or_malformed (registry.parse_index b)
  ok (record s { oci_index = some l })
load registry b Mime.oci_manifest s = do
  m ← or_malformed (registry.parse_manifest b)
  config ← or_malformed (registry.config s.reference_name)
  ok (record s { oci_manifest = some m; oci_config = some config })
load registry b mime s = err (unsupported_mime mime)

unfoldable pub load_manifest : Inspector → Source → Result ImageError Source
unfolding load
load_manifest registry s = elim (registry.fetch s.reference_name) [
  | failed e ↦ err (fetch_failed e)
  | raw b mime ↦ do
    d ← or_malformed (registry.manifest_digest b)
    load registry b mime (record s { manifest_digest = d; mime = mime })
]

unfoldable pub init_source : Inspector → Source → Result ImageError Source
unfolding name_source load_manifest
init_source registry s = do named ← name_source s; load_manifest registry named

-- The platform of an image of schema 1, of which only three fields are known.
abbrev pub info_platform : InspectInfo → Platform
info_platform i = record {
  architecture = i.architecture;
  os = i.os;
  os_version = [];
  os_features = [];
  variant = i.variant;
}

-- The body that the branches for single images share.
abbrev pub take_single : SpecSet → Text → Option Platform → Option Image
take_single set d none = none
take_single set d (some p) = some (take_image set p d no_image)

unfoldable pub source_image_at : Mime → Source → SpecSet → Option Image
unfolding list_by_set index_by_set take_image
source_image_at docker_list s set = Option.map (λ l. list_by_set set l no_image) s.schema2_list
source_image_at docker_schema2 s set = take_single set s.manifest_digest s.oci_config
source_image_at docker_schema1 s set =
    take_single set s.manifest_digest (Option.map info_platform s.inspect_info)
source_image_at docker_schema1_signed s set =
    take_single set s.manifest_digest (Option.map info_platform s.inspect_info)
source_image_at Mime.oci_index s set = Option.bind s.oci_index (λ l. index_by_set set l no_image)
source_image_at Mime.oci_manifest s set =
    take_single set s.manifest_digest (Option.bind s.oci_manifest (λ m. m.config_platform))
source_image_at mime s set = some no_image

-- `Source.ImageBySet`, `none` for the panic on a nil pointer.
unfoldable pub source_image_by_set : Source → SpecSet → Option Image
unfolding source_image_at
source_image_by_set s set = source_image_at s.mime s set
