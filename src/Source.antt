-- ===== src/Source.antt =====
-- pkg/source/source.go: the image that is copied.
pub mod Load
pub mod Copy
pub mod Single
pub mod Outcomes
pub mod Records
pub mod Panics
pub mod Platforms
use image_tools.Destination.{or_default}
use image_tools.Hangar.Archive.Index.{ImageSpec}
use image_tools.Media.{Mime, absent, Platform, Descriptor, OciDescriptor, Manifest, InspectInfo}
use image_tools.Prelude.{
  ◌&&◌, Option, none, List, [], ◌∷◌, ◌++◌, if◌then◌else◌, Result, ok, err, ◌>>=◌, Text, codes,
  is_empty,
}
use image_tools.Types.{
  ImageType, undefined, docker, docker_daemon, docker_archive, oci, dir, transport, ImageError,
  invalid_type,
}
use image_tools.Utils.ImageName.{slash, colon, full_name}

-- Pointers are options, `none` for nil.
pub record Source : Type 0 where
  pub image_type : ImageType
  pub directory : Text
  pub registry : Text
  pub project : Text
  pub name : Text
  pub tag : Text
  pub digest : Text
  pub reference_name : Text
  pub mime : Mime
  pub schema2_list : Option (List Descriptor)
  pub schema2 : Option Manifest
  pub inspect_info : Option InspectInfo
  pub oci_config : Option Platform
  pub oci_index : Option (List OciDescriptor)
  pub oci_manifest : Option Manifest
  pub manifest_digest : Text
  pub copied_list : List ImageSpec
  pub copied_arch : List Text
  pub copied_os : List Text

pub record SourceOption : Type 0 where
  pub image_type : ImageType
  pub directory : Text
  pub registry : Text
  pub project : Text
  pub name : Text
  pub tag : Text
  pub digest : Text

abbrev pub empty_source : Source
empty_source = record {
  image_type = undefined;
  directory = [];
  registry = [];
  project = [];
  name = [];
  tag = [];
  digest = [];
  reference_name = [];
  mime = absent;
  schema2_list = none;
  schema2 = none;
  inspect_info = none;
  oci_config = none;
  oci_index = none;
  oci_manifest = none;
  manifest_digest = [];
  copied_list = [];
  copied_arch = [];
  copied_os = [];
}

-- `newSourceFromDocker`: a digest stands in for a missing tag.
unfoldable pub docker_source : SourceOption → Source
docker_source o = record empty_source {
  image_type = o.image_type;
  registry = or_default o.registry (codes "docker.io");
  project = or_default o.project (codes "library");
  name = o.name;
  tag = if is_empty o.tag && is_empty o.digest then codes "latest" else o.tag;
  digest = if is_empty o.tag then o.digest else [];
}

unfoldable pub daemon_source : SourceOption → Source
daemon_source o = record empty_source {
  image_type = o.image_type;
  registry = or_default o.registry (codes "docker.io");
  project = or_default o.project (codes "library");
  name = o.name;
  tag = or_default o.tag (codes "latest");
}

unfoldable pub archive_source : SourceOption → Source
archive_source o = record empty_source {
  image_type = o.image_type;
  directory = o.directory;
  registry = o.registry;
  project = o.project;
  name = o.name;
  tag = or_default o.tag (codes "latest");
}

unfoldable pub source_of_type : ImageType → SourceOption → Result ImageError Source
unfolding docker_source daemon_source archive_source
source_of_type docker o = ok (docker_source o)
source_of_type docker_archive o = ok (archive_source o)
source_of_type docker_daemon o = ok (daemon_source o)
source_of_type oci o =
    ok (record empty_source { image_type = o.image_type; directory = o.directory; tag = o.tag })
source_of_type dir o =
    ok (record empty_source { image_type = o.image_type; directory = o.directory })
source_of_type t o = err invalid_type

unfoldable pub new_source : SourceOption → Result ImageError Source
unfolding source_of_type
new_source o = source_of_type o.image_type o

-- The name by digest, without its transport.
abbrev pub digest_name : Source → Text → Text
digest_name s d = s.registry ++ slash ∷ (s.project ++ slash ∷ (s.name ++ b'@' ∷ d))

-- The name that `initReferenceName` prints for each type.
unfoldable pub source_name : ImageType → Source → Result ImageError Text
unfolding transport full_name
source_name docker s = ok (
    if is_empty s.tag
    then transport docker ++ digest_name s s.digest
    else transport docker ++ full_name s.registry s.project s.name s.tag)
source_name docker_archive s = ok (
    transport docker_archive
    ++ (s.directory ++ colon ∷ full_name s.registry s.project s.name s.tag))
source_name docker_daemon s =
    ok (transport docker_daemon ++ full_name s.registry s.project s.name s.tag)
source_name dir s = ok (transport dir ++ s.directory)
source_name oci s = ok (transport oci ++ s.directory)
source_name t s = err invalid_type

unfoldable pub name_source : Source → Result ImageError Source
unfolding source_name
name_source s = do name ← source_name s.image_type s; ok (record s { reference_name = name })
