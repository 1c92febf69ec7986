-- ===== src/Destination.antt =====
-- pkg/destination/destination.go: the image that is copied to.
pub mod Queries
pub mod Names
pub mod Images
pub mod Pushed
use image_tools.Media.{
  Mime, absent, docker_list, Descriptor, OciDescriptor, FetchError, failed, raw, Inspector,
}
use image_tools.Prelude.{
  Bool, true, false, ◌||◌, Option, none, some, List, [], ◌++◌, if◌then◌else◌, Result, ok, err,
  ◌>>=◌, Text, codes, is_empty, contains_text,
}
use image_tools.Types.{
  ImageType, docker, docker_daemon, oci, dir, transport, ImageError, invalid_type, fetch_failed,
}
use image_tools.Utils.ImageName.{full_name}

-- `schema2_list` and `oci_index` are pointers, `none` for nil.
pub record Destination : Type 0 where
  pub image_type : ImageType
  pub directory : Text
  pub registry : Text
  pub project : Text
  pub name : Text
  pub tag : Text
  pub reference_name : Text
  pub mime : Mime
  pub schema2_list : Option (List Descriptor)
  pub oci_index : Option (List OciDescriptor)

pub record DestinationOption : Type 0 where
  pub image_type : ImageType
  pub directory : Text
  pub registry : Text
  pub project : Text
  pub name : Text
  pub tag : Text

abbrev pub or_default : Text → Text → Text
or_default s d = if is_empty s then d else s

unfoldable pub from_dir : DestinationOption → Destination
from_dir o = record {
  image_type = o.image_type;
  directory = o.directory;
  registry = [];
  project = [];
  name = [];
  tag = o.tag;
  reference_name = [];
  mime = absent;
  schema2_list = none;
  oci_index = none;
}

unfoldable pub from_docker : DestinationOption → Destination
from_docker o = record {
  image_type = o.image_type;
  directory = [];
  registry = or_default o.registry (codes "docker.io");
  project = or_default o.project (codes "library");
  name = o.name;
  tag = or_default o.tag (codes "latest");
  reference_name = [];
  mime = absent;
  schema2_list = none;
  oci_index = none;
}

-- The constructors check the type again, which the dispatch has made sure of.
unfoldable pub construct : ImageType → DestinationOption → Result ImageError Destination
unfolding from_dir from_docker
construct docker o = ok (from_docker o)
construct docker_daemon o = ok (from_docker o)
construct oci o = ok (from_dir o)
construct dir o = ok (from_dir o)
construct t o = err invalid_type

unfoldable pub new_destination : DestinationOption → Result ImageError Destination
unfolding construct
new_destination o = construct o.image_type o

-- The name that `initReferenceName` prints for each type.
unfoldable pub printed_name : ImageType → Destination → Result ImageError Text
unfolding full_name transport
printed_name docker d = ok (transport docker ++ full_name d.registry d.project d.name d.tag)
printed_name docker_daemon d =
    ok (transport docker_daemon ++ full_name d.registry d.project d.name d.tag)
printed_name dir d = ok (transport dir ++ d.directory)
printed_name oci d = ok (transport oci ++ d.directory)
printed_name t d = err invalid_type

unfoldable pub init_reference_name : Destination → Result ImageError Destination
unfolding printed_name
init_reference_name d = do
  name ← printed_name d.image_type d
  ok (record d { reference_name = name })

-- What `initManifest` stores of a raw manifest. The media type is stored before the parser runs,
-- and `Init` ignores the error of the parser, which is none of those that it returns.
unfoldable pub store_manifest : Inspector → Text → Mime → Destination → Destination
store_manifest registry b docker_list d = elim (registry.parse_list b) [
  | none ↦ record d { mime = docker_list }
  | some l ↦ record d { mime = docker_list; schema2_list = some l }
]
store_manifest registry b Mime.oci_index d = elim (registry.parse_index b) [
  | none ↦ record d { mime = Mime.oci_index }
  | some l ↦ record d { mime = Mime.oci_index; oci_index = some l }
]
store_manifest registry b mime d = record d { mime = mime }

-- The errors that `Init` does not ignore.
unfoldable pub is_fatal : FetchError → Bool
unfolding contains_text
is_fatal e = e.canceled || e.deadline_exceeded || contains_text e.message (codes "timeout")

unfoldable pub init_manifest : Inspector → Destination → Result ImageError Destination
unfolding store_manifest is_fatal
init_manifest registry d = elim (registry.fetch d.reference_name) [
  | failed e ↦ if is_fatal e then err (fetch_failed e) else ok d
  | raw b mime ↦ ok (store_manifest registry b mime d)
]

unfoldable pub init : Inspector → Destination → Result ImageError Destination
unfolding init_reference_name init_manifest
init registry d = do named ← init_reference_name d; init_manifest registry named

unfoldable pub exists : Destination → Bool
exists d = elim d.mime [ absent ↦ false | _ ↦ true ]
