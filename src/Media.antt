-- ===== src/Media.antt =====
-- What the program uses of the packages containers/image and image-spec: media types, manifests,
-- and the inspection of an image. The functions are fields of a record that the model takes.
use image_tools.Prelude.{ℕ, Bool, Option, List, Text}

-- The media types that the program compares with; `absent` is the empty string.
pub data Mime : Type 0 where
  absent docker_list docker_schema2 docker_schema1 docker_schema1_signed : Mime
  oci_index oci_manifest : Mime
  other : Text → Mime

pub record Platform : Type 0 where
  pub architecture : Text
  pub os : Text
  pub os_version : Text
  pub os_features : List Text
  pub variant : Text

-- An entry of a Docker manifest list.
pub record Descriptor : Type 0 where
  pub media_type : Text
  pub size : ℕ
  pub digest : Text
  pub platform : Platform

-- An entry of an OCI index, whose platform is a pointer that may be nil.
pub record OciDescriptor : Type 0 where
  pub media_type : Text
  pub size : ℕ
  pub digest : Text
  pub platform : Option Platform

-- A layer of a manifest; `urls` is empty unless the layer is on the internet.
pub record Layer : Type 0 where
  pub digest : Text
  pub urls : List Text

-- A single image: the digest of its config, the platform of the config's descriptor, a pointer that
-- may be nil, and its layers, of either manifest format.
pub record Manifest : Type 0 where
  pub config : Text
  pub config_platform : Option Platform
  pub layers : List Layer

-- The sets of `imageSpecSet`.
pub record SpecSet : Type 0 where
  pub os : List Text
  pub arch : List Text
  pub variant : List Text

-- What the program reads of `ImageInspectInfo`.
pub record InspectInfo : Type 0 where
  pub architecture : Text
  pub os : Text
  pub variant : Text

-- What the program asks of an error of the registry.
pub record FetchError : Type 0 where
  pub canceled : Bool
  pub deadline_exceeded : Bool
  pub message : Text

pub data Fetched : Type 0 where
  failed : FetchError → Fetched
  raw : Text → Mime → Fetched

-- A registry and the parsers: the raw manifest of a reference, the digest of a manifest, and what
-- the parsers make of a manifest or config, `none` for an error.
pub record Inspector : Type 0 where
  pub fetch : Text → Fetched
  pub manifest_digest : Text → Option Text
  pub parse_list : Text → Option (List Descriptor)
  pub parse_index : Text → Option (List OciDescriptor)
  pub parse_schema1 : Text → Option (Unit {0})
  pub parse_schema2 : Text → Option Manifest
  pub parse_manifest : Text → Option Manifest
  pub inspect : Text → Option InspectInfo
  pub config : Text → Option Platform

-- The options of a copy: whether digests are kept, and whether the manifest is converted to a
-- Docker manifest of schema 2.
pub record CopyOptions : Type 0 where
  pub preserve_digests : Bool
  pub force_schema2 : Bool

-- What changes while images are copied, as a state: whether a name is a reference, the copier (the
-- source, the destination; `false` for an error), the raw manifests, and `os.Rename`. `encoded` is
-- `Digest.Encoded`; the last two read and print media types.
pub record Remote (S : Type 0) : Type 0 where
  pub is_reference : Text → Bool
  pub copy_image : CopyOptions → Text → Text → S → Bool × S
  pub fetch_from : S → Text → Fetched
  pub rename : Text → Text → S → Bool × S
  pub encoded : Text → Text
  pub read_mime : Text → Mime
  pub print_mime : Mime → Text
