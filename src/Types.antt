-- ===== src/Types.antt =====
-- pkg/types/types.go: the types of images.
use image_tools.Media.{Mime, FetchError}
use image_tools.Prelude.{[], Text, codes}

pub data ImageType : Type 0 where
  undefined docker docker_daemon docker_archive oci dir hangar_archive : ImageType

unfoldable pub type_name : ImageType → Text
type_name docker = codes "docker"
type_name docker_daemon = codes "docker-daemon"
type_name docker_archive = codes "docker-archive"
type_name oci = codes "oci"
type_name dir = codes "dir"
type_name t = codes "undefined"

unfoldable pub transport : ImageType → Text
transport docker = codes "docker://"
transport docker_daemon = codes "docker-daemon://"
transport docker_archive = codes "docker-archive:"
transport oci = codes "oci:"
transport dir = codes "dir:"
transport t = []

-- The errors that the constructors and the initialisers tell apart.
pub data ImageError : Type 0 where
  invalid_type : ImageError
  unsupported_mime : Mime → ImageError
  invalid_reference : ImageError
  fetch_failed : FetchError → ImageError
  malformed : ImageError
  no_available_image : ImageError
  copy_failed : ImageError
