-- ===== src/Hangar/Mirrorer/Lines.antt =====
-- pkg/hangar/mirrorer.go: the object that a mirror line stands for.
use image_tools.Destination.{from_docker}
use image_tools.Hangar.Mirrorer.{MirrorerOptions, MirrorObject, source_option, destination_option}
use image_tools.Prelude.{Text}
use image_tools.Source.{docker_source}

-- The object for names and a tag.
object : MirrorerOptions → Text → Text → Text → Text → MirrorObject
object o line from to t = record {
  image = line;
  source = docker_source (source_option o from t);
  destination = from_docker (destination_option o to t);
}
