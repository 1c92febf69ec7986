-- ===== src/Tests/Destinations.antt =====
-- Destinations of a registry whose manifests do not parse, and of a small list.
use mathlib.Core.Option
use image_tools.Destination.{Destination, store_manifest}
use image_tools.Destination.Images.{
  unreadable, have_digest-store_manifest, have_digest-manifest_images, allowed_digests,
  spec_digests, image_by_set-manifest_images,
}
use image_tools.Destination.Pushed.{manifest_images-push}
use image_tools.Destination.Queries.{have_digest, list_images, manifest_images, image_by_set}
use image_tools.Manifest.{contain_digest}
use image_tools.Manifest.Push.{push}
use image_tools.Media.{absent, docker_list, Platform, Descriptor, SpecSet, raw, Inspector}
use image_tools.Prelude.{
  ◌≡◌, refl, true, none, some, List, [], ◌∷◌, cons-ne-nil, has, is_missing, ok, Text, codes, ◌==◌,
}
use image_tools.Types.{docker}

abbrev pub platform_of : Text → Platform
platform_of arch = record {
  architecture = arch;
  os = codes "linux";
  os_version = [];
  os_features = [];
  variant = [];
}

abbrev pub two_platforms : List Descriptor
two_platforms =
    record {
      media_type = [];
      size = 7;
      digest = codes "sha256:a";
      platform = platform_of (codes "amd64");
    }
    ∷ record {
      media_type = [];
      size = 8;
      digest = codes "sha256:b";
      platform = platform_of (codes "arm64");
    }
    ∷ []

abbrev pub nginx_destination : Destination
nginx_destination = record {
  image_type = docker;
  directory = [];
  registry = codes "docker.io";
  project = codes "library";
  name = codes "nginx";
  tag = codes "latest";
  reference_name = [];
  mime = absent;
  schema2_list = none;
  oci_index = none;
}

abbrev pub nginx_list : Destination
nginx_list = record nginx_destination { mime = docker_list; schema2_list = some two_platforms }

-- A registry that answers every reference with a manifest that no parser takes.
abbrev pub broken_registry : Inspector
broken_registry = record {
  fetch = λ name. raw (codes "{") docker_list;
  manifest_digest = λ b. some (codes "sha256:c");
  parse_list = λ b. none;
  parse_index = λ b. none;
  parse_schema1 = λ b. none;
  parse_schema2 = λ b. none;
  parse_manifest = λ b. none;
  inspect = λ b. none;
  config = λ b. none;
}

have_digest-store_manifest_example :
    is_missing (
      have_digest
        (store_manifest broken_registry (codes "{") docker_list nginx_destination)
        (codes "sha256:a"))
    ≡ true
unfolding unreadable
have_digest-store_manifest_example =
    have_digest-store_manifest broken_registry (codes "{") (codes "sha256:a") docker_list
      nginx_destination refl refl refl

have_digest-manifest_images_example :
    have_digest nginx_list (codes "sha256:b")
    ≡ some (contain_digest (list_images two_platforms) (codes "sha256:b"))
have_digest-manifest_images_example =
    have_digest-manifest_images nginx_list (codes "sha256:b") (list_images two_platforms)
      (unfold manifest_images in refl) refl

abbrev pub arm_only : SpecSet
arm_only = record { os = []; arch = codes "arm64" ∷ []; variant = [] }

image_by_set-manifest_images_example :
    Option.map (λ image. spec_digests image.images) (image_by_set nginx_list arm_only)
    ≡ some (codes "sha256:b" ∷ [])
unfolding manifest_images allowed_digests has ◌==◌
image_by_set-manifest_images_example = image_by_set-manifest_images nginx_list arm_only

manifest_images-push_example :
    (l : List Descriptor) × (push (list_images two_platforms) ≡ ok l)
    × (nginx_list.schema2_list ≡ some l
        → manifest_images nginx_list ≡ some (list_images two_platforms))
manifest_images-push_example =
    manifest_images-push nginx_list (list_images two_platforms)
      (unfold list_images in cons-ne-nil _ _) refl
