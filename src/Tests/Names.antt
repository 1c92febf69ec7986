-- ===== src/Tests/Names.antt =====
-- pkg/utils/utils_test.go and further names.
use image_tools.Prelude.{
  ◌≡◌, refl, none, some, [], ◌∷◌, ◌++◌, cons-ne-nil, arith, Text, codes, ◌==◌, contains,
  contains_any, split, join, non_empty,
}
use image_tools.Utils.ImageName.{
  colon, parts, is_registry, construct_registry, replace_project_name, get_project_name,
  get_registry_name, get_image_name, get_image_tag, full_name,
}
use image_tools.Utils.ImageName.Rewrite.{get_names-replace_project_name}
use image_tools.Utils.ImageName.RoundTrip.{get_names-full_name, get_image_tag-port}

project_tests :
    (get_project_name (codes "nginx") ≡ codes "library")
    × (get_project_name (codes "docker.io/nginx") ≡ codes "library")
    × (get_project_name (codes "user/nginx") ≡ codes "user")
    × (get_project_name (codes "docker.io/user/nginx") ≡ codes "user")
unfolding get_project_name split non_empty is_registry contains_any ◌==◌ contains
project_tests = (refl, refl, refl, refl)

tag_tests :
    (get_image_tag (codes "nginx") ≡ codes "latest")
    × (get_image_tag (codes "library/nginx:1.22") ≡ codes "1.22")
    × (get_image_tag (codes "localhost:5000/nginx") ≡ codes "5000/nginx")
unfolding get_image_tag split non_empty
tag_tests = (refl, refl, refl)

construct_tests :
    (construct_registry (codes "nginx") [] ≡ some (codes "docker.io/nginx"))
    × (construct_registry (codes "custom.io/nginx") (codes "private.io")
        ≡ some (codes "private.io/nginx"))
    × (construct_registry [] [] ≡ none)
unfolding construct_registry split non_empty is_registry contains_any contains ◌==◌ join
construct_tests = (refl, refl, refl)

abbrev with_port : Text
with_port = full_name (codes "reg.io:5000") (codes "user") (codes "nginx") (codes "1.22")

get_names-full_name_example :
    (get_registry_name with_port ≡ codes "reg.io:5000")
    × (get_project_name with_port ≡ codes "user")
    × (get_image_name with_port ≡ codes "nginx")
get_names-full_name_example =
    get_names-full_name (codes "reg.io:5000") (codes "user") (codes "nginx") (codes "1.22")
      (cons-ne-nil _ _, omega arith) (cons-ne-nil _ _, omega arith) (omega arith) (omega arith)
      (omega arith)

get_image_tag-port_example :
    get_image_tag (
      full_name
        (codes "localhost" ++ colon ∷ codes "5000")
        (codes "user")
        (codes "nginx")
        (codes "1.22"))
    ≡ codes "latest"
get_image_tag-port_example =
    get_image_tag-port (codes "localhost") (codes "5000") (codes "user") (codes "nginx")
      (codes "1.22") (cons-ne-nil _ _, omega arith) (omega arith) (omega arith) (omega arith)
      (cons-ne-nil _ _, omega arith)

two_parts : parts (codes "user/nginx") ≡ codes "user" ∷ codes "nginx" ∷ []
unfolding parts split non_empty
two_parts = refl

get_names-replace_project_name_example :
    (get_project_name (replace_project_name (codes "user/nginx") (codes "team")) ≡ codes "team")
    × (get_registry_name (replace_project_name (codes "user/nginx") (codes "team"))
        ≡ get_registry_name (codes "user/nginx"))
    × (get_image_name (replace_project_name (codes "user/nginx") (codes "team"))
        ≡ get_image_name (codes "user/nginx"))
get_names-replace_project_name_example =
    get_names-replace_project_name (codes "user/nginx") (codes "team")
      (cons-ne-nil _ _, omega arith) (unfold is_registry contains_any contains ◌==◌ in refl)
      (rw two_parts (omega arith)) (rw two_parts (omega arith))
