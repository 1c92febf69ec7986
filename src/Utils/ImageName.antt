-- ===== src/Utils/ImageName.antt =====
-- pkg/utils/utils.go: the functions that take an image name apart and put it together again.
pub mod RoundTrip
pub mod Rewrite
use image_tools.Prelude.{
  ℕ, Bool, ◌||◌, Option, none, some, List, [], ◌∷◌, ◌++◌, if◌then◌else◌, Text, codes, ◌==◌,
  is_empty, contains, contains_any, split, join, non_empty,
}

abbrev pub slash : ℕ
slash = b'/'

abbrev pub colon : ℕ
colon = b':'

abbrev pub docker_hub_registry : Text
docker_hub_registry = codes "docker.io"

-- The loop over `strings.Split(image, "/")` with which each of the functions starts.
unfoldable pub parts : Text → List Text
parts image = non_empty (split image slash)

-- The test that tells a registry from a project.
unfoldable pub is_registry : Text → Bool
is_registry s = contains_any s (codes ".:") || s == codes "localhost"

-- `none` is the panic of `s[0]` on a name with no part.
unfoldable pub with_registry : Text → List Text → Option Text
with_registry override [] = none
with_registry override (s ∷ ss) =
    if is_registry s
    then some (join (if is_empty override then s ∷ ss else override ∷ ss) slash)
    else some (join ((if is_empty override then docker_hub_registry else override) ∷ s ∷ ss) slash)

unfoldable pub construct_registry : Text → Text → Option Text
unfolding with_registry parts
construct_registry image override = with_registry override (parts image)

unfoldable pub replace_project : Text → List Text → List Text
replace_project project (a ∷ []) = if is_empty project then a ∷ [] else project ∷ a ∷ []
replace_project project (a ∷ b ∷ []) =
    if is_registry a
    then if is_empty project then a ∷ b ∷ [] else a ∷ project ∷ b ∷ []
    else if is_empty project
    then b ∷ []
    else project ∷ b ∷ []
replace_project project (a ∷ b ∷ c ∷ []) =
    if is_empty project then a ∷ c ∷ [] else a ∷ project ∷ c ∷ []
replace_project project s = s

unfoldable pub replace_project_name : Text → Text → Text
unfolding replace_project parts
replace_project_name image project = join (replace_project project (parts image)) slash

unfoldable pub project_of : List Text → Text
project_of (a ∷ b ∷ []) = if is_registry a then codes "library" else a
project_of (a ∷ b ∷ c ∷ []) = b
project_of s = codes "library"

unfoldable pub get_project_name : Text → Text
unfolding project_of parts
get_project_name image = project_of (parts image)

unfoldable pub registry_of : List Text → Text
registry_of (a ∷ b ∷ []) = if is_registry a then a else docker_hub_registry
registry_of (a ∷ b ∷ c ∷ []) = a
registry_of s = docker_hub_registry

unfoldable pub get_registry_name : Text → Text
unfolding registry_of parts
get_registry_name image = registry_of (parts image)

-- `l[0]` of a split, which has at least one part.
abbrev first_part : List Text → Text
first_part [] = []
first_part (p ∷ ps) = p

-- What stands before the first colon.
unfoldable pub before_colon : Text → Text
before_colon s = if contains s colon then first_part (split s colon) else s

unfoldable pub image_name_of : List Text → Text
unfolding before_colon
image_name_of (a ∷ []) = before_colon a
image_name_of (a ∷ b ∷ []) = before_colon b
image_name_of (a ∷ b ∷ c ∷ []) = before_colon c
image_name_of s = []

unfoldable pub get_image_name : Text → Text
unfolding image_name_of parts
get_image_name image = image_name_of (parts image)

unfoldable pub tag_of : List Text → Text
tag_of (a ∷ b ∷ []) = b
tag_of s = codes "latest"

unfoldable pub get_image_tag : Text → Text
unfolding tag_of
get_image_tag image = tag_of (non_empty (split image colon))

-- `fmt.Sprintf("%s/%s/%s:%s", registry, project, name, tag)`
unfoldable pub full_name : Text → Text → Text → Text → Text
full_name registry project name tag = registry ++ slash ∷ (project ++ slash ∷ (name ++ colon ∷ tag))
