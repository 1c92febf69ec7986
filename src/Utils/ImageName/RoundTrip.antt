-- ===== src/Utils/ImageName/RoundTrip.antt =====
-- pkg/utils/utils.go: reading back the full names that the program prints.
use image_tools.Prelude.{
  ◌≡◌, refl, ◌≢◌, [], ◌∷◌, ◌++◌, append_assoc, arith, All-append, Text, codes, contains, split,
  join, non_empty, Lacks, IsPart, contains-append, split_of_Lacks, split-append, non_empty-cons,
  non_empty-split-join, append_cons-ne-nil,
}
use image_tools.Utils.ImageName.{
  slash, colon, parts, get_project_name, get_registry_name, before_colon, get_image_name,
  get_image_tag, full_name,
}

before_colon-append : (s t : Text) → Lacks colon s → before_colon (s ++ colon ∷ t) ≡ s
unfolding before_colon contains
before_colon-append s t h =
    ground (arith, contains-append s (colon ∷ t) colon, split-append s t colon h)

-- A tagged last part holds no slash and is not empty.
tagged-IsPart :
    (name tag : Text) → Lacks slash name → Lacks slash tag → IsPart slash (name ++ colon ∷ tag)
tagged-IsPart name tag hn ht =
    (append_cons-ne-nil name tag colon, All-append _ name (colon ∷ tag) hn (omega arith, ht))

parts-full_name :
    (registry project name tag : Text)
    → IsPart slash registry
    → IsPart slash project
    → Lacks slash name
    → Lacks slash tag
    → parts (full_name registry project name tag) ≡ registry ∷ project ∷ (name ++ colon ∷ tag) ∷ []
unfolding parts full_name join
parts-full_name registry project name tag hr hp hn ht =
    non_empty-split-join (registry ∷ project ∷ (name ++ colon ∷ tag) ∷ []) slash
      (hr, (hp, (tagged-IsPart name tag hn ht, tt)))

-- A full name whose registry and project are parts with no slash, whose name holds neither slash
-- nor colon and whose tag holds no slash is read back: the three functions give its registry, its
-- project and its name. The registry may hold a port.
pub get_names-full_name :
    (registry project name tag : Text)
    → IsPart slash registry
    → IsPart slash project
    → Lacks slash name
    → Lacks colon name
    → Lacks slash tag
    → (get_registry_name (full_name registry project name tag) ≡ registry)
      × (get_project_name (full_name registry project name tag) ≡ project)
      × (get_image_name (full_name registry project name tag) ≡ name)
unfolding get_registry_name get_project_name get_image_name
get_names-full_name registry project name tag hr hp hn hc ht =
    let e = parts-full_name registry project name tag hr hp hn ht in
    (rw e, rw e, rw e (before_colon-append name tag hc))

-- The front of a full name, before its tag.
full_name_front : (registry project name : Text) → Text
full_name_front registry project name = registry ++ slash ∷ (project ++ slash ∷ name)

append-front :
    (registry project name tag : Text)
    → full_name registry project name tag ≡ full_name_front registry project name ++ colon ∷ tag
unfolding full_name full_name_front
append-front registry project name tag = simp append_assoc

front-Lacks :
    (registry project name : Text)
    → Lacks colon registry
    → Lacks colon project
    → Lacks colon name
    → Lacks colon (full_name_front registry project name)
unfolding full_name_front
front-Lacks registry project name hr hp hn =
    All-append _ registry _ hr (omega arith, All-append _ project _ hp (omega arith, hn))

split-full_name :
    (registry project name tag : Text)
    → Lacks colon registry
    → Lacks colon project
    → Lacks colon name
    → Lacks colon tag
    → split (full_name registry project name tag) colon
      ≡ full_name_front registry project name ∷ tag ∷ []
split-full_name registry project name tag hr hp hn ht = rw (
  append-front registry project name tag,
  split-append (full_name_front registry project name) tag colon
      (front-Lacks registry project name hr hp hn),
  split_of_Lacks tag colon ht,
)

front-ne-nil : (registry project name : Text) → full_name_front registry project name ≢ []
unfolding full_name_front
front-ne-nil registry project name = append_cons-ne-nil registry (project ++ slash ∷ name) slash

-- When no other part holds a colon, the tag of a full name is read back.
get_image_tag-full_name :
    (registry project name tag : Text)
    → Lacks colon registry
    → Lacks colon project
    → Lacks colon name
    → IsPart colon tag
    → get_image_tag (full_name registry project name tag) ≡ tag
unfolding get_image_tag
get_image_tag-full_name registry project name tag hr hp hn (ne, ht) =
    rw
      (
        split-full_name registry project name tag hr hp hn ht,
        non_empty-cons _ (tag ∷ []) (front-ne-nil registry project name),
        non_empty-cons tag [] ne,
      )
      (unfold non_empty in refl)

-- When the registry holds a port, the tag of a full name is lost: the function answers "latest"
-- whatever the tag is.
pub get_image_tag-port :
    (host port project name tag : Text)
    → IsPart colon host
    → Lacks colon port
    → Lacks colon project
    → Lacks colon name
    → IsPart colon tag
    → get_image_tag (full_name (host ++ colon ∷ port) project name tag) ≡ codes "latest"
unfolding get_image_tag
get_image_tag-port host port project name tag (hne, hh) hport hp hn (ne, ht) =
    let e : full_name (host ++ colon ∷ port) project name tag
        ≡ host ++ colon ∷ full_name port project name tag =
      unfold full_name in simp append_assoc in
    rw
      (
        e,
        split-append host (full_name port project name tag) colon hh,
        split-full_name port project name tag hport hp hn ht,
        non_empty-cons host _ hne,
        non_empty-cons _ (tag ∷ []) (front-ne-nil port project name),
        non_empty-cons tag [] ne,
      )
      (unfold non_empty in refl)
