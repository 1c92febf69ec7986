-- ===== src/Hangar/Loader/Names.antt =====
-- pkg/hangar/loader.go: a saved image is loaded under its own names.
use image_tools.Destination.{or_default}
use image_tools.Hangar.Loader.{LoaderOptions, archived_name, load_option}
use image_tools.Prelude.{◌≡◌, refl, ap, ◌∙◌, [], append_assoc, Lacks, IsPart}
use image_tools.Source.{Source}
use image_tools.Source.Copy.{get_copied_image}
use image_tools.Utils.ImageName.{
  slash, colon, get_project_name, get_registry_name, get_image_name, full_name,
}
use image_tools.Utils.ImageName.RoundTrip.{get_names-full_name}

source-full_name :
    (s : Source) → archived_name (get_copied_image s) ≡ full_name s.registry s.project s.name s.tag
unfolding get_copied_image full_name
source-full_name s = simp append_assoc

-- What a source records for the archive is loaded under the same registry, project, name and tag when
-- the loader overrides neither registry nor project, if registry and project are parts with no slash,
-- the name holds neither slash nor colon and the tag holds no slash. The registry may hold a port.
pub load_option-get_copied_image :
    (s : Source) (o : LoaderOptions)
    → o.destination_registry ≡ []
    → o.destination_project ≡ []
    → IsPart slash s.registry
    → IsPart slash s.project
    → Lacks slash s.name
    → Lacks colon s.name
    → Lacks slash s.tag
    → ((load_option o (get_copied_image s)).registry ≡ s.registry)
      × ((load_option o (get_copied_image s)).project ≡ s.project)
      × ((load_option o (get_copied_image s)).name ≡ s.name)
      × ((load_option o (get_copied_image s)).tag ≡ s.tag)
unfolding load_option
load_option-get_copied_image s o hr hp pr pp ln lc lt =
    let (er, ep, en) = get_names-full_name s.registry s.project s.name s.tag pr pp ln lc lt in
    let e = source-full_name s in
    (
      ap (λ r. or_default r (get_registry_name (archived_name (get_copied_image s)))) hr
          ∙ ap get_registry_name e
          ∙ er,
      ap (λ r. or_default r (get_project_name (archived_name (get_copied_image s)))) hp
          ∙ ap get_project_name e
          ∙ ep,
      ap get_image_name e ∙ en,
      unfold get_copied_image in refl,
    )
