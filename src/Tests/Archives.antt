-- ===== src/Tests/Archives.antt =====
-- Indexes and layer managers on small archives.
use mathlib.Core.List.Perm
use image_tools.Hangar.Archive.Index.{ImageSpec, Image, Index, index_version, new_index, append}
use image_tools.Hangar.Archive.Index.Digests.{IsIndexed, new_index-IsIndexed, append-IsIndexed}
use image_tools.Hangar.Layers.{new_layer_manager, get_image_layers, decompress_layer}
use image_tools.Hangar.Layers.Counts.{occurrences}
use image_tools.Hangar.Layers.References.{all_specs, references}
use image_tools.Hangar.Layers.Safety.{
  Event, decompress, extract_one, clean_up, cleaned, run, decompress_layer_safe, IsCleanedLater,
  clean_complete,
}
use image_tools.Prelude.{
  ◌≡◌, refl, Bool, true, false, Option, none, some, List, [], ◌∷◌, arith, eqb, if◌then◌else◌, has,
  All, Text, codes, ◌==◌,
}

-- `digest.Encoded`: what stands behind the colon.
abbrev after_colon : Text → Text
after_colon [] = []
after_colon (c ∷ s) = if eqb c b':' then s else after_colon s

abbrev spec_of : Text → List Text → ImageSpec
spec_of digest layers = record {
  arch = codes "amd64";
  os = codes "linux";
  os_version = [];
  os_features = [];
  variant = [];
  media_type = [];
  layers = layers;
  config = [];
  digest = digest;
}

abbrev image_of : List ImageSpec → Image
image_of specs = record {
  source = codes "docker.io/library/nginx";
  tag = codes "latest";
  arch_list = [];
  os_list = [];
  images = specs;
}

-- Two images that share a layer.
abbrev pub first_spec : ImageSpec
first_spec = spec_of (codes "h:1") (codes "h:9" ∷ [])

abbrev second_spec : ImageSpec
second_spec = spec_of (codes "h:2") (codes "h:9" ∷ [])

abbrev shared_index : Index
shared_index = record {
  list = image_of (first_spec ∷ second_spec ∷ []) ∷ [];
  version = index_version;
  time = [];
  digest_set = none;
}

abbrev pub one_image : Image
one_image = image_of (first_spec ∷ [])

append-IsIndexed_example : IsIndexed (append (new_index []) (some one_image))
append-IsIndexed_example = append-IsIndexed (new_index []) (some one_image) (new_index-IsIndexed [])

-- A decoder that always gives the shared index.
abbrev pub decode_shared : Text → Index → Option Index
decode_shared b i = some shared_index

abbrev indexed_shared : Index
indexed_shared = record shared_index { digest_set = some (codes "h:1" ∷ codes "h:2" ∷ []) }

extract_all : Text → Bool
extract_all k = true

shared_specs : all_specs shared_index.list ≡ first_spec ∷ second_spec ∷ []
unfolding all_specs
shared_specs = refl

-- The second image is at work while the first one is cleaned up.
decompress_layer_safe_example :
    All
      (λ k.
        has
          (run after_colon extract_all
            (clean_up first_spec ∷ [])
            (decompress_layer after_colon extract_all second_spec (
              run after_colon extract_all
                (decompress first_spec ∷ [])
                (new_layer_manager after_colon shared_index))).0).blobs
          k
        ≡ true)
      (get_image_layers after_colon second_spec)
decompress_layer_safe_example =
    decompress_layer_safe after_colon extract_all shared_index (decompress first_spec ∷ [])
      (clean_up first_spec ∷ []) second_spec []
      (unfold cleaned all_specs in Perm.swap first_spec second_spec [])
      (unfold decompress_layer extract_all in refl)

-- The second image is extracted while the first one is cleaned up, turn by turn.
abbrev interleaved : List Event
interleaved =
    decompress first_spec
    ∷ extract_one (codes "9")
    ∷ clean_up first_spec
    ∷ extract_one (codes "2")
    ∷ clean_up second_spec
    ∷ []

interleaved-IsCleanedLater : IsCleanedLater after_colon extract_all interleaved
unfolding references cleaned get_image_layers occurrences ◌==◌
interleaved-IsCleanedLater = ((omega arith, (omega arith, tt)), (omega arith, (omega arith, tt)))

clean_complete_example :
    has
      (run after_colon extract_all interleaved (new_layer_manager after_colon shared_index)).blobs
      (codes "9")
    ≡ false
clean_complete_example =
    clean_complete after_colon extract_all shared_index interleaved []
      (unfold cleaned all_specs in Perm.refl _) interleaved-IsCleanedLater (codes "9")
      (unfold references in refl)
