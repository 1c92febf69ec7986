-- ===== src/Source/Copy.antt =====
-- pkg/source/copy.go: the copy of a list of images, and what it records.
use image_tools.Destination.{Destination}
use image_tools.Destination.Queries.{have_digest, reference_name_multi_arch}
use image_tools.Hangar.Archive.Index.{ImageSpec, Image}
use image_tools.Media.{
  Mime, docker_schema2, docker_schema1, docker_schema1_signed, Platform, Descriptor, OciDescriptor,
  Layer, Manifest, SpecSet, Fetched, failed, raw, Inspector, CopyOptions, Remote,
}
use image_tools.Prelude.{
  ℕ, suc, Bool, true, false, not, ◌&&◌, ◌||◌, Option, none, some, List, [], ◌∷◌, ◌++◌, map,
  if◌then◌else◌, has, mark, select, Result, ok, err, ◌>>=◌, ◌>>◌, Text, is_empty,
}
use image_tools.Source.{Source, digest_name}
use image_tools.Source.Load.{or_malformed}
use image_tools.Types.{
  transport, ImageError, unsupported_mime, invalid_reference, fetch_failed, copy_failed,
}
use image_tools.Utils.ImageName.{slash}

-- `len(set) != 0 && k != "" && !set[k]`
abbrev pub rejects : List Text → Text → Bool
rejects [] k = false
rejects (x ∷ xs) k = not (is_empty k) && not (has (x ∷ xs) k)

unfoldable pub is_skipped : SpecSet → Platform → Bool
is_skipped set p =
    rejects set.os p.os || rejects set.arch p.architecture || rejects set.variant p.variant

-- A layer that is not on the internet.
abbrev pub is_local : Layer → Bool
is_local l = elim l.urls [ [] ↦ true | url ∷ urls ↦ false ]

-- `updateSpecDockerV2Schema2` and `updateSpecImageManifest`
unfoldable pub update_spec : Manifest → ImageSpec → ImageSpec
unfolding select
update_spec m spec = record spec {
  config = m.config;
  layers = spec.layers ++ map (λ l. l.digest) (select is_local m.layers);
}

unfoldable pub record_copied_image : ImageSpec → Source → Source
unfolding mark
record_copied_image spec s = record s {
  copied_list = s.copied_list ++ spec ∷ [];
  copied_arch = mark spec.arch s.copied_arch;
  copied_os = mark spec.os s.copied_os;
}

unfoldable pub get_copied_image : Source → Image
get_copied_image s = record {
  source = s.registry ++ slash ∷ (s.project ++ slash ∷ s.name);
  tag = s.tag;
  arch_list = s.copied_arch;
  os_list = s.copied_os;
  images = s.copied_list;
}

-- The spec of an image before its manifest is read.
abbrev pub spec_of_platform : Platform → Text → Text → ImageSpec
spec_of_platform p media_type d = record {
  arch = p.architecture;
  os = p.os;
  os_version = p.os_version;
  os_features = p.os_features;
  variant = p.variant;
  media_type = media_type;
  layers = [];
  config = [];
  digest = d;
}

-- The switch on the media type of the copied image.
unfoldable pub complete_spec : Inspector → Text → Mime → ImageSpec → Result ImageError ImageSpec
unfolding update_spec
complete_spec registry b docker_schema2 spec = do
  m ← or_malformed (registry.parse_schema2 b)
  ok (update_spec m spec)
complete_spec registry b Mime.oci_manifest spec = do
  m ← or_malformed (registry.parse_manifest b)
  ok (update_spec m spec)
complete_spec registry b mime spec = err (unsupported_mime mime)

unfoldable pub inspect_copied : Inspector → Fetched → Platform → Text → Result ImageError ImageSpec
unfolding complete_spec
inspect_copied registry (failed e) p media_type = err (fetch_failed e)
inspect_copied registry (raw b mime) p media_type = do
  d ← or_malformed (registry.manifest_digest b)
  complete_spec registry b mime (spec_of_platform p media_type d)

-- The switch of `copyImage`: images of schema 1 cannot keep their digests.
unfoldable pub copy_options : Mime → CopyOptions
copy_options docker_schema1 = record { preserve_digests = false; force_schema2 = true }
copy_options docker_schema1_signed = record { preserve_digests = false; force_schema2 = true }
copy_options mime = record { preserve_digests = true; force_schema2 = false }

module _ {S : Type 0} (remote : Remote S) (registry : Inspector) where
  -- Two references are parsed, then the copier runs. An error leaves what the copier did.
  unfoldable pub transfer : Text → Text → Mime → S → Result ImageError (Unit {0}) × S
  unfolding copy_options
  transfer source dest mime world =
      if remote.is_reference source && remote.is_reference dest
      then (let (done, after) = remote.copy_image (copy_options mime) source dest world in
          (if done then ok tt else err copy_failed, after))
      else (err invalid_reference, world)

  -- What one image of a list adds: its spec or an error, and the world after it.
  unfoldable pub copy_to :
      Source → Destination → Platform → Text → Text → S → Result ImageError ImageSpec × S
  unfolding transfer inspect_copied transport reference_name_multi_arch
  copy_to s dest p d media_type world =
      let source = transport s.image_type ++ digest_name s d in
      let target =
        reference_name_multi_arch dest p.os p.os_version p.architecture p.variant
          (remote.encoded d) in
      let (outcome, after) = transfer source target (remote.read_mime media_type) world in
      (outcome >> inspect_copied registry (remote.fetch_from after target) p media_type, after)

-- The state of the loops: the source, the world, `copiedNum` and `errs`.
pub record Progress (S : Type 0) : Type 0 where
  pub source : Source
  pub world : S
  pub copied : ℕ
  pub errors : List ImageError

unfoldable pub note_outcome :
    {S : Type 0} → Progress S → Result ImageError ImageSpec × S → Progress S
unfolding record_copied_image
note_outcome st (ok spec, after) = record st {
  source = record_copied_image spec st.source;
  world = after;
  copied = suc st.copied;
}
note_outcome st (err e, after) = record st { world = after; errors = st.errors ++ e ∷ [] }

module _ {S : Type 0} (remote : Remote S) (registry : Inspector) (set : SpecSet)
    (dest : Destination) where
  -- The body of the loops; `none` is the panic of `HaveDigest`.
  unfoldable pub copy_entry : Platform → Text → Text → Progress S → Option (Progress S)
  unfolding is_skipped have_digest copy_to note_outcome
  copy_entry p d media_type st = if is_skipped set p then some st else elim (have_digest dest d) [
    | none ↦ none
    | some true ↦ some (record st { copied = suc st.copied })
    | some false ↦
        some (note_outcome st (copy_to remote registry st.source dest p d media_type st.world))
  ]

  unfoldable pub copy_entries : List Descriptor → Progress S → Option (Progress S)
  unfolding copy_entry
  copy_entries [] st = some st
  copy_entries (m ∷ ms) st = elim (copy_entry m.platform m.digest m.media_type st) [
    | none ↦ none
    | some st' ↦ copy_entries ms st'
  ]

  unfoldable pub copy_index_entries : List OciDescriptor → Progress S → Option (Progress S)
  unfolding copy_entry
  copy_index_entries [] st = some st
  copy_index_entries (m ∷ ms) st = elim m.platform [
    | none ↦ none
    | some p ↦ elim (copy_entry p m.digest m.media_type st) [
      | none ↦ none
      | some st' ↦ copy_index_entries ms st'
    ]
  ]
