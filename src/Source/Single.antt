-- ===== src/Source/Single.antt =====
-- pkg/source/copy.go and `Source.Copy`: the copy of single images, and the choice by media type.
use mathlib.Core.Option
use image_tools.Destination.{Destination}
use image_tools.Destination.Queries.{have_digest, reference_name_multi_arch}
use image_tools.Hangar.Archive.Index.{ImageSpec}
use image_tools.Media.{
  Mime, docker_list, docker_schema2, docker_schema1, docker_schema1_signed, Platform, Manifest,
  SpecSet, Fetched, failed, raw, Inspector, Remote,
}
use image_tools.Prelude.{
  ℕ, Option, some, List, [], ◌∷◌, eqb, if◌then◌else◌, join_path, Result, ok, err, ◌>>=◌, Text,
  codes,
}
use image_tools.Source.{Source}
use image_tools.Source.Copy.{
  record_copied_image, is_skipped, update_spec, spec_of_platform, transfer, Progress, copy_entries,
  copy_index_entries,
}
use image_tools.Source.Load.{or_malformed, info_platform}
use image_tools.Types.{
  ImageType, oci, ImageError, unsupported_mime, fetch_failed, no_available_image, copy_failed,
}

-- What `Copy` leaves: the source with its records, the world, and the error it returns.
pub record Copied (S : Type 0) : Type 0 where
  pub source : Source
  pub world : S
  pub outcome : Result ImageError (Unit {0})

-- The end of `Copy` for a list: `num` and the error.
unfoldable pub outcome_of : ℕ → List ImageError → Result ImageError (Unit {0})
outcome_of copied [] = if eqb copied 0 then err no_available_image else ok tt
outcome_of copied (e ∷ es) = err copy_failed

unfoldable pub finish : {S : Type 0} → Progress S → Copied S
unfolding outcome_of
finish st = record {
  source = st.source;
  world = st.world;
  outcome = outcome_of st.copied st.errors;
}

abbrev pub start : {S : Type 0} → Source → S → Progress S
start s world = record { source = s; world = world; copied = 0; errors = [] }

-- Returning without a change.
abbrev pub unchanged : {S : Type 0} → Source → S → Result ImageError (Unit {0}) → Copied S
unchanged s world outcome = record { source = s; world = world; outcome = outcome }

unfoldable pub record_single :
    {S : Type 0} → Source → ImageSpec → Result ImageError (Unit {0}) × S → Copied S
unfolding record_copied_image
record_single s spec (ok u, after) = record {
  source = record_copied_image spec s;
  world = after;
  outcome = ok tt;
}
record_single s spec (err e, after) = record { source = s; world = after; outcome = err e }

module _ {S : Type 0} (remote : Remote S) (registry : Inspector) (set : SpecSet)
    (dest : Destination) where
  -- The copy under a digest that is known, with the record of a manifest that is loaded.
  unfoldable pub copy_known : Source → Platform → Manifest → S → Copied S
  unfolding transfer update_spec record_single reference_name_multi_arch
  copy_known s p m world =
      record_single s
        (update_spec m (spec_of_platform p (remote.print_mime s.mime) s.manifest_digest))
        (transfer remote registry s.reference_name
          (reference_name_multi_arch dest p.os p.os_version p.architecture p.variant
            (remote.encoded s.manifest_digest))
          s.mime world)

  unfoldable pub copy_schema2 : Source → Platform → Manifest → S → Option (Copied S)
  unfolding is_skipped have_digest copy_known
  copy_schema2 s p m world =
      if is_skipped set p
      then some (unchanged s world (ok tt))
      else Option.map (λ held. if held then unchanged s world (ok tt) else copy_known s p m world)
          (have_digest dest s.manifest_digest)

  unfoldable pub copy_oci_image : Source → Platform → Manifest → S → Copied S
  unfolding is_skipped copy_known
  copy_oci_image s p m world =
      if is_skipped set p then unchanged s world (ok tt) else copy_known s p m world

  -- The copied image is inspected again, since its media type was changed.
  unfoldable pub converted_spec : Fetched → Platform → Result ImageError ImageSpec
  unfolding update_spec
  converted_spec (failed e) p = err (fetch_failed e)
  converted_spec (raw b mime) p = do
    d ← or_malformed (registry.manifest_digest b)
    m ← or_malformed (registry.parse_schema2 b)
    ok (update_spec m (spec_of_platform p (remote.print_mime mime) d))

  abbrev pub unknown_name : Text
  unknown_name = codes "UNKNOW"

  -- In a directory of the type OCI, the copy gets the name of its digest.
  unfoldable pub rename_copy : ImageType → Text → S → Result ImageError (Unit {0}) × S
  unfolding join_path
  rename_copy oci d world =
      let (done, after) =
        remote.rename (join_path dest.directory unknown_name)
          (join_path dest.directory (remote.encoded d)) world in
      (if done then ok tt else err copy_failed, after)
  rename_copy t d world = (ok tt, world)

  unfoldable pub after_schema1 :
      Source → Platform → Text → Result ImageError (Unit {0}) × S → Copied S
  unfolding converted_spec rename_copy record_single
  after_schema1 s p target (err e, after) = unchanged s after (err e)
  after_schema1 s p target (ok u, after) =
      elim (converted_spec (remote.fetch_from after target) p) [
        | err e ↦ unchanged s after (err e)
        | ok spec ↦ record_single s spec (rename_copy dest.image_type spec.digest after)
      ]

  unfoldable pub copy_schema1 : Source → Platform → S → Copied S
  unfolding is_skipped after_schema1 transfer reference_name_multi_arch
  copy_schema1 s p world =
      let target = reference_name_multi_arch dest p.os [] p.architecture p.variant unknown_name in
      if is_skipped set p
      then unchanged s world (ok tt)
      else after_schema1 s p target (transfer remote registry s.reference_name target s.mime world)

  -- `load` sets the two pointers of a single image together.
  unfoldable pub copy_at : Mime → Source → S → Option (Copied S)
  unfolding copy_entries copy_index_entries finish copy_schema2 copy_oci_image copy_schema1
  copy_at docker_list s world =
      Option.bind s.schema2_list
        (λ l. Option.map finish (copy_entries remote registry set dest l (start s world)))
  copy_at Mime.oci_index s world =
      Option.bind s.oci_index
        (λ l. Option.map finish (copy_index_entries remote registry set dest l (start s world)))
  copy_at docker_schema2 s world =
      Option.bind s.oci_config (λ p. Option.bind s.schema2 (λ m. copy_schema2 s p m world))
  copy_at docker_schema1 s world =
      Option.map (λ i. copy_schema1 s (info_platform i) world) s.inspect_info
  copy_at docker_schema1_signed s world =
      Option.map (λ i. copy_schema1 s (info_platform i) world) s.inspect_info
  copy_at Mime.oci_manifest s world =
      Option.bind s.oci_config (λ p. Option.map (λ m. copy_oci_image s p m world) s.oci_manifest)
  copy_at mime s world = some (unchanged s world (err (unsupported_mime mime)))

  -- `Source.Copy`, `none` for a panic.
  unfoldable pub copy_source : Source → S → Option (Copied S)
  unfolding copy_at
  copy_source s world = copy_at s.mime s world
