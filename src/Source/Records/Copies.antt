-- ===== src/Source/Records/Copies.antt =====
-- pkg/source/copy.go: every copy keeps the records exact.
use image_tools.Destination.{Destination}
use image_tools.Destination.Queries.{have_digest}
use image_tools.Hangar.Archive.Index.{ImageSpec}
use image_tools.Media.{
  Mime, absent, docker_list, docker_schema2, docker_schema1, docker_schema1_signed, other, Platform,
  Manifest, SpecSet, Inspector, Remote,
}
use image_tools.Prelude.{
  inl, inr, Bool, true, false, if◌then◌else◌, Bool-cases, Holds, Holds-map, Holds-bind,
  Holds-map_any, Result, ok, err, Text,
}
use image_tools.Source.{Source}
use image_tools.Source.Copy.{is_skipped, Progress}
use image_tools.Source.Load.{info_platform}
use image_tools.Source.Records.{
  IsRecorded, record_single-IsRecorded, copy_entries-IsRecorded, copy_index_entries-IsRecorded,
}
use image_tools.Source.Single.{
  Copied, finish, start, unchanged, record_single, copy_known, copy_schema2, copy_oci_image,
  converted_spec, rename_copy, after_schema1, copy_schema1, copy_at, copy_source,
}
use image_tools.Types.{ImageError}

module _ {S : Type 0} (remote : Remote S) (registry : Inspector) (set : SpecSet)
    (dest : Destination) where
  copy_known-IsRecorded :
      (s : Source) (p : Platform) (m : Manifest) (world : S)
      → IsRecorded s
      → IsRecorded (copy_known remote registry set dest s p m world).source
  unfolding copy_known
  copy_known-IsRecorded s p m world r = record_single-IsRecorded s _ _ r

  copy_schema2-IsRecorded :
      (s : Source) (p : Platform) (m : Manifest) (world : S)
      → IsRecorded s
      → Holds (λ c. IsRecorded c.source) (copy_schema2 remote registry set dest s p m world)
  unfolding copy_schema2
  copy_schema2-IsRecorded s p m world r = elim (Bool-cases (is_skipped set p)) [
    | inl e ↦ rw e r
    | inr e ↦ rw e (
        Holds-map_any (λ c. IsRecorded c.source) (have_digest dest s.manifest_digest) _
          held_or_copied)
  ]
    where
      held_or_copied :
          (held : Bool)
          → IsRecorded
              (if held
                then unchanged s world (ok tt)
                else copy_known remote registry set dest s p m world).source
      held_or_copied true = r
      held_or_copied false = copy_known-IsRecorded s p m world r

  copy_oci_image-IsRecorded :
      (s : Source) (p : Platform) (m : Manifest) (world : S)
      → IsRecorded s
      → IsRecorded (copy_oci_image remote registry set dest s p m world).source
  unfolding copy_oci_image
  copy_oci_image-IsRecorded s p m world r = elim (Bool-cases (is_skipped set p)) [
    | inl e ↦ rw e r
    | inr e ↦ rw e (copy_known-IsRecorded s p m world r)
  ]

  after_schema1-IsRecorded :
      (s : Source) (p : Platform) (target : Text) (o : Result ImageError (Unit {0}) × S)
      → IsRecorded s
      → IsRecorded (after_schema1 remote registry set dest s p target o).source
  unfolding after_schema1
  after_schema1-IsRecorded s p target (err e, after) r = r
  after_schema1-IsRecorded s p target (ok u, after) r =
      recorded (converted_spec remote registry set dest (remote.fetch_from after target) p)
    where
      recorded :
          (converted : Result ImageError ImageSpec)
          → IsRecorded
              (elim converted as (λ _. Copied S) [
                | err e ↦ unchanged s after (err e)
                | ok spec ↦
                    record_single s spec
                      (rename_copy remote registry set dest dest.image_type spec.digest after)
              ]).source
      recorded (err e) = r
      recorded (ok spec) = record_single-IsRecorded s spec _ r

  copy_schema1-IsRecorded :
      (s : Source) (p : Platform) (world : S)
      → IsRecorded s
      → IsRecorded (copy_schema1 remote registry set dest s p world).source
  unfolding copy_schema1
  copy_schema1-IsRecorded s p world r = elim (Bool-cases (is_skipped set p)) [
    | inl e ↦ rw e r
    | inr e ↦ rw e (after_schema1-IsRecorded s p _ _ r)
  ]

  finish-IsRecorded : (st : Progress S) → IsRecorded st.source → IsRecorded (finish st).source
  unfolding finish
  finish-IsRecorded st r = r

  copy_at-IsRecorded :
      (mime : Mime) (s : Source) (world : S)
      → IsRecorded s
      → Holds (λ c. IsRecorded c.source) (copy_at remote registry set dest mime s world)
  unfolding copy_at
  copy_at-IsRecorded docker_list s world r = Holds-bind _ s.schema2_list _ (λ l.
      Holds-map (λ st. IsRecorded st.source) _ _ _
        (copy_entries-IsRecorded remote registry set dest l (start s world) r) finish-IsRecorded)
  copy_at-IsRecorded Mime.oci_index s world r = Holds-bind _ s.oci_index _ (λ l.
      Holds-map (λ st. IsRecorded st.source) _ _ _
        (copy_index_entries-IsRecorded remote registry set dest l (start s world) r)
        finish-IsRecorded)
  copy_at-IsRecorded docker_schema2 s world r =
      Holds-bind _ s.oci_config _
        (λ p. Holds-bind _ s.schema2 _ (λ m. copy_schema2-IsRecorded s p m world r))
  copy_at-IsRecorded docker_schema1 s world r =
      Holds-map_any _ s.inspect_info _ (λ i. copy_schema1-IsRecorded s (info_platform i) world r)
  copy_at-IsRecorded docker_schema1_signed s world r =
      Holds-map_any _ s.inspect_info _ (λ i. copy_schema1-IsRecorded s (info_platform i) world r)
  copy_at-IsRecorded Mime.oci_manifest s world r =
      Holds-bind _ s.oci_config _
        (λ p. Holds-map_any _ s.oci_manifest _ (λ m. copy_oci_image-IsRecorded s p m world r))
  copy_at-IsRecorded absent s world r = r
  copy_at-IsRecorded (other t) s world r = r

  -- Whatever the media type, the copy of a source keeps its records exact: when it returns, the sets
  -- of architectures and systems hold just those of the recorded images, also when it returns an
  -- error.
  pub copy_source-IsRecorded :
      (s : Source) (world : S)
      → IsRecorded s
      → Holds (λ c. IsRecorded c.source) (copy_source remote registry set dest s world)
  unfolding copy_source
  copy_source-IsRecorded s world r = copy_at-IsRecorded s.mime s world r
