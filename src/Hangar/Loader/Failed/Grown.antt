-- ===== src/Hangar/Loader/Failed/Grown.antt =====
-- pkg/hangar/loader.go: the failed images along a run.
use mathlib.Core.Option
use image_tools.Destination.{Destination}
use image_tools.Destination.Queries.{manifest_images}
use image_tools.Hangar.Archive.Index.{ImageSpec, Image}
use image_tools.Hangar.Layers.{decompress_layer}
use image_tools.Hangar.Loader.{LoaderOptions, archived_name, merge_loaded}
use image_tools.Hangar.Loader.Run.{load_found}
use image_tools.Hangar.Loader.Worker.{
  LoadWorld, LoadRun, Loaded, skipped, loaded, not_loaded, load_failed, decompress_image_tmp,
  load_from, load_layers, load_extracted, clean_state, after_spec, load_specs, send_manifest,
  send_merged, finish_load, load_into, load_worker,
}
use image_tools.Manifest.{ManifestImage}
use image_tools.Manifest.Push.{push}
use image_tools.Media.{Descriptor, SpecSet}
use image_tools.Prelude.{
  ◌≡◌, inl, inr, true, Option, none, some, List, [], ◌∷◌, ◌++◌, arith, Bool-cases, has, has-mark,
  Holds, Holds-map, Holds-map_any, Result, ok, err, Text, is_empty,
}
use image_tools.Source.{Source}
use image_tools.Source.Single.{finish, copy_source}
use image_tools.Types.{
  ImageError, invalid_type, unsupported_mime, invalid_reference, fetch_failed, malformed,
  no_available_image, copy_failed,
}

abbrev pub IsGrown : {S : Type 0} → LoadRun S → LoadRun S → Type 0
IsGrown st st' = (k : Text) → has st.failed_image_set k ≡ true → has st'.failed_image_set k ≡ true

module _ {S : Type 0} (env : LoadWorld S) (set : SpecSet) where
  failed-IsGrown : (name : Text) (st : LoadRun S) → IsGrown st (load_failed name st)
  unfolding load_failed
  failed-IsGrown name st k h = ground (arith, has-mark name k st.failed_image_set)

  -- A state with the failed images of another.
  abbrev pub Keeps : LoadRun S → Loaded × LoadRun S → Type 0
  Keeps st (l, st') = IsGrown st st'

  load_from-Keeps :
      (d : Destination) (img : ImageSpec) (r : Result ImageError Source) (st : LoadRun S)
      → Holds (Keeps st) (load_from env set d img r st)
  unfolding load_from
  load_from-Keeps d img (err e) st = λ k h. h
  load_from-Keeps d img (ok s) st =
      Holds-map_any (Keeps st) (copy_source env.remote (env.inspector st.world) set d s st.world) _
        (λ c k h. h)

  load_layers-Keeps :
      (d : Destination) (img : ImageSpec) (directory : Text) (st : LoadRun S)
      → Holds (Keeps st) (load_layers env set d img directory st)
  unfolding load_layers
  load_layers-Keeps d img directory st =
      elim (Bool-cases (decompress_layer env.encoded (env.extract st.world) img st.layers).1) [
        | inl e ↦ rw e (load_from-Keeps d img _ _)
        | inr e ↦ rw e (λ k h. h)
      ]

  load_extracted-Keeps :
      (d : Destination) (img : ImageSpec) (r : Result ImageError Text) (after : S) (st : LoadRun S)
      → Holds (Keeps st) (load_extracted env set d img (r, after) st)
  unfolding load_extracted
  load_extracted-Keeps d img r after st =
      elim r as (λ r. Holds (Keeps st) (load_extracted env set d img (r, after) st)) [
        | ok directory ↦ load_layers-Keeps d img directory (record st { world = after })
        | err no_available_image ↦ λ k h. h
        | err invalid_type ↦ λ k h. h
        | err (unsupported_mime mime) ↦ λ k h. h
        | err invalid_reference ↦ λ k h. h
        | err (fetch_failed f) ↦ λ k h. h
        | err malformed ↦ λ k h. h
        | err copy_failed ↦ λ k h. h
      ]

  -- What a continuation keeps.
  abbrev pub KeepsAll : (List ManifestImage → LoadRun S → Option (LoadRun S)) → Type 0
  KeepsAll f = (images : List ManifestImage) (st : LoadRun S) → Holds (IsGrown st) (f images st)

  rest-IsGrown :
      (img : ImageSpec) (st after : LoadRun S) (o : Option (LoadRun S))
      → IsGrown st after
      → Holds (IsGrown after) o
      → Holds (IsGrown st) (Option.map (clean_state env set img) o)
  rest-IsGrown img st after o h k =
      Holds-map (IsGrown after) (IsGrown st) o (clean_state env set img) k
        (λ last g j e. g j (h j e))

  after_spec-IsGrown :
      (name : Text) (img : ImageSpec) (rest : List ManifestImage → LoadRun S → Option (LoadRun S))
      (images : List ManifestImage) (st : LoadRun S) (o : Option (Loaded × LoadRun S))
      → KeepsAll rest
      → Holds (Keeps st) o
      → Holds (IsGrown st) (after_spec env set name img rest images o)
  unfolding after_spec
  after_spec-IsGrown name img rest images st none k h = tt
  after_spec-IsGrown name img rest images st (some (not_loaded e, after)) k h =
      λ j held. failed-IsGrown name after j (h j held)
  after_spec-IsGrown name img rest images st (some (skipped, after)) k h =
      rest-IsGrown img st after (rest images after) h (k images after)
  after_spec-IsGrown name img rest images st (some (loaded mi, after)) k h =
      rest-IsGrown img st after (rest (images ++ mi ∷ []) after) h (k (images ++ mi ∷ []) after)

  load_specs-IsGrown :
      (name : Text) (d : Destination) (finish : List ManifestImage → LoadRun S → Option (LoadRun S))
      (specs : List ImageSpec)
      → KeepsAll finish
      → KeepsAll (load_specs env set name d finish specs)
  unfolding load_specs
  load_specs-IsGrown name d finish [] k images st = k images st
  load_specs-IsGrown name d finish (img ∷ specs) k images st =
      let rest = load_specs-IsGrown name d finish specs k in
      let (r, after) = decompress_image_tmp env set img st.world in
      elim (Bool-cases (is_empty img.digest)) [
        | inl e ↦ rw e (rest images st)
        | inr e ↦ rw e (
            after_spec-IsGrown name img (load_specs env set name d finish specs) images st _ rest
              (load_extracted-Keeps d img r after st))
      ]

  send_manifest-IsGrown :
      (name : Text) (d : Destination) (r : Result ImageError (List Descriptor)) (st : LoadRun S)
      → IsGrown st (send_manifest env set name d r st)
  unfolding send_manifest
  send_manifest-IsGrown name d (err e) st = failed-IsGrown name st
  send_manifest-IsGrown name d (ok l) st =
      elim (Bool-cases (env.send st.world d.reference_name l).0) [
        | inl e ↦ rw e (λ k h. h)
        | inr e ↦ rw e (failed-IsGrown name st)
      ]

  send_merged-IsGrown :
      (name : Text) (d : Destination) (r : Result ImageError (Option (List ManifestImage)))
      (st : LoadRun S)
      → IsGrown st (send_merged env set name d r st)
  unfolding send_merged
  send_merged-IsGrown name d (err e) st = failed-IsGrown name st
  send_merged-IsGrown name d (ok none) st = λ k h. h
  send_merged-IsGrown name d (ok (some images)) st = send_manifest-IsGrown name d (push images) st

  load_into-IsGrown :
      (name : Text) (specs : List ImageSpec) (r : Result ImageError Destination) (st : LoadRun S)
      → Holds (IsGrown st) (load_into env set name specs r st)
  unfolding load_into finish_load
  load_into-IsGrown name specs (err e) st = failed-IsGrown name st
  load_into-IsGrown name specs (ok d) st =
      load_specs-IsGrown name d (finish_load env set name d) specs
        (λ new st'.
          Holds-map_any (IsGrown st') (manifest_images d) _
            (λ old. send_merged-IsGrown name d (merge_loaded old new) st'))
        [] st

  pub load_found-IsGrown :
      (o : LoaderOptions) (line : Text) (found : Option Image) (st : LoadRun S)
      → Holds (IsGrown st) (load_found env set o line found st)
  unfolding load_found load_worker
  load_found-IsGrown o line none st = failed-IsGrown line st
  load_found-IsGrown o line (some image) st =
      load_into-IsGrown (archived_name image) image.images _ st
