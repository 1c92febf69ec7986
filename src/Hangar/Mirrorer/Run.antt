-- ===== src/Hangar/Mirrorer/Run.antt =====
-- pkg/hangar/mirrorer.go: the workers, the loop over the lines, `Run` and `Validate`. The workers run
-- one after another here.
pub mod Validated
pub mod Failed
use mathlib.Core.Option
use image_tools.Destination.{Destination, init}
use image_tools.Destination.Queries.{without_transport}
use image_tools.Hangar.Mirrorer.{
  MirrorerOptions, MirrorObject, object_of_line, manifest_to_push, validate_mirror,
}
use image_tools.Manifest.{ManifestImage}
use image_tools.Manifest.Push.{push}
use image_tools.Media.{Descriptor, SpecSet, Inspector, Remote}
use image_tools.Prelude.{
  Bool, Option, none, some, List, [], ◌∷◌, if◌then◌else◌, mark, Result, ok, err, Text,
}
use image_tools.Source.{Source, name_source}
use image_tools.Source.Copy.{get_copied_image}
use image_tools.Source.Load.{load_manifest}
use image_tools.Source.Single.{copy_source}
use image_tools.Types.{ImageError, no_available_image, copy_failed}

-- What a mirrorer finds outside, in states that change: the copier, the registry,
-- `NewImageByInspect`, and the sending of a manifest list to a reference.
pub record MirrorWorld (S : Type 0) : Type 0 where
  pub remote : Remote S
  pub inspector : S → Inspector
  pub inspect : S → Text → Option ManifestImage
  pub send : S → Text → List Descriptor → Bool × S

pub record MirrorRun (S : Type 0) : Type 0 where
  pub failed_image_set : List Text
  pub world : S

-- `ReferenceNameWithoutTransport` of a source.
unfoldable pub source_reference : Source → Text
unfolding without_transport
source_reference s = without_transport s.image_type s.reference_name

unfoldable pub mirror_failed : {S : Type 0} → Text → MirrorRun S → MirrorRun S
unfolding mark
mirror_failed name st = record st { failed_image_set = mark name st.failed_image_set }

-- The error at the end of `Run` and `Validate` is that some image failed.
unfoldable pub mirror_end : {S : Type 0} → MirrorRun S → List Text → Result ImageError (MirrorRun S)
mirror_end st [] = ok st
mirror_end st (name ∷ names) = err copy_failed

unfoldable pub new_mirror : {S : Type 0} → S → MirrorRun S
new_mirror world = record { failed_image_set = []; world = world }

-- The loop of `copy` and `validate`, over the lines, with their worker.
module _ {S : Type 0} (o : MirrorerOptions)
    (work_on : MirrorObject → MirrorRun S → Option (MirrorRun S)) where
  unfoldable pub on_object :
      Text → Option (Result ImageError MirrorObject) → MirrorRun S → Option (MirrorRun S)
  unfolding mirror_failed
  on_object line none st = some st
  on_object line (some (err e)) st = some (mirror_failed line st)
  on_object line (some (ok object)) st = work_on object st

  unfoldable pub on_lines : List Text → MirrorRun S → Option (MirrorRun S)
  unfolding on_object object_of_line
  on_lines [] st = some st
  on_lines (line ∷ lines) st =
      Option.bind (on_object line (object_of_line o line) st) (on_lines lines)

module _ {S : Type 0} (env : MirrorWorld S) (set : SpecSet) where
  -- `builder.Push`
  unfoldable pub mirror_send :
      Source → Destination → Result ImageError (List Descriptor) → MirrorRun S → MirrorRun S
  unfolding mirror_failed source_reference
  mirror_send s d (err e) st = mirror_failed (source_reference s) st
  mirror_send s d (ok l) st =
      let (sent, after) = env.send st.world d.reference_name l in
      let st' : MirrorRun S = record st { world = after } in
      if sent then st' else mirror_failed (source_reference s) st'

  unfoldable pub mirror_pushed :
      Source
      → Destination
      → Result ImageError (Option (List ManifestImage))
      → MirrorRun S
      → MirrorRun S
  unfolding mirror_send push mirror_failed source_reference
  mirror_pushed s d (err e) st = mirror_failed (source_reference s) st
  mirror_pushed s d (ok none) st = st
  mirror_pushed s d (ok (some images)) st = mirror_send s d (push images) st

  -- The worker behind the copy; `none` is a panic of `ManifestImages`.
  unfoldable pub mirror_copied : Destination → Source → MirrorRun S → Option (MirrorRun S)
  unfolding mirror_pushed manifest_to_push get_copied_image
  mirror_copied d s st =
      Option.map (λ r. mirror_pushed s d r st)
        (manifest_to_push (env.inspect st.world) d (get_copied_image s).images)

  -- The error that no image is available is passed over.
  unfoldable pub mirror_outcome :
      Destination → Result ImageError (Unit {0}) → Source → MirrorRun S → Option (MirrorRun S)
  unfolding mirror_copied mirror_failed source_reference
  mirror_outcome d (ok u) s st = mirror_copied d s st
  mirror_outcome d (err no_available_image) s st = mirror_copied d s st
  mirror_outcome d (err e) s st = some (mirror_failed (source_reference s) st)

  -- The copy; `none` is a panic of it.
  unfoldable pub mirror_to :
      Source → Result ImageError Destination → MirrorRun S → Option (MirrorRun S)
  unfolding mirror_outcome copy_source mirror_failed source_reference
  mirror_to s (err e) st = some (mirror_failed (source_reference s) st)
  mirror_to s (ok d) st =
      Option.bind (copy_source env.remote (env.inspector st.world) set d s st.world)
        (λ c. mirror_outcome d c.outcome c.source (record st { world = c.world }))

  -- The worker, when the name of the source is known.
  unfoldable pub mirror_from :
      Source → Destination → Result ImageError Source → MirrorRun S → Option (MirrorRun S)
  unfolding mirror_to init mirror_failed source_reference
  mirror_from named d (err e) st = some (mirror_failed (source_reference named) st)
  mirror_from named d (ok s) st = mirror_to s (init (env.inspector st.world) d) st

  unfoldable pub mirror_named :
      Source → Destination → Result ImageError Source → MirrorRun S → Option (MirrorRun S)
  unfolding mirror_from load_manifest mirror_failed source_reference
  mirror_named s d (err e) st = some (mirror_failed (source_reference s) st)
  mirror_named s d (ok named) st =
      mirror_from named d (load_manifest (env.inspector st.world) named) st

  -- `worker`; the source is initialised in two steps, since the first one sets its name.
  unfoldable pub mirror_worker : MirrorObject → MirrorRun S → Option (MirrorRun S)
  unfolding mirror_named name_source
  mirror_worker object st =
      mirror_named object.source object.destination (name_source object.source) st

  -- `Run`
  unfoldable pub mirror_run :
      MirrorerOptions → List Text → S → Option (Result ImageError (MirrorRun S))
  unfolding on_lines mirror_worker mirror_end new_mirror
  mirror_run o lines world =
      Option.map (λ st. mirror_end st st.failed_image_set)
        (on_lines o mirror_worker lines (new_mirror world))

module _ (registry : Inspector) (set : SpecSet) where
  -- The registry does not change while it is read.
  unfoldable pub validated :
      Source → Result ImageError Destination → MirrorRun (Unit {0}) → Option (MirrorRun (Unit {0}))
  unfolding validate_mirror mirror_failed source_reference
  validated s (err e) st = some (mirror_failed (source_reference s) st)
  validated s (ok d) st =
      Option.map (λ passed. if passed then st else mirror_failed (source_reference s) st)
        (validate_mirror s d set)

  unfoldable pub validate_from :
      Source
      → Destination
      → Result ImageError Source
      → MirrorRun (Unit {0})
      → Option (MirrorRun (Unit {0}))
  unfolding validated init mirror_failed source_reference
  validate_from named d (err e) st = some (mirror_failed (source_reference named) st)
  validate_from named d (ok s) st = validated s (init registry d) st

  unfoldable pub validate_named :
      Source
      → Destination
      → Result ImageError Source
      → MirrorRun (Unit {0})
      → Option (MirrorRun (Unit {0}))
  unfolding validate_from load_manifest mirror_failed source_reference
  validate_named s d (err e) st = some (mirror_failed (source_reference s) st)
  validate_named s d (ok named) st = validate_from named d (load_manifest registry named) st

  -- `validateWorker`
  unfoldable pub validate_worker :
      MirrorObject → MirrorRun (Unit {0}) → Option (MirrorRun (Unit {0}))
  unfolding validate_named name_source
  validate_worker object st =
      validate_named object.source object.destination (name_source object.source) st

  -- `Validate`
  unfoldable pub validate_run :
      MirrorerOptions → List Text → Option (Result ImageError (MirrorRun (Unit {0})))
  unfolding on_lines validate_worker mirror_end new_mirror
  validate_run o lines =
      Option.map (λ st. mirror_end st st.failed_image_set)
        (on_lines o validate_worker lines (new_mirror tt))
