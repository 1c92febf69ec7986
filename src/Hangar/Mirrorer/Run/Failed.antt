-- ===== src/Hangar/Mirrorer/Run/Failed.antt =====
-- pkg/hangar/mirrorer.go: lines whose images cannot be read, and the failed images along a run.
use mathlib.Core.Option
use image_tools.Destination.{Destination, init}
use image_tools.Hangar.Mirrorer.{MirrorerOptions, MirrorObject, object_of_line, manifest_to_push}
use image_tools.Hangar.Mirrorer.Run.{
  MirrorWorld, MirrorRun, source_reference, mirror_failed, mirror_end, new_mirror, on_object,
  on_lines, mirror_send, mirror_pushed, mirror_copied, mirror_outcome, mirror_to, mirror_from,
  mirror_named, mirror_worker, mirror_run,
}
use image_tools.Hangar.Mirrorer.Run.Validated.{mark-ne-nil}
use image_tools.Manifest.{ManifestImage}
use image_tools.Manifest.Push.{push}
use image_tools.Media.{Descriptor, SpecSet}
use image_tools.Prelude.{
  ◌≡◌, refl, sym, subst, ◌≢◌, ◌⊎◌, inl, inr, true, Option, none, some, List, [], ◌∷◌, arith,
  Bool-cases, has, Holds, Holds-map, Holds-bind, Holds-map_any, Holds-weaken, Result, ok, err,
  ◌>>=◌, Text, ◌==◌, ==_eq,
}
use image_tools.Source.{Source, name_source}
use image_tools.Source.Copy.{get_copied_image}
use image_tools.Source.Load.{load_manifest, init_source}
use image_tools.Source.Single.{copy_source}
use image_tools.Types.{
  ImageError, invalid_type, unsupported_mime, invalid_reference, fetch_failed, malformed,
  no_available_image, copy_failed,
}

abbrev pub HasFailures : {S : Type 0} → MirrorRun S → Type 0
HasFailures st = st.failed_image_set ≢ []

-- A line that cannot be mirrored: its source or its destination cannot be built, or its source
-- cannot be read from the registry, whatever state that is in.
abbrev pub IsRefused : {S : Type 0} → MirrorWorld S → MirrorerOptions → Text → Type 0
IsRefused {S} env o line =
    ((e : ImageError) × (object_of_line o line ≡ some (err e)))
    ⊎ ((object : MirrorObject) × (object_of_line o line ≡ some (ok object))
        × ((w : S) → (e : ImageError) × (init_source (env.inspector w) object.source ≡ err e)))

mirror_failed-HasFailures :
    {S : Type 0} (name : Text) (st : MirrorRun S) → HasFailures (mirror_failed name st)
unfolding mirror_failed
mirror_failed-HasFailures name st = mark-ne-nil name st.failed_image_set

module _ {S : Type 0} (env : MirrorWorld S) (set : SpecSet) where
  -- A state that keeps the failures of another.
  abbrev pub Keeps : MirrorRun S → MirrorRun S → Type 0
  Keeps st st' = HasFailures st → HasFailures st'

  mirror_send-Keeps :
      (s : Source) (d : Destination) (r : Result ImageError (List Descriptor)) (st : MirrorRun S)
      → Keeps st (mirror_send env set s d r st)
  unfolding mirror_send mirror_failed
  mirror_send-Keeps s d (err e) st h = mirror_failed-HasFailures _ st
  mirror_send-Keeps s d (ok l) st h = elim (Bool-cases (env.send st.world d.reference_name l).0) [
    | inl e ↦ rw e h
    | inr e ↦ rw e (mark-ne-nil _ st.failed_image_set)
  ]

  mirror_pushed-Keeps :
      (s : Source) (d : Destination) (r : Result ImageError (Option (List ManifestImage)))
      (st : MirrorRun S)
      → Keeps st (mirror_pushed env set s d r st)
  unfolding mirror_pushed
  mirror_pushed-Keeps s d (err e) st h = mirror_failed-HasFailures _ st
  mirror_pushed-Keeps s d (ok none) st h = h
  mirror_pushed-Keeps s d (ok (some images)) st h = mirror_send-Keeps s d (push images) st h

  mirror_copied-Keeps :
      (d : Destination) (s : Source) (st : MirrorRun S)
      → Holds (Keeps st) (mirror_copied env set d s st)
  unfolding mirror_copied
  mirror_copied-Keeps d s st =
      Holds-map_any (Keeps st)
        (manifest_to_push (env.inspect st.world) d (get_copied_image s).images) _
        (λ r. mirror_pushed-Keeps s d r st)

  mirror_outcome-Keeps :
      (d : Destination) (r : Result ImageError (Unit {0})) (s : Source) (st : MirrorRun S)
      → Holds (Keeps st) (mirror_outcome env set d r s st)
  unfolding mirror_outcome
  mirror_outcome-Keeps d (ok u) s st = mirror_copied-Keeps d s st
  mirror_outcome-Keeps d (err no_available_image) s st = mirror_copied-Keeps d s st
  mirror_outcome-Keeps d (err invalid_type) s st = λ h. mirror_failed-HasFailures _ st
  mirror_outcome-Keeps d (err (unsupported_mime mime)) s st = λ h. mirror_failed-HasFailures _ st
  mirror_outcome-Keeps d (err invalid_reference) s st = λ h. mirror_failed-HasFailures _ st
  mirror_outcome-Keeps d (err (fetch_failed f)) s st = λ h. mirror_failed-HasFailures _ st
  mirror_outcome-Keeps d (err malformed) s st = λ h. mirror_failed-HasFailures _ st
  mirror_outcome-Keeps d (err copy_failed) s st = λ h. mirror_failed-HasFailures _ st

  mirror_to-Keeps :
      (s : Source) (r : Result ImageError Destination) (st : MirrorRun S)
      → Holds (Keeps st) (mirror_to env set s r st)
  unfolding mirror_to
  mirror_to-Keeps s (err e) st = λ h. mirror_failed-HasFailures _ st
  mirror_to-Keeps s (ok d) st =
      Holds-bind (Keeps st) (copy_source env.remote (env.inspector st.world) set d s st.world) _
        (λ c. mirror_outcome-Keeps d c.outcome c.source (record st { world = c.world }))

  mirror_from-Keeps :
      (named : Source) (d : Destination) (r : Result ImageError Source) (st : MirrorRun S)
      → Holds (Keeps st) (mirror_from env set named d r st)
  unfolding mirror_from
  mirror_from-Keeps named d (err e) st = λ h. mirror_failed-HasFailures _ st
  mirror_from-Keeps named d (ok s) st = mirror_to-Keeps s (init (env.inspector st.world) d) st

  mirror_named-Keeps :
      (s : Source) (d : Destination) (r : Result ImageError Source) (st : MirrorRun S)
      → Holds (Keeps st) (mirror_named env set s d r st)
  unfolding mirror_named
  mirror_named-Keeps s d (err e) st = λ h. mirror_failed-HasFailures _ st
  mirror_named-Keeps s d (ok named) st =
      mirror_from-Keeps named d (load_manifest (env.inspector st.world) named) st

  on_object-Keeps :
      (o : MirrorerOptions) (line : Text) (built : Option (Result ImageError MirrorObject))
      (st : MirrorRun S)
      → Holds (Keeps st) (on_object o (mirror_worker env set) line built st)
  unfolding on_object mirror_worker
  on_object-Keeps o line none st = λ h. h
  on_object-Keeps o line (some (err e)) st = λ h. mirror_failed-HasFailures line st
  on_object-Keeps o line (some (ok object)) st =
      mirror_named-Keeps object.source object.destination (name_source object.source) st

  -- A source that cannot be read.
  unread-HasFailures :
      (s : Source) (d : Destination) (r : Result ImageError Source) (st : MirrorRun S)
      (e : ImageError)
      → (r >>= load_manifest (env.inspector st.world)) ≡ err e
      → Holds HasFailures (mirror_named env set s d r st)
  unfolding mirror_named
  unread-HasFailures s d (err x) st e h = mirror_failed-HasFailures _ st
  unread-HasFailures s d (ok named) st e h =
      rw h (unfold mirror_from in mirror_failed-HasFailures (source_reference named) st)

  refused-HasFailures :
      (o : MirrorerOptions) (line : Text) (st : MirrorRun S)
      → IsRefused env o line
      → Holds HasFailures (on_object o (mirror_worker env set) line (object_of_line o line) st)
  unfolding on_object mirror_worker init_source
  refused-HasFailures o line st (inl (e, h)) = rw h (mirror_failed-HasFailures line st)
  refused-HasFailures o line st (inr (object, h, unread)) = rw h (
      unread-HasFailures object.source object.destination (name_source object.source) st _
        (unread st.world).1)

  stays-HasFailures :
      (o : MirrorerOptions) (lines : List Text) (r : Option (MirrorRun S))
      → Holds HasFailures r
      → Holds HasFailures (Option.bind r (on_lines o (mirror_worker env set) lines))
  unfolding Option.bind on_lines
  stays-HasFailures o lines none h = tt
  stays-HasFailures o [] (some st) h = h
  stays-HasFailures o (line ∷ lines) (some st) h =
      stays-HasFailures o lines
        (on_object o (mirror_worker env set) line (object_of_line o line) st)
        (Holds-weaken (on_object o (mirror_worker env set) line (object_of_line o line) st)
          (λ st' k. k h) (on_object-Keeps o line (object_of_line o line) st))

  on_lines-HasFailures :
      (o : MirrorerOptions) (lines : List Text) (line : Text) (st : MirrorRun S)
      → has lines line ≡ true
      → IsRefused env o line
      → Holds HasFailures (on_lines o (mirror_worker env set) lines st)
  unfolding on_lines has
  on_lines-HasFailures o [] line st h refused = ground arith
  on_lines-HasFailures o (l ∷ lines) line st h refused = elim (Bool-cases (l == line)) [
    | inl same ↦
        stays-HasFailures o lines (on_object o (mirror_worker env set) l (object_of_line o l) st)
          (refused-HasFailures o l st (subst (IsRefused env o) (sym (==_eq same)) refused))
    | inr differs ↦
        Holds-bind HasFailures (on_object o (mirror_worker env set) l (object_of_line o l) st) _
          (λ after. on_lines-HasFailures o lines line after (ground arith) refused)
  ]

mirror_end-HasFailures :
    {S : Type 0} (st : MirrorRun S) (names : List Text)
    → names ≢ []
    → mirror_end st names ≡ err copy_failed
unfolding mirror_end
mirror_end-HasFailures st [] h = absurd (h refl)
mirror_end-HasFailures st (name ∷ names) h = refl

-- When the source or the destination of a line cannot be built, or its source can be read from the
-- registry in no state, the run of a mirrorer over lines with this line returns an error, unless the
-- process panics.
pub mirror_run-failed :
    {S : Type 0} (env : MirrorWorld S) (set : SpecSet) (o : MirrorerOptions) (lines : List Text)
    (line : Text) (world : S)
    → has lines line ≡ true
    → IsRefused env o line
    → Holds (λ r. r ≡ err copy_failed) (mirror_run env set o lines world)
unfolding mirror_run
mirror_run-failed env set o lines line world h refused =
    Holds-map HasFailures (λ r. r ≡ err copy_failed)
      (on_lines o (mirror_worker env set) lines (new_mirror world)) _
      (on_lines-HasFailures env set o lines line (new_mirror world) h refused)
      (λ st e. mirror_end-HasFailures st st.failed_image_set e)
