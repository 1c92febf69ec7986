-- ===== src/Hangar/Mirrorer/Run/Validated.antt =====
-- pkg/hangar/mirrorer.go: what `Validate` finds out about the lines.
use mathlib.Core.Option
use mathlib.Core.Option.{none-ne-some, some-injective}
use image_tools.Destination.{Destination, init, exists}
use image_tools.Destination.Images.{allowed_digests}
use image_tools.Destination.Queries.{manifest_images}
use image_tools.Hangar.Archive.Index.{Image}
use image_tools.Hangar.Mirrorer.{MirrorerOptions, MirrorObject, object_of_line, validate_mirror}
use image_tools.Hangar.Mirrorer.Run.{
  MirrorRun, source_reference, mirror_failed, mirror_end, new_mirror, on_object, on_lines,
  validated, validate_from, validate_named, validate_worker, validate_run,
}
use image_tools.Hangar.Mirrorer.Validation.{is_schema1, some-map, validate_mirror_iff}
use image_tools.Manifest.{ManifestImage}
use image_tools.Media.{SpecSet, Inspector}
use image_tools.Prelude.{
  ◌≡◌, refl, ap, ◌∙◌, ◌≢◌, ◌↔◌, ◌⊎◌, inl, inr, Bool, true, false, Option, none, some, List, [], ◌∷◌,
  arith, if◌then◌else◌, Bool-cases, has, mark, has_nil, has-mark, All, Result, ok, err, ◌>>=◌, Text,
  ==_refl,
}
use image_tools.Source.{Source, name_source}
use image_tools.Source.Load.{load_manifest, init_source, source_image_by_set}
use image_tools.Types.{ImageError}

-- What a worker may do with a state: it panics, it leaves the state when a condition holds, or it adds
-- a name to the failed images.
data Outcome {S : Type 0} (M : Type 0) (st : MirrorRun S) : Option (MirrorRun S) → Type 0 where
  panics : Outcome M st none
  passes : M → Outcome M st (some st)
  fails : (name : Text) → Outcome M st (some (mirror_failed name st))

Outcome-map :
    {S M N : Type 0} {st : MirrorRun S} {r : Option (MirrorRun S)}
    → (M → N)
    → Outcome M st r
    → Outcome N st r
Outcome-map f panics = panics
Outcome-map f (passes m) = passes (f m)
Outcome-map f (fails name) = fails name

pub mark-ne-nil : (name : Text) (set : List Text) → mark name set ≢ []
mark-ne-nil name set e =
    ground (arith, has-mark name name set, ==_refl name, has_nil name, ap (λ s. has s name) e)

module _ {S : Type 0} (o : MirrorerOptions)
    (work_on : MirrorObject → MirrorRun S → Option (MirrorRun S)) (M : Text → Type 0)
    (each : (line : Text) (st : MirrorRun S)
      → Outcome (M line) st (on_object o work_on line (object_of_line o line) st)) where
  after_line :
      (line : Text) (lines : List Text) (st last : MirrorRun S) {r : Option (MirrorRun S)}
      → Outcome (M line) st r
      → ((mid : MirrorRun S)
          → on_lines o work_on lines mid ≡ some last
          → (mid.failed_image_set ≡ []) × All M lines)
      → Option.bind r (on_lines o work_on lines) ≡ some last
      → (st.failed_image_set ≡ []) × (M line × All M lines)
  unfolding Option.bind mirror_failed
  after_line line lines st last panics k e = absurd (none-ne-some last e)
  after_line line lines st last (passes m) k e = let (empty, rest) = k st e in (empty, (m, rest))
  after_line line lines st last (fails name) k e =
      absurd (mark-ne-nil name st.failed_image_set (k (mirror_failed name st) e).0)

  -- When no image failed at the end, none had failed before, and all lines pass.
  on_lines-All :
      (lines : List Text) (st last : MirrorRun S)
      → last.failed_image_set ≡ []
      → on_lines o work_on lines st ≡ some last
      → (st.failed_image_set ≡ []) × All M lines
  unfolding on_lines
  on_lines-All [] st last quiet e =
      (ap (λ (x : MirrorRun S). x.failed_image_set) (some-injective st last e) ∙ quiet, tt)
  on_lines-All (line ∷ lines) st last quiet e =
      after_line line lines st last (each line st) (λ mid. on_lines-All lines mid last quiet) e

-- A line is ignored, or its source and its destination are read from the registry and pass.
abbrev pub IsMirrored : Inspector → SpecSet → MirrorerOptions → Text → Type 0
IsMirrored registry set o line =
    (object_of_line o line ≡ none)
    ⊎ ((object : MirrorObject) × (s : Source) × (d : Destination) × (object_of_line o line
          ≡ some (ok object))
        × (init_source registry object.source ≡ ok s)
        × (init registry object.destination ≡ ok d)
        × (validate_mirror s d set ≡ some true))

-- A line is ignored, or its source and its destination can be built, and if they read the registry as
-- `s` and `d`, the images of the one are among those of the other.
abbrev pub IsCarried : Inspector → SpecSet → MirrorerOptions → Text → Type 0
IsCarried registry set o line =
    (object_of_line o line ≡ none)
    ⊎ ((object : MirrorObject) × (s : Source) × (d : Destination) × (object_of_line o line
          ≡ some (ok object))
        × (init_source registry object.source ≡ ok s)
        × (init registry object.destination ≡ ok d)
        × (exists d ≡ true)
        × ((images : List ManifestImage) (image : Image)
            → is_schema1 s.mime ≡ false
            → manifest_images d ≡ some images
            → source_image_by_set s set ≡ some image
            → All (λ spec. has (allowed_digests set images) spec.digest ≡ true) image.images))

module _ (registry : Inspector) (set : SpecSet) where
  verdict-Outcome :
      (M : Type 0) (s : Source) (st : MirrorRun (Unit {0})) (answer : Option Bool)
      → (answer ≡ some true → M)
      → Outcome M st (
          Option.map
            (λ passed. if passed then st else mirror_failed (source_reference s) st)
            answer)
  verdict-Outcome M s st none h = panics
  verdict-Outcome M s st (some true) h = passes (h refl)
  verdict-Outcome M s st (some false) h = fails _

  validated-Outcome :
      (s : Source) (r : Result ImageError Destination) (st : MirrorRun (Unit {0}))
      → Outcome
          ((d : Destination) × (r ≡ ok d) × (validate_mirror s d set ≡ some true))
          st
          (validated registry set s r st)
  unfolding validated
  validated-Outcome s (err e) st = fails _
  validated-Outcome s (ok d) st = verdict-Outcome _ s st _ (λ e. (d, refl, e))

  validate_from-Outcome :
      (named : Source) (d : Destination) (r : Result ImageError Source) (st : MirrorRun (Unit {0}))
      → Outcome
          ((s : Source) × (d' : Destination) × (r ≡ ok s)
            × (init registry d ≡ ok d')
            × (validate_mirror s d' set ≡ some true))
          st
          (validate_from registry set named d r st)
  unfolding validate_from
  validate_from-Outcome named d (err e) st = fails _
  validate_from-Outcome named d (ok s) st =
      Outcome-map (λ (d', ed, ev). (s, d', refl, ed, ev)) (validated-Outcome s (init registry d) st)

  validate_named-Outcome :
      (s : Source) (d : Destination) (r : Result ImageError Source) (st : MirrorRun (Unit {0}))
      → Outcome
          ((s' : Source) × (d' : Destination) × ((r >>= load_manifest registry) ≡ ok s')
            × (init registry d ≡ ok d')
            × (validate_mirror s' d' set ≡ some true))
          st
          (validate_named registry set s d r st)
  unfolding validate_named
  validate_named-Outcome s d (err e) st = fails _
  validate_named-Outcome s d (ok named) st =
      validate_from-Outcome named d (load_manifest registry named) st

  built-Outcome :
      (o : MirrorerOptions) (line : Text) (st : MirrorRun (Unit {0}))
      (built : Option (Result ImageError MirrorObject))
      → object_of_line o line ≡ built
      → Outcome
          (IsMirrored registry set o line)
          st
          (on_object o (validate_worker registry set) line built st)
  unfolding on_object validate_worker init_source
  built-Outcome o line st none e = passes (inl e)
  built-Outcome o line st (some (err x)) e = fails line
  built-Outcome o line st (some (ok object)) e =
      Outcome-map (λ (s, d, es, ed, ev). inr (object, s, d, e, es, ed, ev))
        (validate_named-Outcome object.source object.destination (name_source object.source) st)

  named_of :
      (r : Result ImageError Source) (s : Source)
      → (r >>= load_manifest registry) ≡ ok s
      → (named : Source) × (r ≡ ok named) × (load_manifest registry named ≡ ok s)
  named_of (ok named) s e = (named, refl, e)
  named_of (err x) s e = absurd (cc)

  IsMirrored-on_object :
      (o : MirrorerOptions) (line : Text) (st : MirrorRun (Unit {0}))
      → IsMirrored registry set o line
      → on_object o (validate_worker registry set) line (object_of_line o line) st ≡ some st
  unfolding on_object validate_worker validate_named validate_from validated init_source
  IsMirrored-on_object o line st (inl e) = rw e
  IsMirrored-on_object o line st (inr (object, s, d, eo, es, ed, ev)) =
      let (named, en, el) = named_of (name_source object.source) s es in rw (eo, en, el, ed, ev)

  IsMirrored-on_lines :
      (o : MirrorerOptions) (lines : List Text) (st : MirrorRun (Unit {0}))
      → All (IsMirrored registry set o) lines
      → on_lines o (validate_worker registry set) lines st ≡ some st
  unfolding on_lines Option.bind
  IsMirrored-on_lines o [] st h = refl
  IsMirrored-on_lines o (line ∷ lines) st (h, all) =
      rw (IsMirrored-on_object o line st h) (IsMirrored-on_lines o lines st all)

  IsMirrored-IsCarried :
      (o : MirrorerOptions) (line : Text)
      → IsMirrored registry set o line
      → IsCarried registry set o line
  unfolding validate_mirror
  IsMirrored-IsCarried o line (inl e) = inl e
  IsMirrored-IsCarried o line (inr (object, s, d, eo, es, ed, ev)) = elim (Bool-cases (exists d)) [
    | inl there ↦ inr (
      object,
      s,
      d,
      eo,
      es,
      ed,
      there,
      λ images image hm hd hs. (validate_mirror_iff s d set images image hm there hd hs).0 ev,
    )
    | inr missing ↦ absurd (ground (arith, rw missing at ev))
  ]

  mirror_end-ok :
      (st last : MirrorRun (Unit {0})) (names : List Text)
      → mirror_end st names ≡ ok last
      → names ≡ []
  unfolding mirror_end
  mirror_end-ok st last [] e = refl
  mirror_end-ok st last (name ∷ names) e = absurd (cc)

All-weaken :
    {P Q : Text → Type 0} → ((x : Text) → P x → Q x) → (xs : List Text) → All P xs → All Q xs
All-weaken f [] h = tt
All-weaken f (x ∷ xs) (hx, h) = (f x hx, All-weaken f xs h)

-- The validation of a mirrorer ends without an error exactly when every line is one that is ignored,
-- or one whose source and destination can be built and read from the registry and whose comparison
-- passes.
pub validate_run_iff :
    (registry : Inspector) (set : SpecSet) (o : MirrorerOptions) (lines : List Text)
    → ((last : MirrorRun (Unit {0})) × (validate_run registry set o lines ≡ some (ok last)))
      ↔ All (IsMirrored registry set o) lines
unfolding validate_run new_mirror mirror_end
validate_run_iff registry set o lines = (
  λ (last, e).
      let (st, es, ends) =
        some-map (on_lines o (validate_worker registry set) lines (new_mirror tt)) _ (ok last) e in
      (on_lines-All o (validate_worker registry set) (IsMirrored registry set o)
        (λ line st. built-Outcome registry set o line st _ refl) lines (new_mirror tt) st
        (mirror_end-ok registry set st last st.failed_image_set ends) es).1,
  λ all. (new_mirror tt, rw (IsMirrored-on_lines registry set o lines (new_mirror tt) all)),
)

-- When the validation of a mirrorer ends without an error, then for every line that is not ignored the
-- source and the destination can be read and the destination exists; and unless the source is of
-- schema 1 or the images of one of them cannot be listed, every image of the source for the sets is
-- among the images of the destination that the sets allow.
pub validate_run-allowed_digests :
    (registry : Inspector) (set : SpecSet) (o : MirrorerOptions) (lines : List Text)
    (last : MirrorRun (Unit {0}))
    → validate_run registry set o lines ≡ some (ok last)
    → All (IsCarried registry set o) lines
validate_run-allowed_digests registry set o lines last e =
    All-weaken (IsMirrored-IsCarried registry set o) lines
      ((validate_run_iff registry set o lines).0 (last, e))
