-- ===== src/Hangar/Saver/Validation.antt =====
-- pkg/hangar/saver.go: `Validate`. The one of pkg/hangar/syncer.go has the same text.
use mathlib.Core.Option
use mathlib.Core.Option.{none-ne-some, some-injective}
use image_tools.Hangar.Archive.Index.{Image, Index, unmarshal, has_image}
use image_tools.Hangar.Archive.Index.Digests.{
  digests, IsIndexed, unmarshal-IsIndexed, has_image_iff,
}
use image_tools.Hangar.ImageList.{ListType, unknown, mirror, default, detect}
use image_tools.Hangar.Mirrorer.Run.Validated.{mark-ne-nil}
use image_tools.Hangar.Mirrorer.Validation.{is_schema1, some-map}
use image_tools.Hangar.Saver.{validate_at, validate_saved}
use image_tools.Hangar.Saver.Run.{SaverOptions, save_source}
use image_tools.Media.{
  Mime, absent, docker_list, docker_schema2, docker_schema1, docker_schema1_signed, other, SpecSet,
  Inspector,
}
use image_tools.Prelude.{
  ◌≡◌, refl, ap, ◌∙◌, inl, inr, Bool, true, false, Option, none, some, List, [], ◌∷◌, arith,
  if◌then◌else◌, Option-cases, has, mark, All, Result, ok, err, ◌>>=◌, Text,
}
use image_tools.Source.{Source, new_source}
use image_tools.Source.Load.{init_source, source_image_by_set}
use image_tools.Types.{ImageError}

-- How a validation ends: the index of the archive cannot be read, some lines failed, or none did.
pub data Verdict : Type 0 where
  no_index : Verdict
  failed_lines : List Text → Verdict
  all_saved : Verdict

-- The worker; the line is recorded when the answer is no.
unfoldable pub record_answer : Text → List Text → Option Bool → Option (List Text)
unfolding mark
record_answer line names answer =
    Option.map (λ passed. if passed then names else mark line names) answer

unfoldable pub end_validation : List Text → Verdict
end_validation [] = all_saved
end_validation (name ∷ names) = failed_lines (name ∷ names)

module _ (registry : Inspector) (set : SpecSet) (o : SaverOptions) where
  unfoldable pub answer_of : Index → Result ImageError Source → Option Bool
  unfolding validate_saved
  answer_of i (err e) = some false
  answer_of i (ok s) = validate_saved i s set

  -- The source of a line, built and initialised.
  unfoldable pub source_of_line : Text → Result ImageError Source
  unfolding new_source save_source init_source
  source_of_line line = do s ← new_source (save_source o line); init_source registry s

  unfoldable pub validate_line : Index → ListType → Text → List Text → Option (List Text)
  unfolding record_answer answer_of source_of_line
  validate_line i default line names = record_answer line names (answer_of i (source_of_line line))
  validate_line i t line names = some names

  -- `validate`; `none` is a panic of `ImageBySet`.
  unfoldable pub validate_lines : Index → List Text → List Text → Option (List Text)
  unfolding validate_line detect
  validate_lines i [] names = some names
  validate_lines i (line ∷ lines) names =
      Option.bind (validate_line i (detect line) line names) (validate_lines i lines)

  -- `Validate` with what `ar.Index` gives, `none` for an error, and the index of the saver.
  unfoldable pub validate_saver :
      (Text → Index → Option Index) → Option Text → Index → List Text → Option Verdict
  unfolding validate_lines end_validation unmarshal
  validate_saver decode none i lines = some no_index
  validate_saver decode (some b) i lines = elim (unmarshal decode i b) [
    | none ↦ some no_index
    | some i' ↦ Option.map end_validation (validate_lines i' lines [])
  ]

  -- A line of the default format has a source in the registry; unless that is of schema 1, its images
  -- for the sets are images of the index.
  abbrev pub IsArchived : Index → Text → Type 0
  IsArchived i line =
      detect line ≡ default
      → (s : Source) × (source_of_line line ≡ ok s)
        × (is_schema1 s.mime ≡ false
            → (image : Image) → source_image_by_set s set ≡ some image
            → All (λ spec. has (digests i.list) spec.digest ≡ true) image.images)

  validate_at_general :
      (mime : Mime) (i : Index) (s : Source) (image : Image)
      → is_schema1 mime ≡ false
      → source_image_by_set s set ≡ some image
      → validate_at mime i s set ≡ some (has_image i image)
  unfolding validate_at is_schema1
  validate_at_general docker_schema1 i s image h hs = ground arith
  validate_at_general docker_schema1_signed i s image h hs = ground arith
  validate_at_general absent i s image h hs = rw hs
  validate_at_general docker_list i s image h hs = rw hs
  validate_at_general docker_schema2 i s image h hs = rw hs
  validate_at_general Mime.oci_index i s image h hs = rw hs
  validate_at_general Mime.oci_manifest i s image h hs = rw hs
  validate_at_general (other t) i s image h hs = rw hs

  answer_of-IsArchived :
      (i : Index) (line : Text) (r : Result ImageError Source)
      → IsIndexed i
      → source_of_line line ≡ r
      → answer_of i r ≡ some true
      → IsArchived i line
  unfolding answer_of validate_saved
  answer_of-IsArchived i line (err e) indexed es ea = absurd (ground arith)
  answer_of-IsArchived i line (ok s) indexed es ea = λ ed. (
    s,
    es,
    λ hm image hs.
        (has_image_iff i image indexed).0
          (some-injective _ true (rw (validate_at_general s.mime i s image hm hs) at ea)),
  )

  -- What the end of a list of answers without a failure says of the first one.
  record_answer-bind :
      {R : Type 0} (line : Text) (names : List Text) (answer : Option Bool)
      (rest : List Text → Option (List Text))
      → ((mid : List Text) → rest mid ≡ some [] → (mid ≡ []) × R)
      → Option.bind (record_answer line names answer) rest ≡ some []
      → (names ≡ []) × ((answer ≡ some true) × R)
  unfolding record_answer Option.bind
  record_answer-bind line names none rest k e = absurd (none-ne-some [] e)
  record_answer-bind line names (some true) rest k e =
      let (empty, r) = k names e in (empty, (refl, r))
  record_answer-bind line names (some false) rest k e =
      absurd (mark-ne-nil line names (k (mark line names) e).0)

  first_line :
      {R : Type 0} (i : Index) (line : Text) (names : List Text) (t : ListType)
      (rest : List Text → Option (List Text))
      → IsIndexed i
      → detect line ≡ t
      → ((mid : List Text) → rest mid ≡ some [] → (mid ≡ []) × R)
      → Option.bind (validate_line i t line names) rest ≡ some []
      → (names ≡ []) × (IsArchived i line × R)
  unfolding validate_line Option.bind
  first_line i line names default rest indexed et k e =
      let (empty, (held, r)) =
        record_answer-bind line names (answer_of i (source_of_line line)) rest k e in
      (empty, (answer_of-IsArchived i line _ indexed refl held, r))
  first_line i line names mirror rest indexed et k e =
      let (empty, r) = k names e in (empty, (λ ed. absurd (ground arith), r))
  first_line i line names unknown rest indexed et k e =
      let (empty, r) = k names e in (empty, (λ ed. absurd (ground arith), r))

  validate_lines-IsArchived :
      (i : Index) (lines : List Text) (names : List Text)
      → IsIndexed i
      → validate_lines i lines names ≡ some []
      → (names ≡ []) × All (IsArchived i) lines
  unfolding validate_lines
  validate_lines-IsArchived i [] names indexed e = (some-injective names [] e, tt)
  validate_lines-IsArchived i (line ∷ lines) names indexed e =
      first_line i line names (detect line) (validate_lines i lines) indexed refl
        (λ mid. validate_lines-IsArchived i lines mid indexed) e

  end_validation-nil : (names : List Text) → end_validation names ≡ all_saved → names ≡ []
  unfolding end_validation
  end_validation-nil [] e = refl
  end_validation-nil (name ∷ names) e = absurd (ground arith)

  -- When the validation of a saver ends without an error, the index of the archive `b` could be read,
  -- and each line of the default format has a source in the registry, of which, unless it is of
  -- schema 1, every image for the sets is an image that this index lists.
  pub validate_saver-IsArchived :
      (decode : Text → Index → Option Index) (b : Text) (i : Index) (lines : List Text)
      → validate_saver decode (some b) i lines ≡ some all_saved
      → (i' : Index) × (unmarshal decode i b ≡ some i') × All (IsArchived i') lines
  unfolding validate_saver
  validate_saver-IsArchived decode b i lines e = elim (Option-cases (unmarshal decode i b)) [
    | inl bad ↦ absurd (ground (arith, rw (bad, validate_saver) at e))
    | inr (i', good) ↦
        let (names, el, ends) =
          some-map (validate_lines i' lines []) end_validation all_saved
            (rw (good, validate_saver) at e) in
        (
          i',
          good,
          (validate_lines-IsArchived i' lines [] (unmarshal-IsIndexed decode i b good)
              (el ∙ ap some (end_validation-nil names ends))).1,
        )
  ]
