-- ===== src/Source/Outcomes.antt =====
-- pkg/source/copy.go: every image of a list that the sets select is copied, held or an error.
use mathlib.Core.Option
use image_tools.Destination.{Destination}
use image_tools.Destination.Queries.{have_digest}
use image_tools.Hangar.Archive.Index.{ImageSpec}
use image_tools.Media.{docker_list, Platform, Descriptor, SpecSet, Inspector, Remote}
use image_tools.Prelude.{
  ℕ, suc, ◌+◌, ◌≡◌, refl, ap, ◌∙◌, ◌↔◌, inl, inr, Bool, not, some, List, [], ◌∷◌, arith,
  if◌then◌else◌, Bool-cases, Option-cases, length, length-append, select, Result, ok, err, Text,
}
use image_tools.Source.{Source}
use image_tools.Source.Copy.{is_skipped, copy_to, Progress, note_outcome, copy_entry, copy_entries}
use image_tools.Source.Single.{Copied, outcome_of, finish, start, copy_at, copy_source}
use image_tools.Types.{ImageError, no_available_image}

-- The images of a list that are not skipped.
unfoldable pub selected : SpecSet → List Descriptor → List Descriptor
unfolding select
selected set l = select (λ m. not (is_skipped set m.platform)) l

none_selected :
    {A : Type 0} (n : ℕ) (errors : List ImageError) (l : List A)
    → n + length errors ≡ length l
    → (outcome_of n errors ≡ err no_available_image) ↔ (l ≡ [])
unfolding outcome_of
none_selected n [] [] h = ground arith
none_selected n [] (m ∷ l) h = ground arith
none_selected n (e ∷ es) [] h = ground arith
none_selected n (e ∷ es) (m ∷ l) h = ground arith

module _ {S : Type 0} (remote : Remote S) (registry : Inspector) (set : SpecSet)
    (dest : Destination) where
  -- The images that the loop has accounted for.
  abbrev accounted : Progress S → ℕ
  accounted st = st.copied + length st.errors

  accounted-note_outcome :
      (st : Progress S) (o : Result ImageError ImageSpec × S)
      → accounted (note_outcome st o) ≡ suc (accounted st)
  unfolding note_outcome
  accounted-note_outcome st (ok spec, after) = omega arith
  accounted-note_outcome st (err e, after) = omega (arith, length-append st.errors (e ∷ []))

  accounted-copy_entry :
      (p : Platform) (d media_type : Text) (st st' : Progress S)
      → copy_entry remote registry set dest p d media_type st ≡ some st'
      → accounted st' ≡ (if is_skipped set p then accounted st else suc (accounted st))
  unfolding copy_entry
  accounted-copy_entry p d media_type st st' h = ground (
    arith,
    accounted-note_outcome st (copy_to remote registry st.source dest p d media_type st.world),
  )

  accounted-copy_entries :
      (l : List Descriptor) (st st' : Progress S)
      → copy_entries remote registry set dest l st ≡ some st'
      → accounted st' ≡ accounted st + length (selected set l)
  unfolding copy_entries selected
  accounted-copy_entries [] st st' h = ground arith
  accounted-copy_entries (m ∷ l) st st' h =
      elim (Option-cases
        (copy_entry remote registry set dest m.platform m.digest m.media_type st)) [
          | inl e ↦ ground arith
          | inr (st₁, e) ↦ ground (
            arith,
            accounted-copy_entry m.platform m.digest m.media_type st st₁ e,
            accounted-copy_entries l st₁ st',
          )
        ]

  -- A destination whose questions about digests do not panic.
  abbrev pub Answers : Type 0
  Answers = (k : Text) → (held : Bool) × (have_digest dest k ≡ some held)

  copy_entry-total :
      (p : Platform) (d media_type : Text) (st : Progress S)
      → Answers
      → (st' : Progress S) × (copy_entry remote registry set dest p d media_type st ≡ some st')
  unfolding copy_entry
  copy_entry-total p d media_type st answers = elim (Bool-cases (is_skipped set p)) [
    | inl e ↦ (st, rw e)
    | inr e ↦ elim (Bool-cases (answers d).0) [
      | inl held ↦ (record st { copied = suc st.copied }, rw (e, (answers d).1, held))
      | inr new ↦ (
        note_outcome st (copy_to remote registry st.source dest p d media_type st.world),
        rw (e, (answers d).1, new),
      )
    ]
  ]

  pub copy_entries-total :
      (l : List Descriptor) (st : Progress S)
      → Answers
      → (st' : Progress S) × (copy_entries remote registry set dest l st ≡ some st')
  unfolding copy_entries
  copy_entries-total [] st answers = (st, refl)
  copy_entries-total (m ∷ l) st answers =
      let (st₁, e) = copy_entry-total m.platform m.digest m.media_type st answers in
      let (st₂, e₂) = copy_entries-total l st₁ answers in (st₂, rw (copy_entries, e) e₂)

  -- What `Copy` does for a Docker list, once the loop has returned.
  pub copy_source_list :
      (s : Source) (world : S) (l : List Descriptor) (st : Progress S)
      → s.mime ≡ docker_list
      → s.schema2_list ≡ some l
      → copy_entries remote registry set dest l (start s world) ≡ some st
      → copy_source remote registry set dest s world ≡ some (finish st)
  unfolding copy_source copy_at Option.bind
  copy_source_list s world l st em el e =
      ap (λ mime. copy_at remote registry set dest mime s world) em
      ∙ ap
          (λ o.
            Option.bind o
              (λ ms. Option.map finish (copy_entries remote registry set dest ms (start s world))))
          el
      ∙ ap (Option.map finish) e

  -- The copy of a Docker list to a destination that answers its questions returns, and it returns
  -- the error that no image is available exactly when the sets select no image of the list.
  pub copy_source-no_available_image :
      (s : Source) (world : S) (l : List Descriptor)
      → s.mime ≡ docker_list
      → s.schema2_list ≡ some l
      → Answers
      → (c : Copied S) × (copy_source remote registry set dest s world ≡ some c)
        × ((c.outcome ≡ err no_available_image) ↔ (selected set l ≡ []))
  unfolding finish
  copy_source-no_available_image s world l em el answers =
      let (st, e) = copy_entries-total l (start s world) answers in
      (
        finish st,
        copy_source_list s world l st em el e,
        none_selected st.copied st.errors (selected set l)
            (accounted-copy_entries l (start s world) st e ∙ omega arith),
      )
