-- ===== src/Source/Records.antt =====
-- pkg/source/copy.go: what a source records of the images that were copied.
pub mod Copies
use mathlib.Core.Option
use image_tools.Destination.{Destination}
use image_tools.Destination.Queries.{have_digest}
use image_tools.Hangar.Archive.Index.{ImageSpec}
use image_tools.Media.{Platform, Descriptor, OciDescriptor, SpecSet, Inspector, Remote}
use image_tools.Prelude.{
  ◌≡◌, inl, inr, true, false, ◌||◌, Option, none, some, List, [], ◌∷◌, ◌++◌, map, arith, Bool-cases,
  Option-cases, has, mark, has-mark, Holds, Holds-elim, Result, ok, err, Text, ◌==◌, ==_iff,
}
use image_tools.Source.{Source}
use image_tools.Source.Copy.{
  is_skipped, record_copied_image, copy_to, Progress, note_outcome, copy_entry, copy_entries,
  copy_index_entries,
}
use image_tools.Source.Single.{record_single}
use image_tools.Types.{ImageError}

-- The two sets hold just the architectures and systems of the recorded images.
pub record IsRecorded (s : Source) : Type 0 where
  pub by_arch : (k : Text) → has s.copied_arch k ≡ has (map (λ spec. spec.arch) s.copied_list) k
  pub by_os : (k : Text) → has s.copied_os k ≡ has (map (λ spec. spec.os) s.copied_list) k

has-map-append :
    {A : Type 0} (f : A → Text) (a : A) (l : List A) (k : Text)
    → has (map f (l ++ a ∷ [])) k ≡ (has (map f l) k || f a == k)
unfolding has
has-map-append f a [] k = ground arith
has-map-append f a (b ∷ l) k = ground (arith, has-map-append f a l k)

has-mark-map :
    {A : Type 0} (f : A → Text) (a : A) (l : List A) (set : List Text) (k : Text)
    → has set k ≡ has (map f l) k
    → has (mark (f a) set) k ≡ has (map f (l ++ a ∷ [])) k
unfolding has
has-mark-map f a [] set k h = ground (arith, has-mark (f a) k set)
has-mark-map f a (b ∷ l) set k h =
    ground (arith, has-mark (f a) k set, ==_iff (f a) k, has-map-append f a l k)

record_copied_image-IsRecorded :
    (spec : ImageSpec) (s : Source) → IsRecorded s → IsRecorded (record_copied_image spec s)
unfolding record_copied_image
record_copied_image-IsRecorded spec s r = record {
  by_arch = λ k. has-mark-map (λ x. x.arch) spec s.copied_list s.copied_arch k (r.by_arch k);
  by_os = λ k. has-mark-map (λ x. x.os) spec s.copied_list s.copied_os k (r.by_os k);
}

note_outcome-IsRecorded :
    {S : Type 0} (st : Progress S) (o : Result ImageError ImageSpec × S)
    → IsRecorded st.source
    → IsRecorded (note_outcome st o).source
unfolding note_outcome
note_outcome-IsRecorded st (ok spec, after) r = record_copied_image-IsRecorded spec st.source r
note_outcome-IsRecorded st (err e, after) r = r

pub record_single-IsRecorded :
    {S : Type 0} (s : Source) (spec : ImageSpec) (o : Result ImageError (Unit {0}) × S)
    → IsRecorded s
    → IsRecorded (record_single s spec o).source
unfolding record_single
record_single-IsRecorded s spec (ok u, after) r = record_copied_image-IsRecorded spec s r
record_single-IsRecorded s spec (err e, after) r = r

any_platform : (o : Option Platform) → Holds (λ p. Unit) o
any_platform none = tt
any_platform (some p) = tt

module _ {S : Type 0} (remote : Remote S) (registry : Inspector) (set : SpecSet)
    (dest : Destination) where
  copy_entry-IsRecorded :
      (p : Platform) (d media_type : Text) (st : Progress S)
      → IsRecorded st.source
      → Holds (λ st'. IsRecorded st'.source) (copy_entry remote registry set dest p d media_type st)
  unfolding copy_entry
  copy_entry-IsRecorded p d media_type st r = elim (Bool-cases (is_skipped set p)) [
    | inl e ↦ rw e r
    | inr e ↦ elim (Option-cases (have_digest dest d)) [
      | inl panic ↦ rw (e, panic) tt
      | inr (true, held) ↦ rw (e, held) r
      | inr (false, new) ↦
          rw (e, new)
            (note_outcome-IsRecorded st
              (copy_to remote registry st.source dest p d media_type st.world) r)
    ]
  ]

  pub copy_entries-IsRecorded :
      (l : List Descriptor) (st : Progress S)
      → IsRecorded st.source
      → Holds (λ st'. IsRecorded st'.source) (copy_entries remote registry set dest l st)
  unfolding copy_entries
  copy_entries-IsRecorded [] st r = r
  copy_entries-IsRecorded (m ∷ l) st r =
      Holds-elim (λ st'. IsRecorded st'.source) (λ st'. IsRecorded st'.source)
        (copy_entry remote registry set dest m.platform m.digest m.media_type st)
        (copy_entries remote registry set dest l)
        (copy_entry-IsRecorded m.platform m.digest m.media_type st r) (copy_entries-IsRecorded l)

  pub copy_index_entries-IsRecorded :
      (l : List OciDescriptor) (st : Progress S)
      → IsRecorded st.source
      → Holds (λ st'. IsRecorded st'.source) (copy_index_entries remote registry set dest l st)
  unfolding copy_index_entries
  copy_index_entries-IsRecorded [] st r = r
  copy_index_entries-IsRecorded (m ∷ l) st r =
      Holds-elim (λ p. Unit) (λ st'. IsRecorded st'.source) m.platform
        (λ p. elim (copy_entry remote registry set dest p m.digest m.media_type st) [
          | none ↦ none
          | some st' ↦ copy_index_entries remote registry set dest l st'
        ])
        (any_platform m.platform)
        (λ p _.
          Holds-elim (λ st'. IsRecorded st'.source) (λ st'. IsRecorded st'.source)
            (copy_entry remote registry set dest p m.digest m.media_type st)
            (copy_index_entries remote registry set dest l)
            (copy_entry-IsRecorded p m.digest m.media_type st r) (copy_index_entries-IsRecorded l))
