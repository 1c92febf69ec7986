-- ===== src/Source/Platforms.antt =====
-- pkg/source/copy.go: after a copy without errors, the records are those of the missing images.
use image_tools.Destination.{Destination}
use image_tools.Destination.Queries.{have_digest}
use image_tools.Hangar.Archive.Index.{ImageSpec}
use image_tools.Media.{
  Mime, absent, docker_list, docker_schema2, docker_schema1, docker_schema1_signed, other, Platform,
  Descriptor, SpecSet, Fetched, failed, raw, Inspector, Remote,
}
use image_tools.Prelude.{
  ℕ, suc, ◌≡◌, refl, sym, ap, ◌∙◌, ◌≢◌, inl, inr, Bool, true, false, not, ◌&&◌, none, some, List,
  [], ◌∷◌, ◌++◌, map, append-nil, append_assoc, cons-ne-nil, arith, if◌then◌else◌, Bool-cases,
  Option-cases, Holds, Holds-elim, Holds-weaken, Holds_some, Result, ok, err, ◌>>◌, Text,
}
use image_tools.Source.{Source}
use image_tools.Source.Copy.{
  is_skipped, update_spec, record_copied_image, spec_of_platform, complete_spec, inspect_copied,
  copy_to, Progress, note_outcome, copy_entry, copy_entries,
}
use image_tools.Source.Outcomes.{Answers, copy_entries-total, copy_source_list}
use image_tools.Source.Single.{Copied, outcome_of, finish, start, copy_source}
use image_tools.Types.{ImageError}

abbrev pub spec_platform : ImageSpec → Platform
spec_platform spec = record {
  architecture = spec.arch;
  os = spec.os;
  os_version = spec.os_version;
  os_features = spec.os_features;
  variant = spec.variant;
}

platform-complete_spec :
    (registry : Inspector) (b : Text) (mime : Mime) (spec spec' : ImageSpec)
    → complete_spec registry b mime spec ≡ ok spec'
    → spec_platform spec' ≡ spec_platform spec
unfolding complete_spec update_spec
platform-complete_spec registry b docker_schema2 spec spec' h =
    elim (Option-cases (registry.parse_schema2 b)) [
      | inl e ↦ ground arith
      | inr (m, e) ↦ ground arith
    ]
platform-complete_spec registry b Mime.oci_manifest spec spec' h =
    elim (Option-cases (registry.parse_manifest b)) [
      | inl e ↦ ground arith
      | inr (m, e) ↦ ground arith
    ]
platform-complete_spec registry b absent spec spec' h = ground arith
platform-complete_spec registry b docker_list spec spec' h = ground arith
platform-complete_spec registry b docker_schema1 spec spec' h = ground arith
platform-complete_spec registry b docker_schema1_signed spec spec' h = ground arith
platform-complete_spec registry b Mime.oci_index spec spec' h = ground arith
platform-complete_spec registry b (other t) spec spec' h = ground arith

platform-inspect_copied :
    (registry : Inspector) (f : Fetched) (p : Platform) (media_type : Text) (spec : ImageSpec)
    → inspect_copied registry f p media_type ≡ ok spec
    → spec_platform spec ≡ p
unfolding inspect_copied
platform-inspect_copied registry (failed e) p media_type spec h = ground arith
platform-inspect_copied registry (raw b mime) p media_type spec h =
    elim (Option-cases (registry.manifest_digest b)) [
      | inl e ↦ ground arith
      | inr (d, e) ↦
          ground
            (arith, platform-complete_spec registry b mime (spec_of_platform p media_type d) spec)
    ]

-- An image that is not skipped and that the destination does not hold.
unfoldable pub is_wanted : SpecSet → Destination → Descriptor → Bool
unfolding is_skipped have_digest
is_wanted set dest m =
    not (is_skipped set m.platform)
    && elim (have_digest dest m.digest) [ none ↦ false | some held ↦ not held ]

platforms : SpecSet → Destination → Descriptor → List Platform
platforms set dest m = if is_wanted set dest m then m.platform ∷ [] else []

-- The platforms of the wanted images, in the order of the list.
unfoldable pub wanted_platforms : SpecSet → Destination → List Descriptor → List Platform
unfolding platforms
wanted_platforms set dest [] = []
wanted_platforms set dest (m ∷ l) = platforms set dest m ++ wanted_platforms set dest l

then_ok :
    {A : Type 0} (o : Result ImageError (Unit {0})) (r : Result ImageError A) (a : A)
    → (o >> r) ≡ ok a
    → r ≡ ok a
then_ok (ok u) r a h = h
then_ok (err e) r a h = ground arith

snoc-ne-nil : {A : Type 0} (l : List A) (a : A) → (l ++ a ∷ []) ≢ []
snoc-ne-nil [] a = cons-ne-nil a []
snoc-ne-nil (b ∷ l) a = cons-ne-nil b (l ++ a ∷ [])

map-snoc :
    {A B : Type 0} (f : A → B) (l : List A) (a : A) → map f (l ++ a ∷ []) ≡ map f l ++ f a ∷ []
map-snoc f [] a = refl
map-snoc f (b ∷ l) a = ap (λ r. f b ∷ r) (map-snoc f l a)

recorded_platforms : Source → List Platform
recorded_platforms s = map spec_platform s.copied_list

module _ {S : Type 0} where
  -- From one state of the loop to the next without an error, the records grow by a list.
  Grows : Progress S → List Platform → Progress S → Type 0
  Grows st ps st' =
      st'.errors ≡ []
      → (st.errors ≡ []) × (recorded_platforms st'.source ≡ recorded_platforms st.source ++ ps)

  Grows-note_outcome :
      (st : Progress S) (o : Result ImageError ImageSpec × S) (p : Platform)
      → ((spec : ImageSpec) → o.0 ≡ ok spec → spec_platform spec ≡ p)
      → Grows st (p ∷ []) (note_outcome st o)
  unfolding note_outcome Grows recorded_platforms record_copied_image
  Grows-note_outcome st (ok spec, after) p h none_failed = (
    none_failed,
    map-snoc spec_platform st.source.copied_list spec
        ∙ ap (λ q. map spec_platform st.source.copied_list ++ q ∷ []) (h spec refl),
  )
  Grows-note_outcome st (err e, after) p h none_failed =
      absurd (snoc-ne-nil st.errors e none_failed)

  Grows-refl :
      (st st' : Progress S) → st'.errors ≡ st.errors → st'.source ≡ st.source → Grows st [] st'
  unfolding Grows recorded_platforms
  Grows-refl st st' he hs none_failed = (
    sym he ∙ none_failed,
    ap recorded_platforms hs ∙ sym (append-nil (recorded_platforms st.source)),
  )

  Grows-append :
      (st st₁ st₂ : Progress S) (ps qs : List Platform)
      → Grows st ps st₁
      → Grows st₁ qs st₂
      → Grows st (ps ++ qs) st₂
  unfolding Grows
  Grows-append st st₁ st₂ ps qs g g₁ none_failed =
      let (e₁, r₁) = g₁ none_failed in
      let (e, r) = g e₁ in
      (e, r₁ ∙ ap (λ l. l ++ qs) r ∙ append_assoc (recorded_platforms st.source) ps qs)

nil_of_outcome : (n : ℕ) (errors : List ImageError) → outcome_of n errors ≡ ok tt → errors ≡ []
unfolding outcome_of
nil_of_outcome n [] h = refl
nil_of_outcome n (e ∷ es) h = ground arith

module _ {S : Type 0} (remote : Remote S) (registry : Inspector) (set : SpecSet)
    (dest : Destination) where
  platform-copy_to :
      (s : Source) (p : Platform) (d media_type : Text) (world : S) (spec : ImageSpec)
      → (copy_to remote registry s dest p d media_type world).0 ≡ ok spec
      → spec_platform spec ≡ p
  unfolding copy_to
  platform-copy_to s p d media_type world spec h =
      platform-inspect_copied registry _ p media_type spec (then_ok _ _ spec h)

  Grows-copy_entry :
      (m : Descriptor) (st : Progress S)
      → Holds
          (Grows st (platforms set dest m))
          (copy_entry remote registry set dest m.platform m.digest m.media_type st)
  unfolding copy_entry is_wanted platforms
  Grows-copy_entry m st = elim (Bool-cases (is_skipped set m.platform)) [
    | inl e ↦ rw e (Grows-refl st st refl refl)
    | inr e ↦ elim (Option-cases (have_digest dest m.digest)) [
      | inl panic ↦ rw (e, panic) tt
      | inr (true, held) ↦
          rw (e, held) (Grows-refl st (record st { copied = suc st.copied }) refl refl)
      | inr (false, new) ↦
          rw (e, new)
            (Grows-note_outcome st
              (copy_to remote registry st.source dest m.platform m.digest m.media_type st.world)
              m.platform (platform-copy_to st.source m.platform m.digest m.media_type st.world))
    ]
  ]

  Grows-copy_entries :
      (l : List Descriptor) (st : Progress S)
      → Holds (Grows st (wanted_platforms set dest l)) (copy_entries remote registry set dest l st)
  unfolding copy_entries wanted_platforms
  Grows-copy_entries [] st = Grows-refl st st refl refl
  Grows-copy_entries (m ∷ l) st =
      Holds-elim (Grows st (platforms set dest m))
        (Grows st (platforms set dest m ++ wanted_platforms set dest l))
        (copy_entry remote registry set dest m.platform m.digest m.media_type st)
        (copy_entries remote registry set dest l) (Grows-copy_entry m st)
        (λ st₁ g.
          Holds-weaken (copy_entries remote registry set dest l st₁)
            (λ st₂. Grows-append st st₁ st₂ (platforms set dest m) (wanted_platforms set dest l) g)
            (Grows-copy_entries l st₁))

  -- The copy of a Docker list to a destination that answers its questions returns, and if it returns
  -- no error, the records of a source that had none are, by their platforms and in the order of the
  -- list, those of the images that the sets select and that the destination does not hold.
  pub copy_source-wanted_platforms :
      (s : Source) (world : S) (l : List Descriptor)
      → s.mime ≡ docker_list
      → s.schema2_list ≡ some l
      → s.copied_list ≡ []
      → Answers remote registry set dest
      → (c : Copied S) × (copy_source remote registry set dest s world ≡ some c)
        × (c.outcome ≡ ok tt → map spec_platform c.source.copied_list ≡ wanted_platforms set dest l)
  unfolding finish Grows recorded_platforms
  copy_source-wanted_platforms s world l em el fresh answers =
      let (st, e) = copy_entries-total remote registry set dest l (start s world) answers in
      (
        finish st,
        copy_source_list remote registry set dest s world l st em el e,
        λ h.
            (Holds_some (Grows (start s world) (wanted_platforms set dest l)) e
              (Grows-copy_entries l (start s world)) (nil_of_outcome st.copied st.errors h)).1
            ∙ ap (λ r. map spec_platform r ++ wanted_platforms set dest l) fresh,
      )
