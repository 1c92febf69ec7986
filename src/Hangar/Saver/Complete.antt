-- ===== src/Hangar/Saver/Complete.antt =====
-- pkg/hangar/saver.go: the archive after a run without failed images.
use mathlib.Core.Option
use image_tools.Destination.{Destination, init}
use image_tools.Hangar.Archive.Index.{Image}
use image_tools.Hangar.Archive.Writer.{CacheDir, Walk}
use image_tools.Hangar.ImageList.{ListType, unknown, mirror, default, detect}
use image_tools.Hangar.Saver.{compress}
use image_tools.Hangar.Saver.Blobs.{list_blobs, IsSaved, IsCopied, IsSeen, compress-IsSaved}
use image_tools.Hangar.Saver.Run.{
  SaverOptions, SaveObject, SaveWorld, SaveRun, save_object, record_failed_image, new_run, end_with,
  end_run, note_written, store_written, store, store_outcome, after_init, after_source, save_worker,
  save_built, save_in, save_line, save_lines, close_archive, save_copy, save_run,
}
use image_tools.Media.{SpecSet}
use image_tools.Prelude.{
  ◌≡◌, refl, ◌≢◌, inl, inr, Bool, true, false, Option, none, some, List, [], ◌∷◌, arith, Bool-cases,
  has, mark, Holds, Holds-map, Result, ok, err, Text,
}
use image_tools.Source.{Source}
use image_tools.Source.Copy.{get_copied_image}
use image_tools.Source.Load.{init_source}
use image_tools.Source.Single.{Copied, copy_source}
use image_tools.Types.{
  ImageError, invalid_type, unsupported_mime, invalid_reference, fetch_failed, malformed,
  no_available_image, copy_failed,
}

mark-ne-nil : (k : Text) (set : List Text) → mark k set ≢ []
unfolding mark has
mark-ne-nil k [] h = ground arith
mark-ne-nil k (x ∷ set) h = ground arith

-- Unless an image has failed, the archive is complete.
abbrev pub IsSound : {S : Type 0} → SaveRun S → Type 0
IsSound st = st.failed_image_set ≡ [] → IsSaved st.save

module _ {S : Type 0} (env : SaveWorld S) (set : SpecSet) where
  failed-IsSound : (name : Text) (st : SaveRun S) → IsSound (record_failed_image name st)
  unfolding record_failed_image
  failed-IsSound name st h = absurd (mark-ne-nil name st.failed_image_set h)

  note_written-IsSound :
      (line : Text) (done : Bool) (st : SaveRun S)
      → (done ≡ true → IsSound st)
      → IsSound (note_written env set line done st)
  unfolding note_written
  note_written-IsSound line true st sound = sound refl
  note_written-IsSound line false st sound = failed-IsSound line st

  store_written-IsSound :
      (met : Walk) (after : S) (line : Text) (cache : CacheDir) (image : Image) (st : SaveRun S)
      → IsCopied cache image
      → IsSeen met image
      → IsSound st
      → IsSound (store_written env set (met, after) line cache image st)
  unfolding store_written
  store_written-IsSound met after line cache image st copied seen sound =
      note_written-IsSound line (compress met cache image st.save).1
        (record st { save = (compress met cache image st.save).0; world = after })
        (λ done h. compress-IsSaved met cache image st.save (sound h) copied seen done)

  store_outcome-IsSound :
      (outcome : Result ImageError (Unit {0})) (line directory : Text) (c : Copied S)
      (st : SaveRun S)
      → IsCopied (env.cache_of c.world directory) (get_copied_image c.source)
      → IsSeen (env.write c.world directory).0 (get_copied_image c.source)
      → IsSound st
      → IsSound (store_outcome env set outcome line directory c st)
  unfolding store_outcome store
  store_outcome-IsSound outcome line directory c st copied seen sound =
      let storing =
        store_written-IsSound (env.write c.world directory).0 (env.write c.world directory).1 line
          (env.cache_of c.world directory) (get_copied_image c.source) st copied seen sound in
      let failing = failed-IsSound line (record st { world = c.world }) in
      elim outcome as (λ r. IsSound (store_outcome env set r line directory c st)) [
        | ok u ↦ storing
        | err no_available_image ↦ storing
        | err invalid_type ↦ failing
        | err (unsupported_mime mime) ↦ failing
        | err invalid_reference ↦ failing
        | err (fetch_failed f) ↦ failing
        | err malformed ↦ failing
        | err copy_failed ↦ failing
      ]

  -- The cache directory of a copy holds the blobs of the images that the copy recorded, and the walk
  -- over it passes over none of them.
  abbrev pub HoldsCopy : Destination → Copied S → Type 0
  HoldsCopy d c =
      IsCopied (env.cache_of c.world d.directory) (get_copied_image c.source)
      × IsSeen (env.write c.world d.directory).0 (get_copied_image c.source)

  abbrev pub HoldsInit : Source → S → Result ImageError Destination → Type 0
  HoldsInit s w (err e) = Unit
  HoldsInit s w (ok d) = Holds (HoldsCopy d) (copy_source env.remote (env.inspector w) set d s w)

  abbrev pub HoldsSource : Destination → S → Result ImageError Source → Type 0
  HoldsSource d w (err e) = Unit
  HoldsSource d w (ok s) = HoldsInit s w (init (env.inspector w) d)

  after_init-IsSound :
      (line : Text) (s : Source) (r : Result ImageError Destination) (st : SaveRun S)
      → HoldsInit s st.world r
      → IsSound st
      → Holds IsSound (after_init env set line s r st)
  unfolding after_init
  after_init-IsSound line s (err e) st h sound = failed-IsSound line st
  after_init-IsSound line s (ok d) st h sound =
      Holds-map (HoldsCopy d) IsSound
        (copy_source env.remote (env.inspector st.world) set d s st.world)
        (λ c. store_outcome env set c.outcome line d.directory c st) h
        (λ c (copied, seen).
          store_outcome-IsSound c.outcome line d.directory c st copied seen sound)

  after_source-IsSound :
      (object : SaveObject) (r : Result ImageError Source) (st : SaveRun S)
      → HoldsSource object.destination st.world r
      → IsSound st
      → Holds IsSound (after_source env set object r st)
  unfolding after_source
  after_source-IsSound object (err e) st h sound = failed-IsSound object.image st
  after_source-IsSound object (ok s) st h sound =
      after_init-IsSound object.image s (init (env.inspector st.world) object.destination) st h
        sound

  abbrev pub HoldsBuilt : S → Result ImageError SaveObject → Type 0
  HoldsBuilt w (err e) = Unit
  HoldsBuilt w (ok object) =
      HoldsSource object.destination w (init_source (env.inspector w) object.source)

  save_built-IsSound :
      (line : Text) (r : Result ImageError SaveObject) (st : SaveRun S)
      → HoldsBuilt st.world r
      → IsSound st
      → Holds IsSound (save_built env set line r st)
  unfolding save_built save_worker
  save_built-IsSound line (err e) st h sound = failed-IsSound line st
  save_built-IsSound line (ok object) st h sound =
      after_source-IsSound object (init_source (env.inspector st.world) object.source) st h sound

  module _ (o : SaverOptions) where
    abbrev pub HoldsIn : Text → Option Text × S → Type 0
    HoldsIn line (none, after) = Unit
    HoldsIn line (some directory, after) = HoldsBuilt after (save_object o directory line)

    abbrev pub HoldsLine : ListType → Text → S → Type 0
    HoldsLine default line w = HoldsIn line (env.make_dir w)
    HoldsLine t line w = Unit

    -- In the run over the lines, each cache directory holds the blobs of its copy.
    abbrev pub HoldsAll : List Text → SaveRun S → Type 0
    HoldsAll [] st = Unit
    HoldsAll (line ∷ lines) st =
        HoldsLine (detect line) line st.world
        × Holds (HoldsAll lines) (save_line env set o (detect line) line st)

    save_in-IsSound :
        (line : Text) (made : Option Text × S) (st : SaveRun S)
        → HoldsIn line made
        → IsSound st
        → Holds IsSound (save_in env set o line made st)
    unfolding save_in
    save_in-IsSound line (none, after) st h sound =
        failed-IsSound line (record st { world = after })
    save_in-IsSound line (some directory, after) st h sound =
        save_built-IsSound line (save_object o directory line) (record st { world = after }) h sound

    save_line-IsSound :
        (t : ListType) (line : Text) (st : SaveRun S)
        → HoldsLine t line st.world
        → IsSound st
        → Holds IsSound (save_line env set o t line st)
    unfolding save_line
    save_line-IsSound default line st h sound =
        save_in-IsSound line (env.make_dir st.world) st h sound
    save_line-IsSound mirror line st h sound = sound
    save_line-IsSound unknown line st h sound = sound

    next-IsSound :
        (lines : List Text) (r : Option (SaveRun S))
        → ((st : SaveRun S)
            → HoldsAll lines st
            → IsSound st
            → Holds IsSound (save_lines env set o lines st))
        → Holds (HoldsAll lines) r
        → Holds IsSound r
        → Holds IsSound (Option.bind r (save_lines env set o lines))
    unfolding Option.bind
    next-IsSound lines none k h sound = tt
    next-IsSound lines (some st) k h sound = k st h sound

    pub save_lines-IsSound :
        (lines : List Text) (st : SaveRun S)
        → HoldsAll lines st
        → IsSound st
        → Holds IsSound (save_lines env set o lines st)
    unfolding save_lines
    save_lines-IsSound [] st h sound = sound
    save_lines-IsSound (line ∷ lines) st (h, hs) sound =
        next-IsSound lines (save_line env set o (detect line) line st) (save_lines-IsSound lines) hs
          (save_line-IsSound (detect line) line st h sound)

-- After a run that ends without an error, every blob that an image of the index needs is in the archive;
-- and the index that was written into the archive, if one was, is this index.
abbrev pub IsComplete : {S : Type 0} → Result ImageError (SaveRun S) → Type 0
IsComplete (err e) = Unit
IsComplete (ok st) =
    ((k : Text) → has (list_blobs st.save.index.list) k ≡ true → has st.save.blobs k ≡ true)
    × Holds (λ i. i ≡ st.save.index) st.stored_index

-- The state at the end of `copy`.
abbrev pub IsEnded : {S : Type 0} → SaveRun S → Type 0
IsEnded st = IsSound st × Holds (λ i. i ≡ st.save.index) st.stored_index

pub close_archive-IsEnded :
    {S : Type 0} (env : SaveWorld S) (set : SpecSet) (st : SaveRun S)
    → IsSound st
    → IsEnded (close_archive env set st)
unfolding close_archive
close_archive-IsEnded env set st sound =
    elim (Bool-cases (env.write_index st.world st.save.index).0) [
      | inl stored ↦ rw stored (sound, refl)
      | inr unstored ↦ rw unstored (sound, tt)
    ]

ended :
    {S : Type 0} (st : SaveRun S) (names : List Text)
    → st.failed_image_set ≡ names
    → IsEnded st
    → IsComplete (end_with st names)
unfolding end_with
ended st [] e (sound, same) = (λ k h. (sound e).stored k ((sound e).listed k h), same)
ended st (image ∷ images) e sound = tt

pub end_run-IsComplete : {S : Type 0} (st : SaveRun S) → IsEnded st → IsComplete (end_run st)
unfolding end_run
end_run-IsComplete st sound = ended st st.failed_image_set refl sound

empty-IsSaved : {S : Type 0} (world : S) → IsSaved (new_run world).save
unfolding new_run list_blobs has
empty-IsSaved world = record { listed = λ k h. ground arith; stored = λ k h. ground arith }

pub save_copy-IsEnded :
    {S : Type 0} (env : SaveWorld S) (set : SpecSet) (o : SaverOptions) (lines : List Text)
    (st : SaveRun S)
    → HoldsAll env set o lines st
    → IsSound st
    → Holds IsEnded (save_copy env set o lines st)
unfolding save_copy
save_copy-IsEnded env set o lines st h sound =
    Holds-map IsSound IsEnded (save_lines env set o lines st) (close_archive env set)
      (save_lines-IsSound env set o lines st h sound) (close_archive-IsEnded env set)

-- When a run of a saver returns without an error, every blob that an image of its index needs is in the
-- archive, and the index that was written into the archive, if one was, is this index. This holds if
-- each cache directory holds the blobs of the images that the copy to it recorded, and no walk over
-- one passes over these blobs.
pub save_run-IsComplete :
    {S : Type 0} (env : SaveWorld S) (set : SpecSet) (o : SaverOptions) (lines : List Text)
    (world : S)
    → HoldsAll env set o lines (new_run world)
    → Holds IsComplete (save_run env set o lines world)
unfolding save_run
save_run-IsComplete env set o lines world h =
    Holds-map IsEnded IsComplete (save_copy env set o lines (new_run world)) end_run
      (save_copy-IsEnded env set o lines (new_run world) h (λ e. empty-IsSaved world))
      end_run-IsComplete
