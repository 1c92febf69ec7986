-- ===== src/Hangar/Loader/Failed.antt =====
-- pkg/hangar/loader.go: lines that name no image of the archive.
pub mod Grown
use mathlib.Core.Option
use image_tools.Hangar.Loader.Failed.Grown.{IsGrown, load_found-IsGrown}
use image_tools.Hangar.Archive.Index.{Image, Index}
use image_tools.Hangar.ImageList.{ListType, unknown, mirror, default, detect}
use image_tools.Hangar.Layers.{new_layer_manager}
use image_tools.Hangar.Loader.{LoaderOptions, archived_name}
use image_tools.Hangar.Loader.Run.{
  SourceNames, wanted_name, index_image_set, load_found, load_line, load_lines, without_cache,
  load_copy, load_end, load_run,
}
use image_tools.Hangar.Loader.Worker.{LoadWorld, LoadRun, load_failed}
use image_tools.Media.{SpecSet}
use image_tools.Prelude.{
  ◌≡◌, refl, sym, subst, inl, inr, true, false, Option, none, some, List, [], ◌∷◌, arith,
  Bool-cases, has, has-mark, lookup, insert, lookup-insert, Holds, Holds-map, Holds-bind,
  Holds-weaken, All, err, Text, ◌==◌, ==_refl, ==_eq,
}
use image_tools.Types.{copy_failed}

module _ {S : Type 0} (env : LoadWorld S) (set : SpecSet) where
  module _ (sources : SourceNames) (o : LoaderOptions) (known : List (Text × Image)) where
    load_line-IsGrown :
        (t : ListType) (line : Text) (st : LoadRun S)
        → Holds (IsGrown st) (load_line env set sources o known t line st)
    unfolding load_line
    load_line-IsGrown default line st = load_found-IsGrown env set o line _ st
    load_line-IsGrown mirror line st = λ k h. h
    load_line-IsGrown unknown line st = λ k h. h

    abbrev pub HasFailed : Text → LoadRun S → Type 0
    HasFailed line st = has st.failed_image_set line ≡ true

    -- A line of an unknown image fails.
    missing_fails :
        (line : Text) (st : LoadRun S)
        → detect line ≡ default
        → lookup (wanted_name sources line) known ≡ none
        → Holds (HasFailed line) (load_line env set sources o known (detect line) line st)
    unfolding load_line load_found load_failed
    missing_fails line st ed e =
        rw (ed, e) (ground (arith, has-mark line line st.failed_image_set, ==_refl line))

    bind-HasFailed :
        (line : Text) (lines : List Text) (r : Option (LoadRun S))
        → Holds (HasFailed line) r
        → ((st : LoadRun S)
            → HasFailed line st
            → Holds (HasFailed line) (load_lines env set sources o known lines st))
        → Holds (HasFailed line) (Option.bind r (load_lines env set sources o known lines))
    unfolding Option.bind
    bind-HasFailed line lines none h k = tt
    bind-HasFailed line lines (some st) h k = k st h

    stays-HasFailed :
        (line : Text) (lines : List Text) (st : LoadRun S)
        → HasFailed line st
        → Holds (HasFailed line) (load_lines env set sources o known lines st)
    unfolding load_lines
    stays-HasFailed line [] st h = h
    stays-HasFailed line (l ∷ lines) st h =
        bind-HasFailed line lines (load_line env set sources o known (detect l) l st)
          (Holds-weaken (load_line env set sources o known (detect l) l st)
            (λ after grown. grown line h) (load_line-IsGrown (detect l) l st))
          (stays-HasFailed line lines)

    load_lines-HasFailed :
        (line : Text) (lines : List Text) (st : LoadRun S)
        → has lines line ≡ true
        → detect line ≡ default
        → lookup (wanted_name sources line) known ≡ none
        → Holds (HasFailed line) (load_lines env set sources o known lines st)
    unfolding load_lines has
    load_lines-HasFailed line [] st h ed e = ground arith
    load_lines-HasFailed line (l ∷ lines) st h ed e = elim (Bool-cases (l == line)) [
      | inl same ↦
          bind-HasFailed line lines (load_line env set sources o known (detect l) l st)
            (subst (λ x. Holds (HasFailed line) (load_line env set sources o known (detect x) x st))
              (sym (==_eq same)) (missing_fails line st ed e))
            (stays-HasFailed line lines)
      | inr differs ↦
          Holds-bind (HasFailed line) (load_line env set sources o known (detect l) l st)
            (load_lines env set sources o known lines)
            (λ after. load_lines-HasFailed line lines after (ground arith) ed e)
    ]

-- A name that no image of an archive has is not in its map.
lookup-index_image_set :
    (name : Text) (images : List Image) (known : List (Text × Image))
    → All (λ image. (archived_name image == name) ≡ false) images
    → lookup name known ≡ none
    → lookup name (index_image_set images known) ≡ none
unfolding index_image_set
lookup-index_image_set name [] known h e = e
lookup-index_image_set name (image ∷ images) known (hi, h) e =
    lookup-index_image_set name images (insert (archived_name image) image known) h
      (rw (lookup-insert (archived_name image) name image known, hi) e)

load_end-failed :
    {S : Type 0} (env : LoadWorld S) (set : SpecSet) (line : Text) (st : LoadRun S)
    (names : List Text)
    → has names line ≡ true
    → load_end env set st names ≡ err copy_failed
unfolding load_end has
load_end-failed env set line st [] h = ground arith
load_end-failed env set line st (name ∷ names) h = refl

-- When a line of the default format names an image that no image of the archive is named, the run of
-- a loader over lines with this line returns an error, unless the process panics.
pub load_run-failed :
    {S : Type 0} (env : LoadWorld S) (set : SpecSet) (sources : SourceNames) (o : LoaderOptions)
    (index : Index) (lines : List Text) (line : Text) (world : S)
    → has lines line ≡ true
    → detect line ≡ default
    → All (λ image. (archived_name image == wanted_name sources line) ≡ false) index.list
    → Holds (λ r. r ≡ err copy_failed) (load_run env set sources o index lines world)
unfolding load_run load_copy has lookup
load_run-failed env set sources o index [] line world h ed missing = ground arith
load_run-failed {S} env set sources o index (l ∷ lines) line world h ed missing =
    let known = index_image_set index.list [] in
    let initial : LoadRun S = record {
      layers = new_layer_manager env.encoded index;
      failed_image_set = [];
      world = world;
    } in
    Holds-map (HasFailed env set sources o known line) (λ r. r ≡ err copy_failed) _ _
      (Holds-map (HasFailed env set sources o known line) (HasFailed env set sources o known line)
        (load_lines env set sources o known (l ∷ lines) initial) (without_cache env set)
        (load_lines-HasFailed env set sources o known line (l ∷ lines) initial h ed
          (lookup-index_image_set (wanted_name sources line) index.list [] missing refl))
        (λ st e. e))
      (λ st e. load_end-failed env set line st st.failed_image_set e)
