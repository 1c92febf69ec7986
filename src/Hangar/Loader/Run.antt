-- ===== src/Hangar/Loader/Run.antt =====
-- pkg/hangar/loader.go: the loop over the lines, and `Run`. The workers run one after another here.
use mathlib.Core.Option
use image_tools.Destination.{or_default}
use image_tools.Hangar.Archive.Index.{Image, Index}
use image_tools.Hangar.ImageList.{ListType, default, detect}
use image_tools.Hangar.Layers.{new_layer_manager, clean_all}
use image_tools.Hangar.Loader.{LoaderOptions, archived_name}
use image_tools.Hangar.Loader.Worker.{LoadWorld, LoadRun, load_failed, load_worker}
use image_tools.Media.{SpecSet}
use image_tools.Prelude.{Option, none, some, List, [], ◌∷◌, lookup, insert, Result, ok, err, Text}
use image_tools.Types.{ImageError, copy_failed}
use image_tools.Utils.ImageName.{
  get_project_name, get_registry_name, get_image_name, get_image_tag, full_name,
}

-- The registry and the project that replace those of the lines.
pub record SourceNames : Type 0 where
  pub source_registry : Text
  pub source_project : Text

-- The name under which the archive is asked for the image of a line.
unfoldable pub wanted_name : SourceNames → Text → Text
unfolding full_name get_registry_name get_project_name get_image_name get_image_tag
wanted_name o line =
    full_name (or_default o.source_registry (get_registry_name line))
      (or_default o.source_project (get_project_name line)) (get_image_name line)
      (get_image_tag line)

-- `indexImageSet`
unfoldable pub index_image_set : List Image → List (Text × Image) → List (Text × Image)
unfolding insert
index_image_set [] known = known
index_image_set (image ∷ images) known =
    index_image_set images (insert (archived_name image) image known)

module _ {S : Type 0} (env : LoadWorld S) (set : SpecSet) where
  -- All images of an archive.
  unfoldable pub load_images : LoaderOptions → List Image → LoadRun S → Option (LoadRun S)
  unfolding load_worker
  load_images o [] st = some st
  load_images o (image ∷ images) st =
      Option.bind (load_worker env set o image st) (load_images o images)

  -- The image of a line, which may not be in the archive.
  unfoldable pub load_found : LoaderOptions → Text → Option Image → LoadRun S → Option (LoadRun S)
  unfolding load_worker load_failed
  load_found o line none st = some (load_failed line st)
  load_found o line (some image) st = load_worker env set o image st

  module _ (sources : SourceNames) (o : LoaderOptions) (known : List (Text × Image)) where
    -- Lines of another format are ignored.
    unfoldable pub load_line : ListType → Text → LoadRun S → Option (LoadRun S)
    unfolding load_found lookup wanted_name
    load_line default line st = load_found o line (lookup (wanted_name sources line) known) st
    load_line t line st = some st

    unfoldable pub load_lines : List Text → LoadRun S → Option (LoadRun S)
    unfolding load_line detect
    load_lines [] st = some st
    load_lines (line ∷ lines) st = Option.bind (load_line (detect line) line st) (load_lines lines)

  abbrev pub without_cache : LoadRun S → LoadRun S
  without_cache st = record st { layers = clean_all st.layers }

  -- `copy`: the lines, or all images if there are none; then the cache is deleted.
  unfoldable pub load_copy :
      SourceNames → LoaderOptions → Index → List Text → LoadRun S → Option (LoadRun S)
  unfolding load_lines load_images index_image_set clean_all
  load_copy sources o index [] st = Option.map without_cache (load_images o index.list st)
  load_copy sources o index (line ∷ lines) st =
      Option.map without_cache
        (load_lines sources o (index_image_set index.list []) (line ∷ lines) st)

  -- The error at the end of `Run` is that some image failed.
  unfoldable pub load_end : LoadRun S → List Text → Result ImageError (LoadRun S)
  load_end st [] = ok st
  load_end st (image ∷ images) = err copy_failed

  -- `NewLoader` and `Run`, for an archive with this index.
  unfoldable pub load_run :
      SourceNames → LoaderOptions → Index → List Text → S → Option (Result ImageError (LoadRun S))
  unfolding load_copy load_end new_layer_manager
  load_run sources o index lines world =
      Option.map (λ st. load_end st st.failed_image_set)
        (load_copy sources o index lines (record {
          layers = new_layer_manager env.encoded index;
          failed_image_set = [];
          world = world;
        }))
