-- ===== src/Hangar/Saver/Run.antt =====
-- pkg/hangar/saver.go: the objects of the lines, the workers, and `Run`. The workers run one after
-- another here, in the order in which they get the lock of the archive.
use mathlib.Core.Option
use image_tools.Destination.{Destination, DestinationOption, or_default, new_destination, init}
use image_tools.Hangar.Archive.Index.{Image, Index, new_index}
use image_tools.Hangar.Archive.Writer.{CacheDir, Walk}
use image_tools.Hangar.ImageList.{ListType, default, detect}
use image_tools.Hangar.Saver.{SaveState, compress}
use image_tools.Media.{SpecSet, Inspector, Remote}
use image_tools.Prelude.{
  Bool, true, false, Option, none, some, List, [], ◌∷◌, if◌then◌else◌, mark, Result, ok, err, ◌>>=◌,
  Text,
}
use image_tools.Source.{Source, SourceOption, new_source}
use image_tools.Source.Copy.{get_copied_image}
use image_tools.Source.Load.{init_source}
use image_tools.Source.Single.{Copied, copy_source}
use image_tools.Types.{docker, oci, ImageError, no_available_image, copy_failed}
use image_tools.Utils.ImageName.{get_project_name, get_registry_name, get_image_name, get_image_tag}

pub record SaverOptions : Type 0 where
  pub source_registry : Text
  pub source_project : Text

pub record SaveObject : Type 0 where
  pub image : Text
  pub source : Source
  pub destination : Destination

-- What a saver finds outside, in states that change: the copier, the registry that the sources and
-- destinations read, `os.MkdirTemp` (`none` for an error), the files in a cache directory, what the
-- walk of a write meets in it, and whether the index is written and the archive is closed.
pub record SaveWorld (S : Type 0) : Type 0 where
  pub remote : Remote S
  pub inspector : S → Inspector
  pub make_dir : S → Option Text × S
  pub cache_of : S → Text → CacheDir
  pub write : S → Text → Walk × S
  pub write_index : S → Index → Bool × S
  pub close : S → Bool × S

-- `stored_index` is the index that was written into the archive, if one was.
pub record SaveRun (S : Type 0) : Type 0 where
  pub save : SaveState
  pub failed_image_set : List Text
  pub stored_index : Option Index
  pub is_closed : Bool
  pub world : S

unfoldable pub save_source : SaverOptions → Text → SourceOption
unfolding get_registry_name get_project_name get_image_name get_image_tag
save_source o line = record {
  image_type = docker;
  directory = [];
  registry = or_default o.source_registry (get_registry_name line);
  project = or_default o.source_project (get_project_name line);
  name = get_image_name line;
  tag = get_image_tag line;
  digest = [];
}

unfoldable pub save_destination : Text → Text → DestinationOption
unfolding get_image_name get_image_tag
save_destination directory line = record {
  image_type = oci;
  directory = directory;
  registry = [];
  project = [];
  name = get_image_name line;
  tag = get_image_tag line;
}

unfoldable pub save_object : SaverOptions → Text → Text → Result ImageError SaveObject
unfolding new_source new_destination save_source save_destination
save_object o directory line = do
  s ← new_source (save_source o line)
  d ← new_destination (save_destination directory line)
  ok (record { image = line; source = s; destination = d })

unfoldable pub record_failed_image : {S : Type 0} → Text → SaveRun S → SaveRun S
unfolding mark
record_failed_image name st = record st { failed_image_set = mark name st.failed_image_set }

unfoldable pub new_run : {S : Type 0} → S → SaveRun S
unfolding new_index
new_run world = record {
  save = record { layers_set = []; index = new_index []; blobs = []; images = [] };
  failed_image_set = [];
  stored_index = none;
  is_closed = false;
  world = world;
}

-- The error at the end of `Run` is that some image failed.
unfoldable pub end_with : {S : Type 0} → SaveRun S → List Text → Result ImageError (SaveRun S)
end_with st [] = ok st
end_with st (image ∷ images) = err copy_failed

unfoldable pub end_run : {S : Type 0} → SaveRun S → Result ImageError (SaveRun S)
unfolding end_with
end_run st = end_with st st.failed_image_set

module _ {S : Type 0} (env : SaveWorld S) (set : SpecSet) where
  -- The line of a write that fails is recorded.
  unfoldable pub note_written : Text → Bool → SaveRun S → SaveRun S
  unfolding record_failed_image
  note_written line true st = st
  note_written line false st = record_failed_image line st

  -- What a write leaves.
  unfoldable pub store_written : Walk × S → Text → CacheDir → Image → SaveRun S → SaveRun S
  unfolding compress note_written
  store_written (met, after) line cache image st =
      let (save, done) = compress met cache image st.save in
      note_written line done (record st { save = save; world = after })

  -- An image that was copied to its cache directory is written to the archive.
  unfoldable pub store : Text → Text → Copied S → SaveRun S → SaveRun S
  unfolding store_written get_copied_image
  store line directory c st =
      store_written (env.write c.world directory) line (env.cache_of c.world directory)
        (get_copied_image c.source) st

  -- The error that no image is available is passed over.
  unfoldable pub store_outcome :
      Result ImageError (Unit {0}) → Text → Text → Copied S → SaveRun S → SaveRun S
  unfolding store record_failed_image
  store_outcome (ok u) line directory c st = store line directory c st
  store_outcome (err no_available_image) line directory c st = store line directory c st
  store_outcome (err e) line directory c st =
      record_failed_image line (record st { world = c.world })

  -- `worker`, behind the two initialisations; `none` is a panic of `Copy`.
  unfoldable pub after_init :
      Text → Source → Result ImageError Destination → SaveRun S → Option (SaveRun S)
  unfolding copy_source store_outcome record_failed_image
  after_init line s (err e) st = some (record_failed_image line st)
  after_init line s (ok d) st =
      Option.map (λ c. store_outcome c.outcome line d.directory c st)
        (copy_source env.remote (env.inspector st.world) set d s st.world)

  unfoldable pub after_source :
      SaveObject → Result ImageError Source → SaveRun S → Option (SaveRun S)
  unfolding after_init init record_failed_image
  after_source object (err e) st = some (record_failed_image object.image st)
  after_source object (ok s) st =
      after_init object.image s (init (env.inspector st.world) object.destination) st

  unfoldable pub save_worker : SaveObject → SaveRun S → Option (SaveRun S)
  unfolding after_source init_source
  save_worker object st =
      after_source object (init_source (env.inspector st.world) object.source) st

  -- The object of a line goes to a worker.
  unfoldable pub save_built : Text → Result ImageError SaveObject → SaveRun S → Option (SaveRun S)
  unfolding save_worker record_failed_image
  save_built line (err e) st = some (record_failed_image line st)
  save_built line (ok object) st = save_worker object st

  -- The cache directory is made first.
  unfoldable pub save_in : SaverOptions → Text → Option Text × S → SaveRun S → Option (SaveRun S)
  unfolding save_object save_built record_failed_image
  save_in o line (none, after) st = some (record_failed_image line (record st { world = after }))
  save_in o line (some directory, after) st =
      save_built line (save_object o directory line) (record st { world = after })

  -- Lines of another format are ignored.
  unfoldable pub save_line : SaverOptions → ListType → Text → SaveRun S → Option (SaveRun S)
  unfolding save_in
  save_line o default line st = save_in o line (env.make_dir st.world) st
  save_line o t line st = some st

  unfoldable pub save_lines : SaverOptions → List Text → SaveRun S → Option (SaveRun S)
  unfolding save_line detect
  save_lines o [] st = some st
  save_lines o (line ∷ lines) st =
      Option.bind (save_line o (detect line) line st) (save_lines o lines)

  -- The end of `copy`. That the index is not written, or the archive not closed, is only logged.
  unfoldable pub close_archive : SaveRun S → SaveRun S
  close_archive st =
      let (stored, after) = env.write_index st.world st.save.index in
      let (closed, last) = env.close after in
      record st {
        stored_index = if stored then some st.save.index else none;
        is_closed = closed;
        world = last;
      }

  unfoldable pub save_copy : SaverOptions → List Text → SaveRun S → Option (SaveRun S)
  unfolding save_lines close_archive
  save_copy o lines st = Option.map close_archive (save_lines o lines st)

  -- `Run` on a new archive; the error is that some image failed.
  unfoldable pub save_run : SaverOptions → List Text → S → Option (Result ImageError (SaveRun S))
  unfolding save_copy end_run new_run
  save_run o lines world = Option.map end_run (save_copy o lines (new_run world))
