-- ===== src/Hangar/Syncer/Run.antt =====
-- pkg/hangar/syncer.go: `copy` and `Run`. The loop over the lines and the worker are those of the
-- saver, on the updater of an archive that is there.
use mathlib.Core.Option
use image_tools.Hangar.Archive.Index.{Index}
use image_tools.Hangar.Saver.Blobs.{list_blobs}
use image_tools.Hangar.Saver.Complete.{
  HoldsAll, IsComplete, IsEnded, end_run-IsComplete, save_copy-IsEnded,
}
use image_tools.Hangar.Saver.Run.{
  SaverOptions, SaveObject, SaveWorld, SaveRun, end_run, save_worker, save_copy,
}
use image_tools.Hangar.Syncer.{start_sync}
use image_tools.Hangar.Syncer.Start.{start_sync-IsSaved}
use image_tools.Media.{SpecSet}
use image_tools.Prelude.{
  ◌≡◌, true, false, Option, none, List, [], has, Holds, Holds-map, Result, Text,
}
use image_tools.Types.{ImageError}

module _ {S : Type 0} (env : SaveWorld S) (set : SpecSet) where
  abbrev pub sync_worker : SaveObject → SaveRun S → Option (SaveRun S)
  sync_worker object st = save_worker env set object st

  -- The updater appends to the archive with the walk of the writer, and its index replaces the old one.
  abbrev pub sync_copy : SaverOptions → List Text → SaveRun S → Option (SaveRun S)
  sync_copy o lines st = save_copy env set o lines st

  abbrev pub opened_run : Index → List Text → List Text → S → SaveRun S
  opened_run index blobs images world = record {
    save = start_sync index blobs images;
    failed_image_set = [];
    stored_index = none;
    is_closed = false;
    world = world;
  }

  -- `Run` on an archive with this index, these blobs and these image directories.
  unfoldable pub sync_run :
      SaverOptions
      → List Text
      → Index
      → List Text
      → List Text
      → S
      → Option (Result ImageError (SaveRun S))
  unfolding save_copy end_run start_sync
  sync_run o lines index blobs images world =
      Option.map end_run (sync_copy o lines (opened_run index blobs images world))

-- When a run of a syncer returns without an error, every blob that an image of its index needs is in
-- the archive, and the index that the run wrote into the archive, if it wrote one, is this index. This
-- holds if the archive held every blob that an image of its index needs when the syncer started on it,
-- if each cache directory holds the blobs of the images that the copy to it recorded, and if no walk
-- over one passes over these blobs.
pub sync_run-IsComplete :
    {S : Type 0} (env : SaveWorld S) (set : SpecSet) (o : SaverOptions) (lines : List Text)
    (index : Index) (blobs images : List Text) (world : S)
    → ((k : Text) → has (list_blobs index.list) k ≡ true → has blobs k ≡ true)
    → HoldsAll env set o lines (opened_run env set index blobs images world)
    → Holds IsComplete (sync_run env set o lines index blobs images world)
unfolding sync_run
sync_run-IsComplete env set o lines index blobs images world held h =
    Holds-map IsEnded IsComplete
      (save_copy env set o lines (opened_run env set index blobs images world)) end_run
      (save_copy-IsEnded env set o lines (opened_run env set index blobs images world) h
        (λ e. start_sync-IsSaved index blobs images held))
      end_run-IsComplete
