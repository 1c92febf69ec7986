-- ===== src/Lib.antt =====
-- Hangar, a tool that saves container images to archives, loads them, mirrors them between
-- registries and lists the images of a Rancher release, modelled from pkg/.
--
-- The parts and their files:
-- * Utils/ImageName models the functions of pkg/utils/utils.go on image references
--   (`ConstructRegistry`, `ReplaceProjectName`, `GetProjectName`, `GetRegistryName`,
--   `GetImageName`, `GetImageTag`); `full_name` is the reference that the Loader prints.
-- * Utils/Semver models the comparison of versions of the same file.
-- * Hangar/ImageList models the detection of the formats of lines of pkg/hangar/imagelist.
-- * Hangar/Archive/Index models pkg/hangar/archive/index.go: the index of an archive and its set
--   of digests.
-- * Hangar/Archive/Writer models the walk of pkg/hangar/archive/writer.go over a directory; that of
--   updater.go is the same.
-- * Hangar/Common models of pkg/hangar/common.go the sets of wanted images that the options give,
--   and the number of workers; Hangar/Common/Pool has the channel and the workers (`initWorker`,
--   `handleObject`, `workerFunc`, `waitWorkers`) as a relation of steps that interleave, with the
--   cancellation of the context as one of the steps.
-- * Hangar/Layers models the layer manager of pkg/hangar/common.go, which the workers of a Loader
--   share: an event is one `clean`, under its lock, or the loop of `decompressLayer` or a turn of
--   it, without the lock, and a run is a list of events.
-- * Hangar/Saver models pkg/hangar/saver.go: what a worker does under the lock of the archive (the
--   blobs that are known are dropped from the cache directory, the rest is written and the image
--   is appended to the index), the objects of the lines, the workers and `Run` (Saver/Run), and
--   `Validate` (Saver/Validation), whose text the syncer repeats.
-- * Hangar/Syncer models pkg/hangar/syncer.go: the start from the index of an archive, and its
--   `Run` (Syncer/Run), of which the loop and the worker are those of the saver.
-- * Hangar/Mirrorer models pkg/hangar/mirrorer.go: the objects that lines stand for, the manifest
--   that a worker merges and pushes, the comparison of its validation, and the workers, `Run` and
--   `Validate` (Mirrorer/Run).
-- * Hangar/Loader models pkg/hangar/loader.go: the names an archived image is loaded under and the
--   manifest that is pushed, the worker with its deferred calls (Loader/Worker), the lines and
--   `Run` (Loader/Run), and the worker of the validation (Loader/Validation).
-- * Manifest models pkg/manifest: images, platforms, `Builder.Add`, and the list that
--   `Builder.Push` sends (Manifest/Push).
-- * Types models pkg/types/types.go, and Media what the program uses of containers/image.
-- * Destination models pkg/destination/destination.go: construction and initialisation, the
--   reference names (Destination/Queries) and the questions about the manifest.
-- * Source models pkg/source: construction and names (source.go), the reading of manifests
--   (Source/Load), the copy of the images of a list (Source/Copy, the loops of copy.go) and of
--   single images, and the choice by media type (Source/Single). A Source copies to a Destination,
--   asks it for the digests it holds, and records what it copied for the index of the archive.
-- * Utils/ImageSet models `AddSourceToImage` of pkg/utils/utils.go, on the maps from images to the
--   sets of their sources, and the loops that add one map to another.
-- * Rancher/ChartImages models pkg/rancher/chartimages/chartimages.go: the walk over the values of
--   a chart, the versions that a Rancher version admits (Versions), and `FetchImages` from a
--   directory or a URL (Fetch). Rancher/Values holds the decoded values.
-- * Rancher/KdmImages models pkg/rancher/kdmimages: release.go (Release), upgrade.go (Upgrade,
--   with Sorting for `sort.Strings`) and system.go (System).
-- * Rancher/ListGenerator models pkg/rancher/listgenerator/generator.go: the check of the options,
--   the charts, the KDM data and `Generate`, which runs them one after another.
--
-- The Prelude holds what the parts share. A text is a list of codes, and Go's `strings` functions
-- are defined on it. A Go map is an association list, a set the list of its keys; the order of
-- such a list stands for one of the orders in which Go may walk the map. A value with an error is
-- a `Result`. A nil pointer is `none`, and so is the panic on one. `path.Join` is `join_path`.
--
-- The packages that the repository does not hold are parameters: golang.org/x/mod/semver is a
-- record `SemverPackage`; the registry, the inspection of an image and the parsers of manifests
-- are a record `Inspector`; the copier and what it changes are a record `Remote` over a type of
-- states, and every copy passes the state on; the decoder of JSON and the extraction of blobs are
-- functions. Masterminds/semver is a record `ConstraintPackage`, go-git a record `GitPackage`, the
-- files of the charts a record `ChartFiles`, the types of rancher/rke a record `RkePackage`, and
-- what the generator reads from outside a record `Outside`. All loops are over finite lists and
-- are structural recursions, so no bound or fuel is needed.
--
-- The workers of a saver, a syncer, a mirrorer and a loader share a state behind locks. A run is
-- modelled as the workers one after another, in the order of the lines; the layer manager and the
-- channel of objects are modelled with the steps of the workers interleaved. A blob in the cache of
-- a load is whole or not there: that a second extraction truncates the file for a time is not modelled. What the workers find
-- outside is a record `SaveWorld`, `LoadWorld` or `MirrorWorld` over a type of states. In these
-- runs contexts are not canceled. In the channel an object is a line, a worker handles it in one
-- step that ends, and the channel of the errors is always read.
--
-- Not modelled: logging, the terminal, zip files, HTTP, signals, the goroutines that print errors
-- and the command line, which are calls of the system or of packages that the repository does not
-- hold; the readers of charts and YAML files; and the sending of manifests.
pub mod Prelude
pub mod Utils
pub mod Types
pub mod Media
pub mod Manifest
pub mod Hangar
pub mod Source
pub mod Destination
pub mod Rancher
pub mod Tests
