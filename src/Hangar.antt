-- ===== src/Hangar.antt =====
-- pkg/hangar: the image list, the archive and the commands.
pub mod ImageList
pub mod Archive
pub mod Layers
pub mod Saver
pub mod Mirrorer
pub mod Loader
pub mod Common
pub mod Syncer
