-- ===== src/Hangar/Archive.antt =====
-- pkg/hangar/archive: the archive of images.
pub mod Index
pub mod Writer
