-- ===== src/Utils.antt =====
-- pkg/utils: image names and version comparison.
pub mod ImageName
pub mod Semver
pub mod ImageSet
