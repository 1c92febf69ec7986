-- ===== src/Hangar/Common.antt =====
-- pkg/hangar/common.go: the sets of wanted images and the number of workers.
pub mod Filters
pub mod Pool
use image_tools.Media.{SpecSet}
use image_tools.Prelude.{ℕ, ◌&&◌, List, [], ltb, if◌then◌else◌, mark_all, length, Text}

pub record CommonOptions : Type 0 where
  pub images : List Text
  pub arch : List Text
  pub os : List Text
  pub variant : List Text
  pub workers : ℕ

-- The part of `newCommon` that fills `imageSpecSet`.
unfoldable pub spec_set : CommonOptions → SpecSet
unfolding mark_all
spec_set o = record {
  os = mark_all o.os [];
  arch = mark_all o.arch [];
  variant = mark_all o.variant [];
}

-- `initWorker`: no more workers than images, if there are images.
unfoldable pub worker_count : CommonOptions → ℕ
worker_count o =
    if ltb 0 (length o.images) && ltb (length o.images) o.workers
    then length o.images
    else o.workers
