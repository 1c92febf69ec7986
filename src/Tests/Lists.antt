-- ===== src/Tests/Lists.antt =====
-- pkg/hangar/imagelist/imagelist_test.go and further lines.
use image_tools.Hangar.ImageList.{unknown, mirror, default, get_mirror_spec, detect, mirror_line}
use image_tools.Hangar.ImageList.Lines.{get_mirror_spec-mirror_line}
use image_tools.Hangar.ImageList.Words.{IsWord}
use image_tools.Prelude.{
  ◌≡◌, refl, some, [], ◌∷◌, cons-ne-nil, arith, select, codes, contains, split, non_empty, is_space,
  trim_space,
}

detect_tests :
    (detect (codes "docker.io/nginx") ≡ default)
    × (detect (codes " nginx library/mirrored-nginx 1.22  ") ≡ mirror)
    × (detect (codes "docker://docker.io/library/nginx:1.22") ≡ unknown)
    × (detect (codes "a b") ≡ unknown)
unfolding detect get_mirror_spec trim_space split non_empty select contains
detect_tests = (refl, refl, refl, refl)

pub IsWord-codes : IsWord (codes "a/b") × IsWord (codes "c") × IsWord (codes "1.2")
unfolding is_space
IsWord-codes = (
  (cons-ne-nil _ _, ground arith),
  (cons-ne-nil _ _, ground arith),
  (cons-ne-nil _ _, ground arith),
)

get_mirror_spec-mirror_line_example :
    (get_mirror_spec (mirror_line (codes "a/b") (codes "c") (codes "1.2"))
      ≡ some (codes "a/b" ∷ codes "c" ∷ codes "1.2" ∷ []))
    × (detect (mirror_line (codes "a/b") (codes "c") (codes "1.2")) ≡ mirror)
get_mirror_spec-mirror_line_example =
    get_mirror_spec-mirror_line (codes "a/b") (codes "c") (codes "1.2") IsWord-codes.0
      IsWord-codes.1 IsWord-codes.2
