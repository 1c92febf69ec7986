-- ===== src/Tests/Mirrors.antt =====
-- Validations and runs of a mirrorer.
use mathlib.Core.Option
use image_tools.Hangar.Mirrorer.{object_of_line}
use image_tools.Hangar.Mirrorer.Run.{MirrorWorld, MirrorRun, new_mirror, mirror_run, validate_run}
use image_tools.Hangar.Mirrorer.Run.Failed.{IsRefused, mirror_run-failed}
use image_tools.Hangar.Mirrorer.Run.Validated.{
  IsMirrored, IsCarried, validate_run_iff, validate_run-allowed_digests,
}
use image_tools.Media.{failed}
use image_tools.Prelude.{
  ℕ, ◌≡◌, refl, ◌↔◌, inr, true, none, some, List, [], ◌∷◌, has, Holds, select, All, ok, err, Text,
  codes, ◌==◌, contains, split, non_empty, trim_space,
}
use image_tools.Source.Load.{init_source}
use image_tools.Tests.Destinations.{broken_registry, arm_only}
use image_tools.Tests.Runs.{not_found, list_registry}
use image_tools.Tests.Sources.{good_remote}
use image_tools.Tests.Workers.{to_private}
use image_tools.Types.{fetch_failed, copy_failed}

abbrev mirrored_lines : List Text
mirrored_lines = codes "nginx" ∷ codes "a b" ∷ []

validated_lines :
    validate_run list_registry arm_only to_private mirrored_lines ≡ some (ok (new_mirror tt))
unfolding validate_run Option.bind non_empty split trim_space select contains ◌==◌
validated_lines = refl

validate_run_iff_example :
    ((last : MirrorRun (Unit {0})) × (validate_run list_registry arm_only to_private mirrored_lines
        ≡ some (ok last)))
    ↔ All (IsMirrored list_registry arm_only to_private) mirrored_lines
validate_run_iff_example = validate_run_iff list_registry arm_only to_private mirrored_lines

validate_run-allowed_digests_example :
    All (IsCarried list_registry arm_only to_private) mirrored_lines
validate_run-allowed_digests_example =
    validate_run-allowed_digests list_registry arm_only to_private mirrored_lines (new_mirror tt)
      validated_lines

-- A registry that holds nothing, and a copier that is not asked.
abbrev empty_world : MirrorWorld ℕ
empty_world = record {
  remote = good_remote;
  inspector = λ w. record broken_registry { fetch = λ name. failed not_found };
  inspect = λ w name. none;
  send = λ w name l. (true, w);
}

nginx-IsRefused : IsRefused empty_world to_private (codes "nginx")
unfolding object_of_line init_source non_empty split trim_space select contains
nginx-IsRefused = inr (_, refl, λ w. (fetch_failed not_found, refl))

is_line : has mirrored_lines (codes "nginx") ≡ true
unfolding has ◌==◌
is_line = refl

mirror_run-failed_example :
    Holds (λ r. r ≡ err copy_failed) (mirror_run empty_world arm_only to_private mirrored_lines 0)
mirror_run-failed_example =
    mirror_run-failed empty_world arm_only to_private mirrored_lines (codes "nginx") 0 is_line
      nginx-IsRefused
