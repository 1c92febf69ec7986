-- ===== src/Prelude/Paths.antt =====
-- Go's path.Join.
use mathlib.Core.Bool.{Bool, false, ◌&&◌}
use mathlib.Core.List.{List, [], ◌∷◌, reverse}
use image_tools.Prelude.Tests.{eqb, if◌then◌else◌}
use image_tools.Prelude.Strings.{Text, ◌==◌, codes, is_empty, join, non_empty, split}

abbrev is_rooted : Text → Bool
is_rooted [] = false
is_rooted (c ∷ s) = eqb c b'/'

-- The elements kept so far, the last one first: ".." removes an element, stays at the front of a
-- path that is not rooted, and vanishes at the root.
unfoldable pub step_back : Bool → List Text → List Text
step_back rooted [] = if rooted then [] else codes ".." ∷ []
step_back rooted (e ∷ es) = if e == codes ".." then codes ".." ∷ e ∷ es else es

unfoldable pub walk : Bool → List Text → List Text → List Text
unfolding step_back
walk rooted kept [] = reverse kept
walk rooted kept (e ∷ es) =
    walk rooted
      (if e == codes "." then kept else if e == codes ".." then step_back rooted kept else e ∷ kept)
      es

-- path.Clean
unfoldable pub clean_path : Text → Text
unfolding walk
clean_path p =
    let body = join (walk (is_rooted p) [] (non_empty (split p b'/'))) b'/' in
    if is_rooted p then b'/' ∷ body else if is_empty body then codes "." else body

-- path.Join(a, b)
unfoldable pub join_path : Text → Text → Text
unfolding clean_path
join_path a b =
    if is_empty a && is_empty b then [] else clean_path (join (non_empty (a ∷ b ∷ [])) b'/')
