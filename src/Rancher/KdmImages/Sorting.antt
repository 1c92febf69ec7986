-- ===== src/Rancher/KdmImages/Sorting.antt =====
-- pkg/rancher/kdmimages/upgrade.go: `sort.Strings` on the keys of a map.
pub mod Laws
use image_tools.Prelude.{
  ◌≡◌, refl, inl, inr, Bool, true, false, ◌&&◌, ◌||◌, List, [], ◌∷◌, ◌++◌, arith, ltb, eqb,
  if◌then◌else◌, Bool-cases, has, mark, mark_all, has-append, All, Text, ◌==◌, ==_iff,
}
-- The order of Go's strings, by their bytes.
use image_tools.Prelude.{
  ◌≡◌, refl, inl, inr, Bool, true, false, ◌&&◌, ◌||◌, List, [], ◌∷◌, ◌++◌, arith, ltb, eqb,
  if◌then◌else◌, Bool-cases, has, mark, mark_all, has-append, All, Text, ◌==◌, ==_iff,
}

unfoldable pub text_less : Text → Text → Bool
text_less s [] = false
text_less [] (d ∷ t) = true
text_less (c ∷ s) (d ∷ t) = let below = text_less s t in ltb c d || (eqb c d && below)

unfoldable pub insert_sorted : Text → List Text → List Text
unfolding text_less
insert_sorted s [] = s ∷ []
insert_sorted s (t ∷ l) =
    let rest = insert_sorted s l in if text_less t s then t ∷ rest else s ∷ t ∷ l

-- The result of sorting is determined by the elements.
unfoldable pub sort_strings : List Text → List Text
unfolding insert_sorted
sort_strings [] = []
sort_strings (s ∷ l) = insert_sorted s (sort_strings l)
