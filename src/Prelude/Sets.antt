-- ===== src/Prelude/Sets.antt =====
-- Go's maps of texts: a set is the list of its keys, a map an association list. A key is stored
-- once, and the order of a list stands for one of the orders in which Go may walk the map.
use mathlib.Core.Path.{◌≡◌, refl}
use mathlib.Core.Bool.{Bool, false, ◌||◌}
use mathlib.Core.List.{List, [], ◌∷◌, ◌++◌}
use mathlib.Core.Option.{Option, none, some}
use native.Mathlib.Omega.{arith}
use image_tools.Prelude.Tests.{if◌then◌else◌}
use image_tools.Prelude.Strings.{Text, ◌==◌, ==_iff}

-- `set[k]` of a `map[string]bool` that only ever stores `true`.
unfoldable pub has : List Text → Text → Bool
has [] k = false
has (x ∷ xs) k = x == k || has xs k

-- `set[k] = true`
unfoldable pub mark : Text → List Text → List Text
unfolding has
mark k xs = if has xs k then xs else xs ++ k ∷ []

unfoldable pub mark_all : List Text → List Text → List Text
unfolding mark
mark_all [] s = s
mark_all (k ∷ ks) s = mark_all ks (mark k s)

pub has_nil : (k : Text) → has [] k ≡ false
unfolding has
has_nil k = refl

pub has-append : (xs ys : List Text) (k : Text) → has (xs ++ ys) k ≡ (has xs k || has ys k)
unfolding has
has-append [] ys k = refl
has-append (x ∷ xs) ys k = ground (arith, has-append xs ys k)

pub has-mark : (j k : Text) (s : List Text) → has (mark j s) k ≡ (j == k || has s k)
unfolding has mark
has-mark j k s = ground (arith, has-append s (j ∷ []) k, ==_iff j k)

pub has-mark_all : (ks s : List Text) (k : Text) → has (mark_all ks s) k ≡ (has ks k || has s k)
unfolding has mark_all
has-mark_all [] s k = refl
has-mark_all (j ∷ ks) s k = ground (arith, has-mark_all ks (mark j s) k, has-mark j k s)

module _ {ℓ} {V : Type ℓ} where
  -- `v, ok := m[key]`
  unfoldable pub lookup : Text → List (Text × V) → Option V
  lookup key [] = none
  lookup key ((stored, value) ∷ rest) = if stored == key then some value else lookup key rest

  -- `m[key] = new`
  unfoldable pub insert : Text → V → List (Text × V) → List (Text × V)
  insert key new [] = (key, new) ∷ []
  insert key new ((stored, value) ∷ rest) =
      if stored == key then (key, new) ∷ rest else (stored, value) ∷ insert key new rest

  pub lookup-insert :
      (key asked : Text) (new : V) (entries : List (Text × V))
      → lookup asked (insert key new entries)
        ≡ (if key == asked then some new else lookup asked entries)
  unfolding insert lookup
  lookup-insert key asked new [] = refl
  lookup-insert key asked new ((stored, value) ∷ rest) = ground (
    arith,
    lookup-insert key asked new rest,
    ==_iff stored key,
    ==_iff stored asked,
    ==_iff key asked,
  )
