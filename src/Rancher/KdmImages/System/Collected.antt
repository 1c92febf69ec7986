-- ===== src/Rancher/KdmImages/System/Collected.antt =====
-- pkg/rancher/kdmimages/system.go: what the second loop of `getK8sVersionInfo` collects.
use mathlib.Core.Option
use mathlib.Core.Option.{some-injective, none-ne-some}
use image_tools.Prelude.{
  ◌≡◌, refl, sym, ap, ◌∙◌, ◌↔◌, inl, inr, Bool, true, false, not, ◌&&◌, ◌||◌, Option, none, some,
  List, [], ◌∷◌, arith, if◌then◌else◌, Bool-cases, has, lookup, lookup-insert, is_missing, Text,
  ◌==◌, ==_eq,
}
use image_tools.Rancher.KdmImages.System.{
  VersionInfo, fetch_images_from_collection, put_version, collect, no_info,
}
use image_tools.Rancher.Values.{Fields}

-- Options are there for the major version of a version, which a list of versions has.
unfoldable pub has_options :
    {Options : Type 0} → List (Text × Options) → List (Text × Text) → Text → Bool
unfolding ◌==◌ lookup
has_options options [] version = false
has_options options ((major, v) ∷ newest) version =
    (v == version && not (is_missing (lookup major options))) || has_options options newest version

-- What one version does to what is stored for another.
lookup-put_version :
    {Images Options : Type 0} (keep : Images → Images) (all : List (Text × Images))
    (v version : Text) (found : Option Images) (option : Option Options)
    (info : VersionInfo Images Options)
    → lookup v all ≡ found
    → lookup version (put_version keep v found option info).rke_system_images ≡ (
        if (v == version && not (is_missing option)) && not (is_missing (lookup version all))
        then Option.map keep (lookup version all)
        else lookup version info.rke_system_images)
unfolding is_missing
lookup-put_version keep all v version none option info e = elim (Bool-cases (v == version)) [
  | inl same ↦ ground (arith, ap (λ k. lookup k all) (==_eq same))
  | inr differs ↦ rw differs
]
lookup-put_version keep all v version (some x) none info e = ground arith
lookup-put_version keep all v version (some x) (some y) info e = elim (Bool-cases (v == version)) [
  | inl same ↦
      let there : lookup version all ≡ some x = ap (λ k. lookup k all) (sym (==_eq same)) ∙ e in
      rw (lookup-insert v version (keep x) info.rke_system_images, same, there)
  | inr differs ↦ rw (lookup-insert v version (keep x) info.rke_system_images, differs)
]

if_merge :
    {A : Type 0} (a b p : Bool) (x y : A)
    → (if b && p then x else (if a && p then x else y)) ≡ (if (a || b) && p then x else y)
if_merge true true true x y = refl
if_merge true true false x y = refl
if_merge true false p x y = refl
if_merge false true true x y = refl
if_merge false true false x y = refl
if_merge false false p x y = refl

-- What the second loop leaves for a version.
lookup-collect :
    {Images Options : Type 0} (keep : Images → Images) (all : List (Text × Images))
    (options : List (Text × Options)) (newest : List (Text × Text))
    (info : VersionInfo Images Options) (version : Text)
    → lookup version (collect keep all options newest info).rke_system_images ≡ (
        if has_options options newest version && not (is_missing (lookup version all))
        then Option.map keep (lookup version all)
        else lookup version info.rke_system_images)
unfolding collect has_options
lookup-collect keep all options [] info version = refl
lookup-collect keep all options ((major, v) ∷ newest) info version =
    rw
      (
        lookup-collect keep all options newest
            (put_version keep v (lookup v all) (lookup major options) info) version,
        lookup-put_version keep all v version (lookup v all) (lookup major options) info refl,
      )
      (if_merge (v == version && not (is_missing (lookup major options)))
        (has_options options newest version) (not (is_missing (lookup version all))) _ _)

-- The object of a map in JSON has the texts of the objects of its values, and no others.
abbrev pub IsObjectOf :
    {Images : Type 0} → (Images → Fields) → List (Text × Images) → Fields → Type 0
IsObjectOf {Images} fields_of m fields =
    (image : Text)
    → (has (fetch_images_from_collection fields) image ≡ true) ↔ (
        (version : Text) × (x : Images) × (lookup version m ≡ some x)
        × (has (fetch_images_from_collection (fields_of x)) image ≡ true))

-- Some newest version that has options, and images, names the image for a system.
abbrev pub IsNamed :
    {Images Options : Type 0}
    → (Images → Fields)
    → (Images → Images)
    → List (Text × Images)
    → List (Text × Options)
    → List (Text × Text)
    → Text
    → Type 0
IsNamed {Images} fields_of keep all options newest image =
    (version : Text) × (x : Images) × (has_options options newest version ≡ true)
    × (lookup version all ≡ some x)
    × (has (fetch_images_from_collection (fields_of (keep x))) image ≡ true)

-- The value of a map has the image in its object.
abbrev pub IsValueText :
    {Images : Type 0} → (Images → Fields) → List (Text × Images) → Text → Type 0
IsValueText {Images} fields_of m image =
    (version : Text) × (x : Images) × (lookup version m ≡ some x)
    × (has (fetch_images_from_collection (fields_of x)) image ≡ true)

module _ {Images Options : Type 0} (fields_of : Images → Fields) (keep : Images → Images)
    (all : List (Text × Images)) (options : List (Text × Options))
    (newest : List (Text × Text)) where
  abbrev collected : List (Text × Images)
  collected = (collect keep all options newest no_info).rke_system_images

  value_named :
      (version : Text) (y : Images) (found : Option Images) (chosen : Bool)
      → lookup version all ≡ found
      → has_options options newest version ≡ chosen
      → lookup version collected ≡ some y
      → (x : Images) × (chosen ≡ true) × (found ≡ some x) × (keep x ≡ y)
  unfolding is_missing lookup
  value_named version y none true ef eh e =
      absurd
        (none-ne-some y (rw (lookup-collect keep all options newest no_info version, ef, eh) at e))
  value_named version y none false ef eh e =
      absurd
        (none-ne-some y (rw (lookup-collect keep all options newest no_info version, ef, eh) at e))
  value_named version y (some x) true ef eh e = (
    x,
    refl,
    refl,
    some-injective _ _ (rw (lookup-collect keep all options newest no_info version, ef, eh) at e),
  )
  value_named version y (some x) false ef eh e =
      absurd
        (none-ne-some y (rw (lookup-collect keep all options newest no_info version, ef, eh) at e))

  pub IsNamed-iff :
      (image : Text)
      → IsValueText fields_of collected image ↔ IsNamed fields_of keep all options newest image
  unfolding is_missing
  IsNamed-iff image = (
    λ (version, y, e, h).
        let (x, chosen, found, same) =
          value_named version y (lookup version all) (has_options options newest version) refl refl
            e in
        (version, x, chosen, found, rw same h),
    λ (version, x, chosen, found, h). (
      version,
      keep x,
      rw (lookup-collect keep all options newest no_info version, chosen, found),
      h,
    ),
  )
