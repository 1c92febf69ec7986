-- ===== src/Rancher/ChartImages/Nodes.antt =====
-- pkg/rancher/chartimages/chartimages.go: the walk against the list of all maps of the values.
use image_tools.Prelude.{
  ◌≡◌, refl, inl, inr, Bool, false, not, ◌&&◌, ◌||◌, Option, none, some, List, [], ◌∷◌, ◌++◌, arith,
  Option-cases, has, Text, ◌==◌, is_empty,
}
use image_tools.Rancher.ChartImages.{
  walk, OsType, picked, pick, walk_items, walk_fields, pick_images_from_values_map,
}
use image_tools.Rancher.Values.{
  Value, null, str, scalar, arr, obj, Items, nil, cons, Fields, end, field,
}
use image_tools.Source.Single.{start}
use image_tools.Utils.ImageSet.{ImageSet, add_source_to_image, has_source, has_source-add}

-- All maps in a value, itself and below.
unfoldable mutual
  pub nodes : Value → List Fields
  nodes (obj fields) = fields ∷ nodes_fields fields
  nodes (arr items) = nodes_items items
  nodes v = []

  pub nodes_items : Items → List Fields
  nodes_items nil = []
  nodes_items (cons v items) = nodes v ++ nodes_items items

  pub nodes_fields : Fields → List Fields
  nodes_fields end = []
  nodes_fields (field key v fields) = nodes v ++ nodes_fields fields

abbrev pub names_image : Text → Option Text → Bool
names_image image none = false
names_image image (some name) = not (is_empty image) && name == image

-- Two steps, the first of which contributes `a` and the second `b`.
pub two_steps :
    (a b t start middle last : Bool)
    → last ≡ ((b && t) || middle)
    → middle ≡ ((a && t) || start)
    → last ≡ (((a || b) && t) || start)
two_steps a b t start middle last h k = ground arith

module _ (print_nested : Value → Text) (os : OsType) where
  -- Some map of the list names_image the image.
  unfoldable pub any_names : List Fields → Text → Bool
  any_names [] image = false
  any_names (fs ∷ l) image = names_image image (picked print_nested os fs) || any_names l image

  any_names-append :
      (l m : List Fields) (image : Text)
      → any_names (l ++ m) image ≡ (any_names l image || any_names m image)
  unfolding any_names
  any_names-append [] m image = refl
  any_names-append (fs ∷ l) m image = ground (arith, any_names-append l m image)

  module _ (source : Text) (image s : Text) where
    added :
        (name : Text) (set : ImageSet)
        → has_source (add_source_to_image set name (source ∷ [])) image s
          ≡ ((names_image image (some name) && source == s) || has_source set image s)
    unfolding has
    added name set = ground (arith, has_source-add set name (source ∷ []) image s)

    has_source-pick :
        (fs : Fields) (set : ImageSet)
        → has_source (pick print_nested os source fs set) image s ≡ (
            (names_image image (picked print_nested os fs) && source == s)
            || has_source set image s)
    unfolding pick
    has_source-pick fs set = elim (Option-cases (picked print_nested os fs)) [
      | inl e ↦ rw (pick, e)
      | inr (name, e) ↦ rw (pick, e) (added name set)
    ]

    mutual
      unfolding walk nodes any_names

      walk-nodes :
          (v : Value) (set : ImageSet)
          → has_source (walk print_nested os source v set) image s
            ≡ ((any_names (nodes v) image && source == s) || has_source set image s)
      walk-nodes null set = refl
      walk-nodes (str t) set = refl
      walk-nodes (scalar t u) set = refl
      walk-nodes (arr items) set = walk_items-nodes items set
      walk-nodes (obj fields) set =
          two_steps (names_image image (picked print_nested os fields))
            (any_names (nodes_fields fields) image) (source == s) (has_source set image s) _ _
            (walk_fields-nodes fields (pick print_nested os source fields set))
            (has_source-pick fields set)

      walk_items-nodes :
          (items : Items) (set : ImageSet)
          → has_source (walk_items print_nested os source items set) image s
            ≡ ((any_names (nodes_items items) image && source == s) || has_source set image s)
      walk_items-nodes nil set = refl
      walk_items-nodes (cons v items) set =
          rw (any_names-append (nodes v) (nodes_items items) image) (
            two_steps (any_names (nodes v) image) (any_names (nodes_items items) image)
              (source == s) (has_source set image s) _ _
              (walk_items-nodes items (walk print_nested os source v set)) (walk-nodes v set))

      walk_fields-nodes :
          (fields : Fields) (set : ImageSet)
          → has_source (walk_fields print_nested os source fields set) image s
            ≡ ((any_names (nodes_fields fields) image && source == s) || has_source set image s)
      walk_fields-nodes end set = refl
      walk_fields-nodes (field key v fields) set =
          rw (any_names-append (nodes v) (nodes_fields fields) image) (
            two_steps (any_names (nodes v) image) (any_names (nodes_fields fields) image)
              (source == s) (has_source set image s) _ _
              (walk_fields-nodes fields (walk print_nested os source v set)) (walk-nodes v set))

  -- Walking the values of a chart adds the chart as a source to exactly the images, with a name, that
  -- some map in the values names_image for the system, itself or below, and nothing else changes.
  pub pick_images_from_values_map-nodes :
      (source : Text) (values : Fields) (set : ImageSet) (image s : Text)
      → has_source (pick_images_from_values_map print_nested os source values set) image s
        ≡ ((any_names (nodes (obj values)) image && source == s) || has_source set image s)
  unfolding pick_images_from_values_map
  pick_images_from_values_map-nodes source values set image s =
      walk-nodes source image s (obj values) set
