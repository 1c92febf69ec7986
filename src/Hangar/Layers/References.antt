-- ===== src/Hangar/Layers/References.antt =====
-- pkg/hangar/common.go: the references that a list of specs holds to a blob.
use mathlib.Core.List.{Perm, Permᴰ}
use mathlib.Core.Logic.{∥∥₁_elim}
use native.Mathlib.Nat.{ℕ_set, add-zero, add_assoc}
use image_tools.Hangar.Archive.Index.{ImageSpec, Image, Index}
use image_tools.Hangar.Layers.{
  increment_all, spec_layers, count_specs, count_images, new_layer_manager, get_image_layers,
}
use image_tools.Hangar.Layers.Counts.{
  occurrences, counter, occurrences-append, lookup-increment_all,
}
use image_tools.Prelude.{
  ℕ, ◌+◌, ◌≡◌, refl, ◌∙◌, List, [], ◌∷◌, ◌++◌, map, arith, if◌then◌else◌, lookup, ℤ, Text, is_empty,
}

-- The specs of all images of an index.
unfoldable pub all_specs : List Image → List ImageSpec
all_specs [] = []
all_specs (image ∷ images) = image.images ++ all_specs images

module _ (encoded : Text → Text) where
  -- How often the specs name the blob `k`.
  unfoldable pub references : Text → List ImageSpec → ℕ
  unfolding occurrences get_image_layers
  references k [] = 0
  references k (spec ∷ specs) = occurrences k (get_image_layers encoded spec) + references k specs

  pub references-append :
      (k : Text) (xs ys : List ImageSpec)
      → references k (xs ++ ys) ≡ references k xs + references k ys
  unfolding references
  references-append k [] ys = omega arith
  references-append k (x ∷ xs) ys = omega (arith, references-append k xs ys)

  -- The manager counts in another order than it cleans up.
  occurrences-spec_layers :
      (k : Text) (spec : ImageSpec)
      → occurrences k (spec_layers encoded spec) ≡ occurrences k (get_image_layers encoded spec)
  unfolding spec_layers get_image_layers occurrences
  occurrences-spec_layers k spec =
      let ls = map encoded spec.layers in
      let config = if is_empty spec.config then [] else encoded spec.config ∷ [] in
      let digest = encoded spec.digest ∷ [] in
      omega (
        arith,
        occurrences-append k (ls ++ config) digest,
        occurrences-append k ls config,
        occurrences-append k ls (digest ++ config),
        occurrences-append k digest config,
      )

  lookup-count_specs :
      (k : Text) (specs : List ImageSpec) (m : List (Text × ℤ)) (n : ℕ)
      → lookup k m ≡ counter n 0
      → lookup k (count_specs encoded specs m) ≡ counter (n + references k specs) 0
  unfolding count_specs references
  lookup-count_specs k [] m n h = rw add-zero h
  lookup-count_specs k (spec ∷ specs) m n h =
      rw (← occurrences-spec_layers k spec, ← add_assoc)
        (lookup-count_specs k specs (increment_all (spec_layers encoded spec) m)
          (n + occurrences k (spec_layers encoded spec))
          (lookup-increment_all k (spec_layers encoded spec) m n h))

  lookup-count_images :
      (k : Text) (images : List Image) (m : List (Text × ℤ)) (n : ℕ)
      → lookup k m ≡ counter n 0
      → lookup k (count_images encoded images m) ≡ counter (n + references k (all_specs images)) 0
  unfolding count_images all_specs references
  lookup-count_images k [] m n h = rw add-zero h
  lookup-count_images k (image ∷ images) m n h =
      rw (references-append k image.images (all_specs images), ← add_assoc)
        (lookup-count_images k images (count_specs encoded image.images m)
          (n + references k image.images) (lookup-count_specs k image.images m n h))

  -- A new manager counts, for each blob, its references in the index.
  pub lookup-new_layer_manager :
      (k : Text) (index : Index)
      → lookup k (new_layer_manager encoded index).layers_ref_map
        ≡ counter (references k (all_specs index.list)) 0
  unfolding new_layer_manager
  lookup-new_layer_manager k index =
      let e : 0 + references k (all_specs index.list) ≡ references k (all_specs index.list) =
        omega arith in
      rw (← e) (lookup-count_images k index.list [] 0 (unfold lookup in refl))

  references-permᴰ :
      (k : Text) {xs ys : List ImageSpec} → Permᴰ xs ys → references k xs ≡ references k ys
  unfolding references
  references-permᴰ k Permᴰ.nil = refl
  references-permᴰ k (Permᴰ.cons e p) = rw (e, references-permᴰ k p)
  references-permᴰ k (Permᴰ.swap e f) = rw (e, f) (omega arith)
  references-permᴰ k (Permᴰ.trans p q) = references-permᴰ k p ∙ references-permᴰ k q

  pub references-perm :
      (k : Text) {xs ys : List ImageSpec} → Perm xs ys → references k xs ≡ references k ys
  references-perm k p = ∥∥₁_elim p (ℕ_set _ _) (references-permᴰ k)
