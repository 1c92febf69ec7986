-- ===== src/Hangar/Layers/Safety.antt =====
-- pkg/hangar/common.go: the blobs in the cache, in whatever order the workers of a load take turns.
use native.Mathlib.Nat.{add-zero, add_assoc}
use mathlib.Core.List.{Perm}
use image_tools.Hangar.Archive.Index.{ImageSpec, Index}
use image_tools.Hangar.Layers.{
  LayerManager, decompress_blobs, new_layer_manager, get_image_layers, decompress_layer, clean,
}
use image_tools.Hangar.Layers.Counts.{occurrences, counter, lookup-clean_layers, has-clean_layers}
use image_tools.Hangar.Layers.References.{
  all_specs, references, references-append, lookup-new_layer_manager, references-perm,
}
use image_tools.Prelude.{
  ℕ, ◌+◌, ◌<◌, ◌≡◌, refl, subst, inl, inr, Bool, true, false, not, ◌&&◌, ◌||◌, List, [], ◌∷◌, ◌++◌,
  arith, ltb, leb, Bool-cases, ||_iff, has, mark, has-mark, lookup, All, Text, ◌==◌, ==_refl, ==_eq,
}

-- What the workers do to the manager. `clean` holds its lock for the whole of its loop. The loop of
-- `decompressLayer` takes no lock: `decompress` is one that no other step interrupts, and `extract_one`
-- is a single turn of one that is interrupted.
pub data Event : Type 0 where
  decompress : ImageSpec → Event
  extract_one : Text → Event
  clean_up : ImageSpec → Event

-- The specs that have been cleaned up, latest last.
unfoldable pub cleaned : List Event → List ImageSpec
cleaned [] = []
cleaned (decompress spec ∷ events) = cleaned events
cleaned (extract_one layer ∷ events) = cleaned events
cleaned (clean_up spec ∷ events) = spec ∷ cleaned events

module _ (encoded : Text → Text) (extract : Text → Bool) where
  unfoldable pub run : List Event → LayerManager → LayerManager
  unfolding decompress_layer decompress_blobs clean
  run [] m = m
  run (decompress spec ∷ events) m = run events (decompress_layer encoded extract spec m).0
  run (extract_one layer ∷ events) m =
      run events (record m { blobs = (decompress_blobs extract (layer ∷ []) m.blobs).0 })
  run (clean_up spec ∷ events) m = run events (clean encoded spec m)

has-decompress_blobs :
    (extract : Text → Bool) (k : Text) (ls blobs : List Text)
    → has blobs k ≡ true
    → has (decompress_blobs extract ls blobs).0 k ≡ true
unfolding decompress_blobs
has-decompress_blobs extract k [] blobs h = h
has-decompress_blobs extract k (x ∷ ls) blobs h = ground (
  arith,
  has-mark x k blobs,
  has-decompress_blobs extract k ls (mark x blobs),
  ||_iff (x == k) (has blobs k),
)

-- Nothing but the layers is added.
has_only-decompress_blobs :
    (extract : Text → Bool) (k : Text) (ls blobs : List Text)
    → has (decompress_blobs extract ls blobs).0 k ≡ true
    → (has ls k || has blobs k) ≡ true
unfolding decompress_blobs has
has_only-decompress_blobs extract k [] blobs h = h
has_only-decompress_blobs extract k (x ∷ ls) blobs h =
    ground (arith, has-mark x k blobs, has_only-decompress_blobs extract k ls (mark x blobs))

-- When no extraction fails, all layers are there.
decompress_blobs_all :
    (extract : Text → Bool) (k : Text) (ls blobs : List Text)
    → (decompress_blobs extract ls blobs).1 ≡ true
    → has (decompress_blobs extract ls blobs).0 k ≡ (has ls k || has blobs k)
unfolding decompress_blobs has
decompress_blobs_all extract k [] blobs h = refl
decompress_blobs_all extract k (x ∷ ls) blobs h =
    ground (arith, has-mark x k blobs, decompress_blobs_all extract k ls (mark x blobs))

occurrences-pos : (k : Text) (ls : List Text) → has ls k ≡ true → 0 < occurrences k ls
unfolding has occurrences
occurrences-pos k [] h = cc
occurrences-pos k (x ∷ ls) h = ground (arith, occurrences-pos k ls)

All-has {κ} : (P : Text → Type κ) (ls : List Text) → ((k : Text) → has ls k ≡ true → P k) → All P ls
unfolding has
All-has P [] f = tt
All-has P (x ∷ ls) f = (f x (rw (==_refl x)), All-has P ls (λ k h. f k (ground arith)))

module _ (encoded : Text → Text) (extract : Text → Bool) where
  -- After some events the counter of a blob has moved by the references cleaned up.
  lookup-run :
      (k : Text) (events : List Event) (m : LayerManager) (n c : ℕ)
      → lookup k m.layers_ref_map ≡ counter n c
      → lookup k (run encoded extract events m).layers_ref_map
        ≡ counter n (c + references encoded k (cleaned events))
  unfolding run cleaned references
  lookup-run k [] m n c h = rw add-zero h
  lookup-run k (decompress spec ∷ events) m n c h = lookup-run k events _ n c h
  lookup-run k (extract_one layer ∷ events) m n c h = lookup-run k events _ n c h
  lookup-run k (clean_up spec ∷ events) m n c h =
      let ls = get_image_layers encoded spec in
      rw (← add_assoc c (occurrences k ls) (references encoded k (cleaned events))) (
        lookup-run k events (clean encoded spec m) n (c + occurrences k ls)
          (lookup-clean_layers k ls m n c h))

  -- A blob stays while one of its references is left.
  has-run :
      (k : Text) (events : List Event) (m : LayerManager) (n c : ℕ)
      → lookup k m.layers_ref_map ≡ counter n c
      → c + references encoded k (cleaned events) < n
      → has m.blobs k ≡ true
      → has (run encoded extract events m).blobs k ≡ true
  unfolding run cleaned references
  has-run k [] m n c h left held = held
  has-run k (decompress spec ∷ events) m n c h left held =
      has-run k events _ n c h left
        (has-decompress_blobs extract k (get_image_layers encoded spec) m.blobs held)
  has-run k (extract_one layer ∷ events) m n c h left held =
      has-run k events _ n c h left (has-decompress_blobs extract k (layer ∷ []) m.blobs held)
  has-run k (clean_up spec ∷ events) m n c h left held =
      let ls = get_image_layers encoded spec in
      has-run k events (clean encoded spec m) n (c + occurrences k ls)
        (lookup-clean_layers k ls m n c h) (omega arith)
        (ground (arith, has-clean_layers k ls m n c h))

  lookup-run_new :
      (k : Text) (index : Index) (events : List Event)
      → lookup k (run encoded extract events (new_layer_manager encoded index)).layers_ref_map
        ≡ counter
            (references encoded k (all_specs index.list))
            (references encoded k (cleaned events))
  lookup-run_new k index events =
      let n = references encoded k (all_specs index.list) in
      let c = references encoded k (cleaned events) in
      let e : 0 + c ≡ c = omega arith in
      rw (← e) (
        lookup-run k events (new_layer_manager encoded index) n 0
          (lookup-new_layer_manager encoded k index))

  -- The references of all specs, taken in three groups.
  references-groups :
      (k : Text) (spec : ImageSpec) (xs ys rest all : List ImageSpec)
      → Perm (spec ∷ (xs ++ ys ++ rest)) all
      → references encoded k all
        ≡ occurrences k (get_image_layers encoded spec)
          + references encoded k xs
          + references encoded k ys
          + references encoded k rest
  unfolding references
  references-groups k spec xs ys rest all p = omega (
    arith,
    references-perm encoded k p,
    references-append encoded k (xs ++ ys) rest,
    references-append encoded k xs ys,
  )

  -- When the specs cleaned up before and after, the spec at hand and some rest are the specs of the
  -- index, and all blobs of the spec could be extracted, then each of them is still in the cache
  -- after the later events, whatever these are.
  pub decompress_layer_safe :
      (index : Index) (before after : List Event) (spec : ImageSpec) (rest : List ImageSpec)
      → Perm (spec ∷ (cleaned before ++ cleaned after ++ rest)) (all_specs index.list)
      → (decompress_layer encoded extract spec
          (run encoded extract before (new_layer_manager encoded index))).1
        ≡ true
      → All
          (λ k.
            has
              (run encoded extract after
                (decompress_layer encoded extract spec
                  (run encoded extract before (new_layer_manager encoded index))).0).blobs
              k
            ≡ true)
          (get_image_layers encoded spec)
  unfolding decompress_layer
  decompress_layer_safe index before after spec rest all done =
      let ls = get_image_layers encoded spec in
      let m = run encoded extract before (new_layer_manager encoded index) in
      All-has _ ls λ k held.
        let n = references encoded k (all_specs index.list) in
        let c = references encoded k (cleaned before) in
        has-run k after (decompress_layer encoded extract spec m).0 n c
          (lookup-run_new k index before)
          (omega (
            arith,
            references-groups k spec (cleaned before) (cleaned after) rest (all_specs index.list)
                all,
            occurrences-pos k ls held,
          ))
          (ground (arith, decompress_blobs_all extract k ls m.blobs))

  -- Every blob that is extracted is a blob of some spec that is cleaned up later.
  abbrev pub IsCleanedLater : List Event → Type 0
  IsCleanedLater [] = Unit
  IsCleanedLater (decompress spec ∷ events) =
      All (λ k. 0 < references encoded k (cleaned events)) (get_image_layers encoded spec)
      × IsCleanedLater events
  IsCleanedLater (extract_one layer ∷ events) =
      (0 < references encoded layer (cleaned events)) × IsCleanedLater events
  IsCleanedLater (clean_up spec ∷ events) = IsCleanedLater events

  All-at : (P : Text → Type 0) (ls : List Text) (k : Text) → All P ls → has ls k ≡ true → P k
  unfolding has
  All-at P [] k all h = absurd (ground arith)
  All-at P (x ∷ ls) k (px, all) h = elim (Bool-cases (x == k)) [
    | inl same ↦ subst P (==_eq same) px
    | inr differs ↦ All-at P ls k all (ground arith)
  ]

  extracted_live :
      (k : Text) (ls blobs : List Text) (n c : ℕ) (later : List ImageSpec)
      → c + references encoded k later ≡ n
      → (has blobs k ≡ true → c < n)
      → All (λ j. 0 < references encoded j later) ls
      → has (decompress_blobs extract ls blobs).0 k ≡ true
      → c < n
  extracted_live k ls blobs n c later all live each held = elim (Bool-cases (has ls k)) [
    | inl named ↦ omega (arith, All-at (λ j. 0 < references encoded j later) ls k each named)
    | inr other_blob ↦ live (ground (arith, has_only-decompress_blobs extract k ls blobs held))
  ]

  -- A blob that is there has a reference that is left, and at the end none is left.
  gone-run :
      (k : Text) (events : List Event) (m : LayerManager) (n c : ℕ)
      → lookup k m.layers_ref_map ≡ counter n c
      → c + references encoded k (cleaned events) ≡ n
      → (has m.blobs k ≡ true → c < n)
      → IsCleanedLater events
      → has (run encoded extract events m).blobs k ≡ false
  unfolding run cleaned references
  gone-run k [] m n c h all live later = elim (Bool-cases (has m.blobs k)) [
    | inl held ↦ absurd (omega (arith, live held))
    | inr e ↦ e
  ]
  gone-run k (decompress spec ∷ events) m n c h all live (each, later) =
      gone-run k events (decompress_layer encoded extract spec m).0 n c h all
        (extracted_live k (get_image_layers encoded spec) m.blobs n c (cleaned events) all live
          each)
        later
  gone-run k (extract_one layer ∷ events) m n c h all live (left, later) =
      gone-run k events _ n c h all
        (extracted_live k (layer ∷ []) m.blobs n c (cleaned events) all live (left, tt)) later
  gone-run k (clean_up spec ∷ events) m n c h all live later =
      let ls = get_image_layers encoded spec in
      gone-run k events (clean encoded spec m) n (c + occurrences k ls)
        (lookup-clean_layers k ls m n c h) (omega arith)
        (λ held.
          let before : (has m.blobs k && not (ltb c n && leb n (c + occurrences k ls))) ≡ true =
            rw (has-clean_layers k ls m n c h) at held in
          ground (arith, live (ground arith)))
        later

  -- When the specs cleaned up and some rest are the specs of the index, and after each extraction of a
  -- blob some spec that names it is cleaned up, then at the end no blob is in the cache but those that
  -- a spec of the rest names.
  pub clean_complete :
      (index : Index) (events : List Event) (rest : List ImageSpec)
      → Perm (cleaned events ++ rest) (all_specs index.list)
      → IsCleanedLater events
      → (k : Text) → references encoded k rest ≡ 0
      → has (run encoded extract events (new_layer_manager encoded index)).blobs k ≡ false
  unfolding new_layer_manager
  clean_complete index events rest all later k unused =
      gone-run k events (new_layer_manager encoded index)
        (references encoded k (all_specs index.list)) 0 (lookup-new_layer_manager encoded k index)
        (omega
          (arith, references-perm encoded k all, references-append encoded k (cleaned events) rest))
        (λ held. absurd (unfold has in ground arith)) later
