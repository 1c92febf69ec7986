-- ===== src/Hangar/Layers/Counts.antt =====
-- pkg/hangar/common.go: the counters, and what cleaning up does to them.
use native.Mathlib.Nat.{add-zero}
use image_tools.Hangar.Layers.{
  LayerManager, increment, increment_all, remove_all, settle, clean_one, clean_layers,
}
use image_tools.Prelude.{
  ℕ, zero, suc, ◌+◌, ◌-◌, ◌≤◌, ◌<◌, ◌≡◌, refl, ap, ◌∙◌, inl, inr, false, not, ◌&&◌, Option, none,
  some, List, [], ◌∷◌, ◌++◌, arith, ltb, leb, eqb, if◌then◌else◌, Bool-cases, Option-cases, has,
  lookup, lookup-insert, select, ℤ, pos, negsuc, dec, is_positive, Text, ◌==◌, ==_iff, ==_refl,
  ==_eq,
}

-- How often a text stands in a list.
unfoldable pub occurrences : Text → List Text → ℕ
unfolding ◌==◌
occurrences k [] = 0
occurrences k (x ∷ xs) = let rest = occurrences k xs in if x == k then suc rest else rest

-- The counter of a blob with `n` references of which `c` have been cleaned up: no counter without
-- references, the references that are left, and -1 when none is.
abbrev pub counter : ℕ → ℕ → Option ℤ
counter n c = if eqb n 0 then none else some (if ltb c n then pos (n - c) else negsuc 0)

pub occurrences-append :
    (k : Text) (xs ys : List Text) → occurrences k (xs ++ ys) ≡ occurrences k xs + occurrences k ys
unfolding occurrences
occurrences-append k [] ys = omega arith
occurrences-append k (x ∷ xs) ys = ground (arith, occurrences-append k xs ys)

lookup-increment_self :
    (k : Text) (m : List (Text × ℤ)) (n : ℕ)
    → lookup k m ≡ counter n 0
    → lookup k (increment k m) ≡ counter (suc n) 0
unfolding increment
lookup-increment_self k m zero h = rw (lookup-insert k k, ==_refl k, h)
lookup-increment_self k m (suc n) h = rw (lookup-insert k k, ==_refl k) (ground arith)

lookup-increment_ne :
    (k j : Text) (m : List (Text × ℤ)) → (j == k) ≡ false → lookup k (increment j m) ≡ lookup k m
unfolding increment
lookup-increment_ne k j m h = rw (lookup-insert j k, h)

pub lookup-increment_all :
    (k : Text) (ks : List Text) (m : List (Text × ℤ)) (n : ℕ)
    → lookup k m ≡ counter n 0
    → lookup k (increment_all ks m) ≡ counter (n + occurrences k ks) 0
unfolding increment_all occurrences
lookup-increment_all k [] m n h = rw add-zero h
lookup-increment_all k (x ∷ ks) m n h = elim (Bool-cases (x == k)) [
  | inl same ↦
      let e : n + suc (occurrences k ks) ≡ suc n + occurrences k ks = omega arith in
      let here : lookup k (increment x m) ≡ counter (suc n) 0 =
        let same_key : x ≡ k = ==_eq same in rw same_key (lookup-increment_self k m n h) in
      rw (same, e) (lookup-increment_all k ks (increment x m) (suc n) here)
  | inr other ↦
      rw other (lookup-increment_all k ks (increment x m) n (lookup-increment_ne k x m other ∙ h))
]

pub has-remove_all :
    (j k : Text) (blobs : List Text) → has (remove_all j blobs) k ≡ (has blobs k && not (j == k))
unfolding remove_all has select
has-remove_all j k [] = refl
has-remove_all j k (b ∷ blobs) =
    ground (arith, has-remove_all j k blobs, ==_iff b j, ==_iff b k, ==_iff j k)

-- One reference goes; with the last one the blob goes too.
settle_positive :
    (k : Text) (m : LayerManager) (d : ℕ)
    → (lookup k (settle k m (some (pos (suc d)))).layers_ref_map
        ≡ some (if eqb d 0 then negsuc 0 else pos d))
      × (has (settle k m (some (pos (suc d)))).blobs k ≡ (has m.blobs k && not (eqb d 0)))
unfolding settle
settle_positive k m zero = (rw (lookup-insert k k, ==_refl k), rw (has-remove_all k k, ==_refl k))
settle_positive k m (suc d) =
    (ground (arith, lookup-insert k k (pos (suc d)) m.layers_ref_map, ==_refl k), ground arith)

settle_gone :
    (k : Text) (m : LayerManager)
    → (lookup k (settle k m (some (negsuc 0))).layers_ref_map ≡ some (negsuc 0))
      × (has (settle k m (some (negsuc 0))).blobs k ≡ has m.blobs k)
unfolding settle
settle_gone k m = (rw (lookup-insert k k, ==_refl k), refl)

counter_left : (n c : ℕ) → c ≤ n → counter (suc n) c ≡ some (pos (suc (n - c)))
counter_left n c h = ground arith

counter_gone : (n c : ℕ) → n < c → counter (suc n) c ≡ some (negsuc 0)
counter_gone n c h = ground arith

clean_one_self :
    (k : Text) (m : LayerManager) (n c : ℕ)
    → lookup k m.layers_ref_map ≡ counter n c
    → (lookup k (clean_one k m).layers_ref_map ≡ counter n (suc c))
      × (has (clean_one k m).blobs k ≡ (has m.blobs k && not (eqb (suc c) n)))
unfolding clean_one
clean_one_self k m zero c h = rw h (h, ground arith)
clean_one_self k m (suc n) c h = elim (Bool-cases (ltb c (suc n))) [
  | inl left ↦
      let e : lookup k m.layers_ref_map ≡ some (pos (suc (n - c))) =
        h ∙ counter_left n c (ground arith) in
      let (counted, held) = settle_positive k m (n - c) in rw e (ground arith, ground arith)
  | inr gone ↦
      let e : lookup k m.layers_ref_map ≡ some (negsuc 0) = h ∙ counter_gone n c (ground arith) in
      let (counted, held) = settle_gone k m in rw e (ground arith, ground arith)
]

clean_one_ne :
    (k j : Text) (m : LayerManager)
    → (j == k) ≡ false
    → (lookup k (clean_one j m).layers_ref_map ≡ lookup k m.layers_ref_map)
      × (has (clean_one j m).blobs k ≡ has m.blobs k)
unfolding clean_one
clean_one_ne k j m h = elim (Option-cases (lookup j m.layers_ref_map)) [
  | inl e ↦ rw e (refl, refl)
  | inr (ref, e) ↦
      let left = if is_positive ref then dec ref else ref in
      rw e (
        ground (
          arith,
          h,
          lookup-insert j k (dec left) m.layers_ref_map,
          lookup-insert j k left m.layers_ref_map,
          has-remove_all j k m.blobs,
        ))
]

-- Cleaning the layers `ls` when `c` of the `n` references of `k` are gone: the counter moves on by
-- the occurrences of `k`.
pub lookup-clean_layers :
    (k : Text) (ls : List Text) (m : LayerManager) (n c : ℕ)
    → lookup k m.layers_ref_map ≡ counter n c
    → lookup k (clean_layers ls m).layers_ref_map ≡ counter n (c + occurrences k ls)
unfolding clean_layers occurrences
lookup-clean_layers k [] m n c h = rw add-zero h
lookup-clean_layers k (x ∷ ls) m n c h = elim (Bool-cases (x == k)) [
  | inl same ↦
      let e : c + suc (occurrences k ls) ≡ suc c + occurrences k ls = omega arith in
      let same_key : x ≡ k = ==_eq same in
      rw (same, e)
        (lookup-clean_layers k ls (clean_one x m) n (suc c)
          (rw same_key (clean_one_self k m n c h).0))
  | inr other ↦
      rw other (lookup-clean_layers k ls (clean_one x m) n c ((clean_one_ne k x m other).0 ∙ h))
]

-- The blob `k` is kept unless this takes its last reference.
pub has-clean_layers :
    (k : Text) (ls : List Text) (m : LayerManager) (n c : ℕ)
    → lookup k m.layers_ref_map ≡ counter n c
    → has (clean_layers ls m).blobs k
      ≡ (has m.blobs k && not (ltb c n && leb n (c + occurrences k ls)))
unfolding clean_layers occurrences
has-clean_layers k [] m n c h = ground arith
has-clean_layers k (x ∷ ls) m n c h = elim (Bool-cases (x == k)) [
  | inl same ↦
      let same_key : x ≡ k = ==_eq same in
      let (counted, held) = clean_one_self k m n c h in
      let counted_x : lookup k (clean_one x m).layers_ref_map ≡ counter n (suc c) =
        rw same_key counted in
      let held_x : has (clean_one x m).blobs k ≡ (has m.blobs k && not (eqb (suc c) n)) =
        rw same_key held in
      rw same (ground (arith, has-clean_layers k ls (clean_one x m) n (suc c) counted_x, held_x))
  | inr other ↦
      let (counted, held) = clean_one_ne k x m other in
      rw other (
        has-clean_layers k ls (clean_one x m) n c (counted ∙ h)
        ∙ ap (λ b. b && not (ltb c n && leb n (c + occurrences k ls))) held)
]
