-- ===== src/Prelude/Strings/Laws.antt =====
-- Laws of the text functions.
use Prim.Native.Nat.{ℕ}
use mathlib.Core.Path.{◌≡◌, refl, ap}
use mathlib.Core.Logic.{◌≢◌, ◌↔◌, inl, inr}
use mathlib.Core.Bool.{true, false, ◌||◌}
use mathlib.Core.List.{List, [], ◌∷◌, ◌++◌, cons-ne-nil}
use mathlib.Core.Option.{some}
use native.Mathlib.Omega.{arith}
use image_tools.Prelude.Tests.{eqb, Bool-cases}
use image_tools.Prelude.Lists.{All, length, length-append}
use image_tools.Prelude.Strings.Defs.{
  Text, ◌==◌, contains, split, join, non_empty, onto_head, strip_prefix, trim_prefix, trim_suffix,
}

pub ==_iff : (s t : Text) → ((s == t) ≡ true) ↔ (s ≡ t)
unfolding ◌==◌
==_iff [] [] = (λ _. refl, λ _. refl)
==_iff [] (d ∷ t) = ground arith
==_iff (c ∷ s) [] = ground arith
==_iff (c ∷ s) (d ∷ t) = ground (arith, ==_iff s t)

pub ==_refl : (s : Text) → (s == s) ≡ true
==_refl s = (==_iff s s).1 refl

pub ==_eq : {s t : Text} → (s == t) ≡ true → s ≡ t
==_eq {s} {t} h = (==_iff s t).0 h

-- No character of the text is `c`.
abbrev pub Lacks : ℕ → Text → Type 0
Lacks c = All (λ d. d ≢ c)

-- What a split by `sep` and the test on the length leave.
abbrev pub IsPart : ℕ → Text → Type 0
IsPart sep p = (p ≢ []) × Lacks sep p

pub not-contains_of_Lacks : (s : Text) (c : ℕ) → Lacks c s → contains s c ≡ false
unfolding contains
not-contains_of_Lacks [] c h = refl
not-contains_of_Lacks (d ∷ s) c (hd, h) = ground (arith, not-contains_of_Lacks s c h)

pub contains-append : (s t : Text) (c : ℕ) → contains (s ++ t) c ≡ (contains s c || contains t c)
unfolding contains
contains-append [] t c = refl
contains-append (d ∷ s) t c = ground (arith, contains-append s t c)

pub split_of_Lacks : (s : Text) (sep : ℕ) → Lacks sep s → split s sep ≡ s ∷ []
unfolding split
split_of_Lacks [] sep h = refl
split_of_Lacks (c ∷ s) sep (hc, h) = ground (arith, split_of_Lacks s sep h)

-- The first part of a split ends at the first separator.
pub split-append : (p s : Text) (sep : ℕ) → Lacks sep p → split (p ++ sep ∷ s) sep ≡ p ∷ split s sep
unfolding split
split-append [] s sep h = ground arith
split-append (c ∷ p) s sep (hc, h) = ground (arith, split-append p s sep h)

pub non_empty-cons : (p : Text) (ps : List Text) → p ≢ [] → non_empty (p ∷ ps) ≡ p ∷ non_empty ps
unfolding non_empty
non_empty-cons [] ps h = absurd (h refl)
non_empty-cons (c ∷ p) ps h = refl

-- Joining parts and taking them apart again.
pub non_empty-split-join :
    (ps : List Text) (sep : ℕ) → All (IsPart sep) ps → non_empty (split (join ps sep) sep) ≡ ps
unfolding join
non_empty-split-join [] sep h = unfold split non_empty in refl
non_empty-split-join (p ∷ []) sep ((ne, lacks), h) =
    rw (split_of_Lacks p sep lacks, non_empty-cons p [] ne) (unfold non_empty in refl)
non_empty-split-join (p ∷ q ∷ ps) sep ((ne, lacks), h) = rw (
  split-append p (join (q ∷ ps) sep) sep lacks,
  non_empty-cons p _ ne,
  non_empty-split-join (q ∷ ps) sep h,
)

onto_head-Lacks :
    (c sep : ℕ) (ps : List Text) → c ≢ sep → All (Lacks sep) ps → All (Lacks sep) (onto_head c ps)
onto_head-Lacks c sep [] hc h = ((hc, tt), tt)
onto_head-Lacks c sep (p ∷ ps) hc (hp, h) = ((hc, hp), h)

pub split-Lacks : (s : Text) (sep : ℕ) → All (Lacks sep) (split s sep)
unfolding split
split-Lacks [] sep = (tt, tt)
split-Lacks (c ∷ s) sep = elim (Bool-cases (eqb c sep)) [
  | inl same ↦ rw same (tt, split-Lacks s sep)
  | inr other ↦ rw other (onto_head-Lacks c sep (split s sep) (ground arith) (split-Lacks s sep))
]

pub non_empty-IsPart :
    (ps : List Text) (sep : ℕ) → All (Lacks sep) ps → All (IsPart sep) (non_empty ps)
unfolding non_empty
non_empty-IsPart [] sep h = tt
non_empty-IsPart ([] ∷ ps) sep (_, h) = non_empty-IsPart ps sep h
non_empty-IsPart ((c ∷ p) ∷ ps) sep (hp, h) = ((cons-ne-nil c p, hp), non_empty-IsPart ps sep h)

strip_prefix-append : (p s : Text) → strip_prefix p (p ++ s) ≡ some s
unfolding strip_prefix
strip_prefix-append [] s = refl
strip_prefix-append (c ∷ p) s = ground (arith, strip_prefix-append p s)

pub trim_prefix-append : (p s : Text) → trim_prefix (p ++ s) p ≡ s
unfolding trim_prefix
trim_prefix-append p s = rw (strip_prefix-append p s, trim_prefix)

pub append_cons-ne-nil : (s t : Text) (c : ℕ) → s ++ c ∷ t ≢ []
append_cons-ne-nil [] t c = cons-ne-nil c t
append_cons-ne-nil (d ∷ s) t c = cons-ne-nil d (s ++ c ∷ t)

pub ==-length : (s t : Text) → (s == t) ≡ true → length s ≡ length t
==-length s t h = ap length (==_eq {s = s} {t = t} h)

-- Nothing is a suffix of a shorter text but itself.
trim_suffix_self : (p : Text) → p ≢ [] → trim_suffix p p ≡ []
unfolding trim_suffix
trim_suffix_self [] h = absurd (h refl)
trim_suffix_self (c ∷ p) h = rw (==_refl (c ∷ p))

append_self-length : (s p : Text) (c : ℕ) → ((c ∷ (s ++ p)) == p) ≡ false
append_self-length s p c = elim (Bool-cases ((c ∷ (s ++ p)) == p)) [
  | inl same ↦ absurd (omega (arith, ==-length (c ∷ (s ++ p)) p same, length-append s p))
  | inr other ↦ other
]

pub trim_suffix-append : (s p : Text) → p ≢ [] → trim_suffix (s ++ p) p ≡ s
unfolding trim_suffix
trim_suffix-append [] p h = trim_suffix_self p h
trim_suffix-append (c ∷ s) p h = rw (append_self-length s p c, trim_suffix-append s p h)
