-- ===== src/Hangar/ImageList/Words.antt =====
-- pkg/hangar/imagelist/imagelist.go: words and trimmed lines.
use image_tools.Hangar.ImageList.{space}
use image_tools.Prelude.{
  ℕ, ◌≡◌, refl, ◌≢◌, false, [], ◌∷◌, ◌++◌, append_assoc, arith, All, Text, is_empty, is_space,
  trim_right, trim_space, Lacks, IsPart,
}

-- A word: not empty, and with no white space.
abbrev pub NoSpace : Text → Type 0
NoSpace = All (λ c. is_space c ≡ false)

abbrev pub IsWord : Text → Type 0
IsWord s = (s ≢ []) × NoSpace s

pub ne-space : (c : ℕ) → is_space c ≡ false → c ≢ space
unfolding is_space
ne-space c h = ground arith

pub NoSpace-Lacks : (s : Text) → NoSpace s → Lacks space s
NoSpace-Lacks [] h = tt
NoSpace-Lacks (c ∷ s) (hc, h) = (ne-space c hc, NoSpace-Lacks s h)

pub trim_right-NoSpace : (s : Text) → NoSpace s → trim_right s ≡ s
unfolding trim_right
trim_right-NoSpace [] h = refl
trim_right-NoSpace (c ∷ s) (hc, h) = ground (arith, trim_right-NoSpace s h)

pub is_empty-append : (s t : Text) → t ≢ [] → is_empty (s ++ t) ≡ false
is_empty-append [] [] h = absurd (h refl)
is_empty-append [] (c ∷ t) h = refl
is_empty-append (c ∷ s) t h = refl

pub trim_right-append : (s t : Text) → IsWord t → trim_right (s ++ t) ≡ s ++ t
unfolding trim_right
trim_right-append [] t (ne, h) = trim_right-NoSpace t h
trim_right-append (c ∷ s) t (ne, h) = rw (trim_right-append s t (ne, h), is_empty-append s t ne)

-- A line that begins and ends with a word has nothing to trim.
pub trim_space-append :
    (s m t : Text) → IsWord s → IsWord t → trim_space (s ++ (m ++ t)) ≡ s ++ (m ++ t)
unfolding trim_space
trim_space-append [] m t (ne, h) ht = absurd (ne refl)
trim_space-append (c ∷ s) m t (ne, (hc, h)) ht =
    rw (hc, ← append_assoc s m t) (trim_right-append (c ∷ (s ++ m)) t ht)

pub IsWord-IsPart : (s : Text) → IsWord s → IsPart space s
IsWord-IsPart s (ne, h) = (ne, NoSpace-Lacks s h)
