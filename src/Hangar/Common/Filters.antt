-- ===== src/Hangar/Common/Filters.antt =====
-- pkg/hangar/common.go: which images of a list the options let pass.
use image_tools.Hangar.Common.{CommonOptions, spec_set}
use image_tools.Media.{Platform}
use image_tools.Prelude.{
  ◌≡◌, refl, sym, ap, ◌∙◌, ◌≢◌, ◌↔◌, ◌⊎◌, inl, inr, true, false, List, [], ◌∷◌, cons-ne-nil, arith,
  has, mark, mark_all, has_nil, has-mark_all, Text,
}
use image_tools.Source.Copy.{rejects, is_skipped}

-- An option that is not given and a field that is not known let everything pass.
abbrev pub Passes : List Text → Text → Type 0
Passes ks k = (ks ≡ []) ⊎ (k ≡ []) ⊎ (has ks k ≡ true)

has-mark_ne : (k : Text) (set : List Text) → mark k set ≢ []
unfolding mark has
has-mark_ne k [] h = ground arith
has-mark_ne k (x ∷ set) h = ground arith

mark_all-ne-nil : (ks set : List Text) → set ≢ [] → mark_all ks set ≢ []
unfolding mark_all
mark_all-ne-nil [] set h = h
mark_all-ne-nil (k ∷ ks) set h = mark_all-ne-nil ks (mark k set) (has-mark_ne k set)

rejects_iff : (set : List Text) (k : Text) → (rejects set k ≡ false) ↔ Passes set k
rejects_iff [] k = (λ _. inl refl, λ _. refl)
rejects_iff (x ∷ set) [] = (λ _. inr (inl refl), λ _. refl)
rejects_iff (x ∷ set) (c ∷ k) = (
  λ h. inr (inr (ground arith)),
  λ h. elim h [
    | inl e ↦ absurd (cons-ne-nil x set e)
    | inr (inl e) ↦ absurd (cons-ne-nil c k e)
    | inr (inr e) ↦ rw e
  ],
)

mark_all-nil : (ks : List Text) → mark_all ks [] ≡ [] → ks ≡ []
unfolding mark_all
mark_all-nil [] h = refl
mark_all-nil (k ∷ ks) h = absurd (mark_all-ne-nil ks (mark k []) (has-mark_ne k []) h)

has-mark_all_nil : (ks : List Text) (k : Text) → has (mark_all ks []) k ≡ has ks k
has-mark_all_nil ks k = ground (arith, has-mark_all ks [] k, has_nil k)

Passes-mark_all : (ks : List Text) (k : Text) → Passes (mark_all ks []) k ↔ Passes ks k
unfolding mark_all
Passes-mark_all ks k = (
  λ h. elim h [
    | inl e ↦ inl (mark_all-nil ks e)
    | inr (inl e) ↦ inr (inl e)
    | inr (inr e) ↦ inr (inr (sym (has-mark_all_nil ks k) ∙ e))
  ],
  λ h. elim h [
    | inl e ↦ inl (ap (λ l. mark_all l []) e)
    | inr (inl e) ↦ inr (inl e)
    | inr (inr e) ↦ inr (inr (has-mark_all_nil ks k ∙ e))
  ],
)

rejects-mark_all : (ks : List Text) (k : Text) → (rejects (mark_all ks []) k ≡ false) ↔ Passes ks k
rejects-mark_all ks k =
    let (to, from) = rejects_iff (mark_all ks []) k in
    let (down, up) = Passes-mark_all ks k in (λ h. down (to h), λ h. from (up h))

-- With the sets that the options give, the copy does not skip an image of a list exactly when each
-- of its system, architecture and variant passes: the option is not given, or the field of the image
-- is empty, or the option names it.
pub is_skipped-spec_set :
    (o : CommonOptions) (p : Platform)
    → (is_skipped (spec_set o) p ≡ false)
      ↔ (Passes o.os p.os × Passes o.arch p.architecture × Passes o.variant p.variant)
unfolding is_skipped spec_set
is_skipped-spec_set o p =
    let (to_os, of_os) = rejects-mark_all o.os p.os in
    let (to_arch, of_arch) = rejects-mark_all o.arch p.architecture in
    let (to_variant, of_variant) = rejects-mark_all o.variant p.variant in
    (
      λ h. (to_os (ground arith), to_arch (ground arith), to_variant (ground arith)),
      λ h. rw (of_os h.0, of_arch h.1, of_variant h.2),
    )
