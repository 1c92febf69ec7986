-- ===== src/Hangar/Archive/Index/Digests.antt =====
-- pkg/hangar/archive/index.go: the digest set of an index.
use mathlib.Core.Path.{fun_ext}
use image_tools.Hangar.Archive.Index.{
  ImageSpec, Image, Index, new_index, mark_specs, mark_images, unmarshal, set_or_empty, append,
  has_all, has_image,
}
use image_tools.Prelude.{
  ◌≡◌, refl, ◌≢◌, ◌↔◌, inl, inr, true, ◌||◌, Option, none, some, List, [], ◌∷◌, ◌++◌, map,
  append-nil, append_assoc, arith, eqb, Bool-cases, Option-cases, has, mark, has-append, has-mark,
  length, nil_of_length, All, Text, ==_refl,
}

-- The digests of all images of a list, with repetitions.
unfoldable pub digests : List Image → List Text
digests [] = []
digests (image ∷ images) = map (λ spec. spec.digest) image.images ++ digests images

pub has-mark_specs :
    (specs : List ImageSpec) (set : List Text) (k : Text)
    → has (mark_specs specs set) k ≡ (has (map (λ spec. spec.digest) specs) k || has set k)
unfolding mark_specs has
has-mark_specs [] set k = refl
has-mark_specs (spec ∷ specs) set k =
    ground (arith, has-mark_specs specs (mark spec.digest set) k, has-mark spec.digest k set)

has-mark_images :
    (images : List Image) (set : List Text) (k : Text)
    → has (mark_images images set) k ≡ (has (digests images) k || has set k)
unfolding mark_images digests
has-mark_images [] set k = unfold has in refl
has-mark_images (image ∷ images) set k = ground (
  arith,
  has-mark_images images (mark_specs image.images set) k,
  has-mark_specs image.images set k,
  has-append (map (λ spec. spec.digest) image.images) (digests images) k,
)

digests-append : (xs ys : List Image) → digests (xs ++ ys) ≡ digests xs ++ digests ys
unfolding digests
digests-append [] ys = refl
digests-append (image ∷ images) ys = rw (digests-append images ys, append_assoc)

-- The set holds exactly the digests of the listed images.
pub record IsIndexed (i : Index) : Type 0 where
  pub set : List Text
  pub present : i.digest_set ≡ some set
  pub exact : (k : Text) → has set k ≡ has (digests i.list) k

-- A new index is indexed.
pub new_index-IsIndexed : (now : Text) → IsIndexed (new_index now)
unfolding new_index digests
new_index-IsIndexed now = record { set = []; present = refl; exact = λ k. refl }

-- Reading an index back rebuilds the set, whatever set the value had before.
pub unmarshal-IsIndexed :
    (decode : Text → Index → Option Index) (i : Index) (b : Text) {i' : Index}
    → unmarshal decode i b ≡ some i'
    → IsIndexed i'
unfolding unmarshal
unmarshal-IsIndexed decode i b {i'} h = elim (Option-cases (decode b i)) [
  | inl bad ↦ absurd (ground arith)
  | inr (j, good) ↦
      let e : record j { digest_set = some (mark_images j.list []) } ≡ i' = ground arith in
      rw (← e) (record {
        set = mark_images j.list [];
        present = refl;
        exact = λ k. unfold has in ground (arith, has-mark_images j.list [] k);
      })
]

appended-exact :
    (i : Index) (n : Image) (h : IsIndexed i) (k : Text)
    → has (mark_specs n.images h.set) k ≡ has (digests (i.list ++ n ∷ [])) k
unfolding digests has
appended-exact i n h k =
    rw (digests-append i.list (n ∷ []), append-nil (map (λ spec. spec.digest) n.images))
      (ground (
        arith,
        has-mark_specs n.images h.set k,
        h.exact k,
        has-append (digests i.list) (map (λ spec. spec.digest) n.images) k,
      ))

-- `Append` keeps the set exact, whatever it is given.
pub append-IsIndexed : (i : Index) (n : Option Image) → IsIndexed i → IsIndexed (append i n)
unfolding append
append-IsIndexed i none h = h
append-IsIndexed i (some n) h = elim (Bool-cases (eqb (length n.images) 0)) [
  | inl nothing ↦ rw nothing h
  | inr some_spec ↦
      rw (some_spec, h.present)
        (record { set = mark_specs n.images h.set; present = refl; exact = appended-exact i n h })
]

pub has_all_iff :
    (set : List Text) (specs : List ImageSpec)
    → (has_all set specs ≡ true) ↔ All (λ spec. has set spec.digest ≡ true) specs
unfolding has_all
has_all_iff set [] = (λ _. tt, λ _. refl)
has_all_iff set (spec ∷ specs) = ground (arith, has_all_iff set specs)

-- In an indexed index, `Has` answers true just when each digest of the image is the digest of some
-- listed image.
pub has_image_iff :
    (i : Index) (n : Image)
    → IsIndexed i
    → (has_image i n ≡ true) ↔ All (λ spec. has (digests i.list) spec.digest ≡ true) n.images
unfolding has_image
has_image_iff i n h = rw (h.present, ← fun_ext h.exact) (has_all_iff h.set n.images)

abbrev IsSubset : List Text → List Text → Type 0
IsSubset s t = (k : Text) → has s k ≡ true → has t k ≡ true

has_all_mono :
    (s t : List Text) (specs : List ImageSpec)
    → IsSubset s t
    → has_all s specs ≡ true
    → has_all t specs ≡ true
unfolding has_all
has_all_mono s t [] sub h = refl
has_all_mono s t (spec ∷ specs) sub h = ground (arith, sub spec.digest, has_all_mono s t specs sub)

has_all_self : (specs : List ImageSpec) → has_all (map (λ spec. spec.digest) specs) specs ≡ true
unfolding has_all has
has_all_self [] = refl
has_all_self (spec ∷ specs) =
    let digs = map (λ s. s.digest) specs in
    ground (
      arith,
      ==_refl spec.digest,
      has_all_mono digs (spec.digest ∷ digs) specs (λ k h. ground arith) (has_all_self specs),
    )

-- After an image with a spec is appended, the index has it.
has_image-append : (i : Index) (n : Image) → n.images ≢ [] → has_image (append i (some n)) n ≡ true
unfolding has_image append
has_image-append i n ne = elim (Bool-cases (eqb (length n.images) 0)) [
  | inl nothing ↦ absurd (ne (nil_of_length n.images nothing))
  | inr some_spec ↦ rw some_spec (
      has_all_mono (map (λ spec. spec.digest) n.images) _ n.images
        (λ k h. ground (arith, has-mark_specs n.images (set_or_empty i.digest_set) k))
        (has_all_self n.images))
]

marked_mono : (specs : List ImageSpec) (set : List Text) → IsSubset set (mark_specs specs set)
marked_mono specs set k h = ground (arith, has-mark_specs specs set k)

-- What an index has, it still has after any `Append`.
has_image-append_mono :
    (i : Index) (m : Option Image) (n : Image)
    → has_image i n ≡ true
    → has_image (append i m) n ≡ true
unfolding has_image append
has_image-append_mono i none n had = had
has_image-append_mono i (some m) n had = elim (Option-cases i.digest_set) [
  | inl nil_map ↦ absurd (ground arith)
  | inr (set, present) ↦
      ground (arith, has_all_mono set (mark_specs m.images set) n.images (marked_mono m.images set))
]
