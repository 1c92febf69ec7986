-- ===== src/Hangar/Saver/Blobs.antt =====
-- pkg/hangar/saver.go: which blobs the archive holds.
use image_tools.Hangar.Archive.Index.{Image, Index, append}
use image_tools.Hangar.Archive.Writer.{
  CacheDir, Walk, write_dir, passes_over, has_only-write_dir, has-write_dir,
}
use image_tools.Hangar.Saver.{SaveState, image_blobs, without_known, compress}
use image_tools.Prelude.{
  ◌≡◌, ap, ◌∙◌, subst, inl, inr, Bool, true, false, not, ◌&&◌, ◌||◌, some, List, [], ◌∷◌, ◌++◌,
  arith, eqb, if◌then◌else◌, Bool-cases, has, has-append, has-mark_all, length, select, Text, ◌==◌,
  ==_eq,
}

-- The blobs of all images of an index.
unfoldable pub list_blobs : List Image → List Text
list_blobs [] = []
list_blobs (image ∷ images) = image_blobs image.images [] ++ list_blobs images

-- Every blob that an image of the index needs is marked, and every marked blob is in the archive.
pub record IsSaved (st : SaveState) : Type 0 where
  pub listed : (k : Text) → has (list_blobs st.index.list) k ≡ true → has st.layers_set k ≡ true
  pub stored : (k : Text) → has st.layers_set k ≡ true → has st.blobs k ≡ true

-- The cache directory holds the blobs of the image that was copied to it.
abbrev pub IsCopied : CacheDir → Image → Type 0
IsCopied cache image =
    (k : Text) → has (image_blobs image.images []) k ≡ true → has cache.blobs k ≡ true

has-select :
    (keep : Text → Bool) (l : List Text) (k : Text) → has (select keep l) k ≡ (keep k && has l k)
unfolding has select
has-select keep [] k = ground arith
has-select keep (x ∷ l) k = elim (Bool-cases (x == k)) [
  | inl same ↦ ground (arith, has-select keep l k, ap keep (==_eq same))
  | inr e ↦ ground (arith, has-select keep l k)
]

list_blobs-append :
    (l : List Image) (image : Image) (k : Text)
    → has (list_blobs (l ++ image ∷ [])) k
      ≡ (has (list_blobs l) k || has (image_blobs image.images []) k)
unfolding list_blobs has
list_blobs-append [] image k = ground (arith, has-append (image_blobs image.images []) [] k)
list_blobs-append (i ∷ l) image k = ground (
  arith,
  has-append (image_blobs i.images []) (list_blobs (l ++ image ∷ [])) k,
  has-append (image_blobs i.images []) (list_blobs l) k,
  list_blobs-append l image k,
)

list_blobs_of_append :
    (i : Index) (image : Image) (k : Text)
    → has (list_blobs (append i (some image)).list) k ≡ true
    → (has (list_blobs i.list) k || has (image_blobs image.images []) k) ≡ true
unfolding append
list_blobs_of_append i image k h = elim (Bool-cases (eqb (length image.images) 0)) [
  | inl e ↦ ground arith
  | inr e ↦ ground (arith, list_blobs-append i.list image k)
]

-- The walk passes over none of the blobs of an image.
abbrev pub IsSeen : Walk → Image → Type 0
IsSeen met image =
    (k : Text) → has (image_blobs image.images []) k ≡ true → passes_over (met.visit_blob k) ≡ false

abbrev stored_by : Walk → CacheDir → Image → SaveState → List Text
stored_by met cache image st =
    (write_dir met (without_known st.layers_set image.images cache)).0.blobs

has-compress :
    (met : Walk) (cache : CacheDir) (image : Image) (st : SaveState) (k : Text)
    → has (compress met cache image st).0.blobs k
      ≡ (has st.blobs k || has (stored_by met cache image st) k)
unfolding compress
has-compress met cache image st k = has-append st.blobs (stored_by met cache image st) k

-- What is not marked is stored, and what is marked is not.
stored-new :
    (met : Walk) (cache : CacheDir) (image : Image) (st : SaveState) (k : Text)
    → IsCopied cache image
    → IsSeen met image
    → (compress met cache image st).1 ≡ true
    → has (image_blobs image.images []) k ≡ true
    → has st.layers_set k ≡ false
    → has (stored_by met cache image st) k ≡ true
unfolding compress
stored-new met cache image st k copied seen done named fresh =
    has-write_dir met (without_known st.layers_set image.images cache) k done (seen k named)
      (unfold without_known in rw (has-select, named, fresh) (copied k named))

known_only :
    (met : Walk) (cache : CacheDir) (image : Image) (st : SaveState) (k : Text)
    → has (stored_by met cache image st) k ≡ true
    → (not (has (image_blobs image.images []) k && has st.layers_set k) && has cache.blobs k) ≡ true
unfolding without_known
known_only met cache image st k there =
    rw has-select at
      (has_only-write_dir met (without_known st.layers_set image.images cache) k there)

stored-known :
    (met : Walk) (cache : CacheDir) (image : Image) (st : SaveState) (k : Text)
    → has (image_blobs image.images []) k ≡ true
    → has st.layers_set k ≡ true
    → has (stored_by met cache image st) k ≡ false
stored-known met cache image st k named known =
    elim (Bool-cases (has (stored_by met cache image st) k)) [
      | inl there ↦ ground (arith, known_only met cache image st k there)
      | inr e ↦ e
    ]

has_marked :
    (met : Walk) (cache : CacheDir) (image : Image) (st : SaveState) (k : Text)
    → has (compress met cache image st).0.layers_set k
      ≡ (has (image_blobs image.images []) k || has st.layers_set k)
unfolding compress
has_marked met cache image st k = has-mark_all (image_blobs image.images []) st.layers_set k

index-compress :
    (met : Walk) (cache : CacheDir) (image : Image) (st : SaveState) (done : Bool)
    → (compress met cache image st).1 ≡ done
    → (compress met cache image st).0.index
      ≡ (if done then append st.index (some image) else st.index)
unfolding compress
index-compress met cache image st done e = rw e

pub compress-IsSaved :
    (met : Walk) (cache : CacheDir) (image : Image) (st : SaveState)
    → IsSaved st
    → IsCopied cache image
    → IsSeen met image
    → (compress met cache image st).1 ≡ true
    → IsSaved (compress met cache image st).0
compress-IsSaved met cache image st saved copied seen done = record {
  listed = λ k h. ground (
    arith,
    list_blobs_of_append st.index image k (
        subst (λ (i : Index). has (list_blobs i.list) k ≡ true)
          (index-compress met cache image st true done) h),
    saved.listed k,
    has_marked met cache image st k,
  );
  stored = λ k h. ground (
    arith,
    saved.stored k,
    stored-new met cache image st k copied seen done,
    has-compress met cache image st k,
    has_marked met cache image st k,
  );
}

-- After a failed write of an image, the files that it stored before it failed are in the archive, and
-- the image is not in the index. A second write of the same image puts in none of its blobs, whatever
-- the cache directory holds, so a blob that the first write did not store, and that was not there
-- before, is not there afterwards; but when the second write succeeds, the image is put into the index.
pub compress-failed :
    (lost again : Walk) (first second : CacheDir) (image : Image) (st : SaveState) (k : Text)
    → (compress lost first image st).1 ≡ false
    → has (image_blobs image.images []) k ≡ true
    → let st₁ = (compress lost first image st).0 in
      let (st₂, done) = compress again second image st₁ in
      (st₁.index ≡ st.index)
      × (has st₁.blobs k ≡ (
          has st.blobs k
          || has (write_dir lost (without_known st.layers_set image.images first)).0.blobs k))
      × (has st₂.blobs k ≡ has st₁.blobs k)
      × (done ≡ true → st₂.index ≡ append st.index (some image))
compress-failed lost again first second image st k fails h =
    let st₁ = (compress lost first image st).0 in
    let unlisted = index-compress lost first image st false fails in
    let marked : has st₁.layers_set k ≡ true = ground (arith, has_marked lost first image st k) in
    (
      unlisted,
      has-compress lost first image st k,
      ground (
        arith,
        has-compress again second image st₁ k,
        stored-known again second image st₁ k h marked,
      ),
      λ done.
          index-compress again second image st₁ true done
          ∙ ap (λ i. append i (some image)) unlisted,
    )
