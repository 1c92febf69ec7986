-- ===== src/Hangar/Archive/Writer.antt =====
-- pkg/hangar/archive/writer.go: what `writeDir` puts into the archive; `appendDir` of updater.go walks
-- a directory in the same way.
use image_tools.Prelude.{
  ◌≡◌, refl, ap, ◌⊎◌, inl, inr, Bool, true, false, ◌&&◌, List, [], ◌∷◌, arith, if◌then◌else◌,
  Bool-cases, has, Text, ◌==◌, ==_eq,
}

-- What the walk meets at a file: it is written; it cannot be looked at, which is only logged; or
-- opening it, its header in the archive or the copy of its bytes fails, which ends the walk.
pub data Visit : Type 0 where
  visited : Visit
  passed_over : Visit
  failed_visit : Visit

-- The cache directory of a worker: the shared blobs and the directories of images.
pub record CacheDir : Type 0 where
  pub blobs : List Text
  pub images : List Text

-- What a walk over a cache directory meets, and whether the `Flush` behind it succeeds.
pub record Walk : Type 0 where
  pub visit_image : Text → Visit
  pub visit_blob : Text → Visit
  pub flushes : Bool

-- The files that are in the archive as a whole when the walk ends, and whether it came to its end.
unfoldable pub write_files : (Text → Visit) → List Text → List Text × Bool
write_files visit [] = ([], true)
write_files visit (file ∷ files) =
    let (stored, done) = write_files visit files in
    elim (visit file) [
      | visited ↦ (file ∷ stored, done)
      | passed_over ↦ (stored, done)
      | failed_visit ↦ ([], false)
    ]

-- The walk is in the order of names: the directories of images are named by hexadecimal digits, and
-- come before the directory of the blobs, "share".
unfoldable pub write_dir : Walk → CacheDir → CacheDir × Bool
unfolding write_files
write_dir w cache =
    let (images, whole) = write_files w.visit_image cache.images in
    let (blobs, done) = write_files w.visit_blob cache.blobs in
    if whole
    then (record { blobs = blobs; images = images }, done && w.flushes)
    else (record { blobs = []; images = images }, false)

abbrev pub passes_over : Visit → Bool
passes_over passed_over = true
passes_over v = false

Visit-cases : (v : Visit) → ((v ≡ visited) ⊎ (v ≡ passed_over)) ⊎ (v ≡ failed_visit)
Visit-cases visited = inl (inl refl)
Visit-cases passed_over = inl (inr refl)
Visit-cases failed_visit = inr refl

has_only-write_files :
    (visit : Text → Visit) (files : List Text) (k : Text)
    → has (write_files visit files).0 k ≡ true
    → has files k ≡ true
unfolding write_files has
has_only-write_files visit [] k h = h
has_only-write_files visit (file ∷ files) k h = elim (Visit-cases (visit file)) [
  | inl (inl e) ↦ elim (Bool-cases (file == k)) [
    | inl same ↦ rw same
    | inr differs ↦
        rw differs (has_only-write_files visit files k (rw (write_files, e, has, differs) at h))
  ]
  | inl (inr e) ↦ ground (arith, has_only-write_files visit files k (rw (write_files, e) at h))
  | inr e ↦ absurd (ground (arith, rw (write_files, e) at h))
]

has-write_files :
    (visit : Text → Visit) (files : List Text) (k : Text)
    → (write_files visit files).1 ≡ true
    → passes_over (visit k) ≡ false
    → has files k ≡ true
    → has (write_files visit files).0 k ≡ true
unfolding write_files has
has-write_files visit [] k done seen h = h
has-write_files visit (file ∷ files) k done seen h = elim (Visit-cases (visit file)) [
  | inl (inl e) ↦
      rw (write_files, e)
        (elim (Bool-cases (file == k)) [
          | inl same ↦ rw same
          | inr differs ↦
              rw differs
                (has-write_files visit files k (rw (write_files, e) at done) seen (rw differs at h))
        ])
  | inl (inr e) ↦
      rw (write_files, e)
        (elim (Bool-cases (file == k)) [
          | inl same ↦
              absurd
                (ground (arith, ap (λ x. passes_over (visit x)) (==_eq same), ap passes_over e))
          | inr differs ↦
              has-write_files visit files k (rw (write_files, e) at done) seen (rw differs at h)
        ])
  | inr e ↦ absurd (ground (arith, rw (write_files, e) at done))
]

-- Nothing but blobs of the directory is put into the archive, whether or not the walk fails.
pub has_only-write_dir :
    (w : Walk) (cache : CacheDir) (k : Text)
    → has (write_dir w cache).0.blobs k ≡ true
    → has cache.blobs k ≡ true
unfolding write_dir has
has_only-write_dir w cache k h = elim (Bool-cases (write_files w.visit_image cache.images).1) [
  | inl e ↦ has_only-write_files w.visit_blob cache.blobs k (rw (write_dir, e) at h)
  | inr e ↦ absurd (ground (arith, rw (write_dir, e) at h))
]

-- A write without an error puts in every blob that the walk does not pass over.
pub has-write_dir :
    (w : Walk) (cache : CacheDir) (k : Text)
    → (write_dir w cache).1 ≡ true
    → passes_over (w.visit_blob k) ≡ false
    → has cache.blobs k ≡ true
    → has (write_dir w cache).0.blobs k ≡ true
unfolding write_dir has
has-write_dir w cache k done seen h = elim (Bool-cases (write_files w.visit_image cache.images).1) [
  | inl e ↦ rw e (
      has-write_files w.visit_blob cache.blobs k (ground (arith, rw (write_dir, e) at done)) seen h)
  | inr e ↦ absurd (ground (arith, rw (write_dir, e) at done))
]
