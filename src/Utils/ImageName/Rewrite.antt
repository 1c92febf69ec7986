-- ===== src/Utils/ImageName/Rewrite.antt =====
-- pkg/utils/utils.go: what `ConstructRegistry` and `ReplaceProjectName` do to a name.
use image_tools.Prelude.{
  ◌≤◌, ◌<◌, ◌≡◌, refl, ◌≢◌, inl, inr, true, false, some, List, [], ◌∷◌, cons-ne-nil, arith,
  if◌then◌else◌, Bool-cases, length, All, Text, is_empty, split, join, Lacks, IsPart,
  non_empty-split-join, split-Lacks, non_empty-IsPart,
}
use image_tools.Utils.ImageName.{
  slash, docker_hub_registry, parts, is_registry, with_registry, construct_registry,
  replace_project, replace_project_name, project_of, get_project_name, registry_of,
  get_registry_name, image_name_of, get_image_name,
}

parts-IsPart : (image : Text) → All (IsPart slash) (parts image)
unfolding parts
parts-IsPart image = non_empty-IsPart (split image slash) slash (split-Lacks image slash)

parts-join : (ps : List Text) → All (IsPart slash) ps → parts (join ps slash) ≡ ps
unfolding parts
parts-join ps h = non_empty-split-join ps slash h

-- The parts behind the registry, if the first part is one.
unfoldable pub repository : List Text → List Text
repository [] = []
repository (s ∷ ss) = if is_registry s then ss else s ∷ ss

-- The registry that a name is moved to: the override, or else the one that it names, or else the
-- default one.
unfoldable pub target_registry : Text → List Text → Text
target_registry override [] = override
target_registry override (s ∷ ss) =
    if is_empty override then if is_registry s then s else docker_hub_registry else override

with_registry_lem :
    (override : Text) (ps : List Text)
    → ps ≢ []
    → with_registry override ps ≡ some (join (target_registry override ps ∷ repository ps) slash)
unfolding with_registry target_registry repository
with_registry_lem override [] h = absurd (h refl)
with_registry_lem override (s ∷ ss) h = ground arith

repository-All : (ps : List Text) → All (IsPart slash) ps → All (IsPart slash) (repository ps)
unfolding repository
repository-All [] h = tt
repository-All (s ∷ ss) (hs, h) = ground arith

target-IsPart :
    (override : Text) (ps : List Text)
    → Lacks slash override
    → ps ≢ []
    → All (IsPart slash) ps
    → IsPart slash (target_registry override ps)
unfolding target_registry
target-IsPart override [] ho h hps = absurd (h refl)
target-IsPart [] (s ∷ ss) ho h (hs, hps) = elim (Bool-cases (is_registry s)) [
  | inl e ↦ rw e hs
  | inr e ↦ rw e (cons-ne-nil _ _, omega arith)
]
target-IsPart (c ∷ o) (s ∷ ss) ho h (hs, hps) = (cons-ne-nil c o, ho)

-- On every name that has a part, `ConstructRegistry` does not panic, and the name it returns is the
-- target registry (the override if that is not empty, else the registry of the name, else
-- docker.io) followed by the parts of the name behind its registry, all unchanged and in order.
parts-construct_registry :
    (image override : Text)
    → parts image ≢ []
    → Lacks slash override
    → (out : Text) × (construct_registry image override ≡ some out)
      × (parts out ≡ target_registry override (parts image) ∷ repository (parts image))
unfolding construct_registry
parts-construct_registry image override h ho =
    let ps = parts image in
    let front = target_registry override ps in
    (
      join (front ∷ repository ps) slash,
      with_registry_lem override ps h,
      parts-join (front ∷ repository ps) (
        target-IsPart override ps ho h (parts-IsPart image),
        repository-All ps (parts-IsPart image),
      ),
    )

with_registry_idem :
    (override : Text) (ps : List Text) {out : Text}
    → IsPart slash override
    → is_registry override ≡ true
    → All (IsPart slash) ps
    → with_registry override ps ≡ some out
    → with_registry override (parts out) ≡ some out
unfolding with_registry target_registry
with_registry_idem override [] ho hr hps h = cc
with_registry_idem [] (s ∷ ss) ho hr hps h = absurd (ho.0 refl)
with_registry_idem (c ∷ o) (s ∷ ss) {out} ho hr hps h =
    let rest = repository (s ∷ ss) in
    let e : join ((c ∷ o) ∷ rest) slash ≡ out =
      cc (with_registry_lem (c ∷ o) (s ∷ ss) (cons-ne-nil s ss), h) in
    rw (← e, parts-join ((c ∷ o) ∷ rest) (ho, repository-All (s ∷ ss) hps), hr)

-- Moving a name to a registry twice is moving it once.
construct_registry_idem :
    (image override : Text) {out : Text}
    → IsPart slash override
    → is_registry override ≡ true
    → construct_registry image override ≡ some out
    → construct_registry out override ≡ some out
unfolding construct_registry
construct_registry_idem image override {out} ho hr h =
    with_registry_idem override (parts image) ho hr (parts-IsPart image) h

-- What `replace_project` does to one, two or three parts.
replace_project_lem :
    (project : Text) (ps : List Text)
    → IsPart slash project
    → is_registry project ≡ false
    → 0 < length ps
    → length ps ≤ 3
    → All (IsPart slash) ps
    → All (IsPart slash) (replace_project project ps)
      × (project_of (replace_project project ps) ≡ project)
      × (registry_of (replace_project project ps) ≡ registry_of ps)
      × (image_name_of (replace_project project ps) ≡ image_name_of ps)
unfolding replace_project project_of registry_of image_name_of
replace_project_lem [] ps hp hr lo hi h = absurd (hp.0 refl)
replace_project_lem (c ∷ p) [] hp hr lo hi h = absurd (omega arith)
replace_project_lem (c ∷ p) (x ∷ []) hp hr lo hi h =
    ((hp, h), ground arith, ground arith, ground arith)
replace_project_lem (c ∷ p) (x ∷ y ∷ []) hp hr lo hi h = elim (Bool-cases (is_registry x)) [
  | inl e ↦ rw e ((h.0, (hp, h.1)), refl, refl, refl)
  | inr e ↦ rw (e, hr) ((hp, h.1), refl, refl, refl)
]
replace_project_lem (c ∷ p) (x ∷ y ∷ z ∷ []) hp hr lo hi h = ((h.0, (hp, h.1.1)), refl, refl, refl)
replace_project_lem (c ∷ p) (x ∷ y ∷ z ∷ w ∷ ws) hp hr lo hi h = absurd (omega arith)

-- With a project that is a part and does not read as a registry, on names of one to three parts,
-- `ReplaceProjectName` gives a name of that project, and keeps the registry and the image name.
pub get_names-replace_project_name :
    (image project : Text)
    → IsPart slash project
    → is_registry project ≡ false
    → 0 < length (parts image)
    → length (parts image) ≤ 3
    → (get_project_name (replace_project_name image project) ≡ project)
      × (get_registry_name (replace_project_name image project) ≡ get_registry_name image)
      × (get_image_name (replace_project_name image project) ≡ get_image_name image)
unfolding get_project_name get_registry_name get_image_name replace_project_name
get_names-replace_project_name image project hp hr lo hi =
    let (all, e_project, e_registry, e_name) =
      replace_project_lem project (parts image) hp hr lo hi (parts-IsPart image) in
    let e = parts-join (replace_project project (parts image)) all in
    (rw e e_project, rw e e_registry, rw e e_name)
