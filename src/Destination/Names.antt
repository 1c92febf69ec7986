-- ===== src/Destination/Names.antt =====
-- pkg/destination/destination.go: the names that a destination answers.
use image_tools.Destination.{Destination, printed_name, init_reference_name}
use image_tools.Destination.Queries.{
  without_transport, reference_name_without_transport, reference_name_digest,
}
use image_tools.Prelude.{
  ◌≡◌, refl, ap, ◌∙◌, ◌∷◌, ◌++◌, append_assoc, cons-ne-nil, Result, ok, err, ◌>>=◌, Text,
  trim_prefix-append, trim_suffix-append,
}
use image_tools.Types.{
  ImageType, undefined, docker, docker_daemon, docker_archive, oci, dir, hangar_archive, transport,
  ImageError, invalid_type,
}
use image_tools.Utils.ImageName.{slash, colon, full_name}

unfoldable pub described : ImageType → Destination → Result ImageError Text
described docker d = ok (full_name d.registry d.project d.name d.tag)
described docker_daemon d = ok (full_name d.registry d.project d.name d.tag)
described dir d = ok d.directory
described oci d = ok d.directory
described t d = err invalid_type

without_transport-printed_name :
    (t : ImageType) (d : Destination)
    → (printed_name t d >>= λ name. ok (without_transport t name)) ≡ described t d
unfolding printed_name without_transport described
without_transport-printed_name docker d = ap ok (trim_prefix-append (transport docker) _)
without_transport-printed_name docker_daemon d =
    ap ok (trim_prefix-append (transport docker_daemon) _)
without_transport-printed_name dir d = ap ok (trim_prefix-append (transport dir) _)
without_transport-printed_name oci d = ap ok (trim_prefix-append (transport oci) _)
without_transport-printed_name undefined d = refl
without_transport-printed_name docker_archive d = refl
without_transport-printed_name hangar_archive d = refl

Result-cases :
    {E A B : Type 0} {C : Type 0} (r : Result E A) (f : A → Result E B) (g : B → Result E C)
    → ((r >>= f) >>= g) ≡ (r >>= λ a. f a >>= g)
Result-cases (ok a) f g = refl
Result-cases (err e) f g = refl

-- For every image type, the name without its transport that an initialised destination answers
-- is the full name of the image (for a registry or the daemon) or the directory (for a directory),
-- and initialisation fails for the other types.
reference_name_without_transport-init_reference_name :
    (d : Destination)
    → (init_reference_name d >>= λ named. ok (reference_name_without_transport named))
      ≡ described d.image_type d
unfolding init_reference_name reference_name_without_transport
reference_name_without_transport-init_reference_name d =
    Result-cases (printed_name d.image_type d) _ _ ∙ without_transport-printed_name d.image_type d

append_tag :
    (d : Destination) (t : ImageType)
    → transport t ++ full_name d.registry d.project d.name d.tag
      ≡ (transport t ++ (d.registry ++ slash ∷ (d.project ++ slash ∷ d.name))) ++ colon ∷ d.tag
unfolding full_name
append_tag d t = simp append_assoc

-- The name by digest of an image in a registry is its transport, registry, project and name, an
-- at sign and the digest: the tag is gone.
reference_name_digest-init_reference_name :
    (d : Destination) (digest : Text)
    → d.image_type ≡ docker
    → (init_reference_name d >>= λ named. ok (reference_name_digest named digest))
      ≡ ok (
          transport docker
          ++ (d.registry ++ slash ∷ (d.project ++ slash ∷ d.name))
          ++ b'@' ∷ digest)
unfolding init_reference_name printed_name reference_name_digest
reference_name_digest-init_reference_name d digest e =
    rw
      (
        e,
        append_tag d docker,
        trim_suffix-append
            (transport docker ++ (d.registry ++ slash ∷ (d.project ++ slash ∷ d.name)))
            (colon ∷ d.tag) (cons-ne-nil colon d.tag),
      )
      (simp append_assoc)
