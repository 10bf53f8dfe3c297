-- ===== src/Storage/Manifests/Stored.antt =====
-- Which manifests are stored, and what a repository knows of them afterwards.
use container_registry.Prelude.{
  ℕ, Bool, true, false, Result, ok, err, List, ◌∷◌, [], Option, some, none, ◌≡◌, ◌≢◌, ◌↔◌, ◌⊎◌, inl,
  inr, refl, sym, ap, ◌∙◌, All, In,
}
use container_registry.Prelude.Bytes.{Bytes}
use container_registry.Offline.Tags.{Digest}
use container_registry.Vacuum.{DigestText}
use container_registry.Storage.Paths.{DigestParts, manifest_revision_link}
use container_registry.Storage.Paths.Plain.{IsName}
use container_registry.Storage.Driver.{Driver}
use container_registry.Storage.Stores.{
  driver_error, invalid_digest, repository_unknown, tag_unknown, blob_unknown, unsupported,
  over_limit, StoreError, Descriptor, put_linked, blob_link_path, manifest_revision_link_path,
}
use container_registry.Storage.Stores.Stored.{put_linked-described}
use container_registry.Storage.Validation.{
  Reference, ReferenceError, manifest_blob_unknown, ManifestError, unverified, unrecognized_version,
  check_schema2, check_oci, check_listed, validate_with,
}
use container_registry.Storage.Validation.Exact.{
  IsProvided, IsProvidedOci, check_schema2-IsProvided, check_oci-IsProvidedOci, check_listed-none,
}
use container_registry.Storage.Validation.Reported.{
  validate_with-none, validate_with-version, validate_with-references,
}
use container_registry.Storage.Formats.{
  AnyManifest, signed, schema2, oci, list_of, other, ServiceError, invalid, image_references,
  index_references,
}
use container_registry.Storage.Manifests.{
  ManifestStore, SignedHandler, manifest_exists, lookups, is_described, revision_of, put_verified,
  put_manifest, verify_schema2, verify_oci, verify_list,
}

-- `Payload` and `References` of a manifest that is verified, and its version.
abbrev pub is_verifiable : AnyManifest → Bool
is_verifiable (signed c) = false
is_verifiable (schema2 x) = true
is_verifiable (oci x) = true
is_verifiable (list_of x) = true
is_verifiable other = false

unfoldable pub payload : AnyManifest → Bytes
payload (signed c) = c
payload (schema2 x) = x.canonical
payload (oci x) = x.canonical
payload (list_of x) = x.canonical
payload other = []

unfoldable pub references_of : AnyManifest → List Reference
references_of (signed c) = []
references_of (schema2 x) = image_references x.fields
references_of (oci x) = image_references x.fields
references_of (list_of x) = index_references x.fields
references_of other = []

abbrev pub version_of : AnyManifest → ℕ
version_of (signed c) = 1
version_of (schema2 x) = x.fields.schema_version
version_of (oci x) = x.fields.schema_version
version_of (list_of x) = x.fields.schema_version
version_of other = 0

All-iff :
    {P Q : Reference → Type 0}
    → ((r : Reference) → P r ↔ Q r)
    → (rs : List Reference) → All P rs ↔ All Q rs
All-iff h [] = (λ a. tt, λ a. tt)
All-iff h (r ∷ rs) =
    (λ a. ((h r).0 a.0, (All-iff h rs).0 a.1), λ a. ((h r).1 a.0, (All-iff h rs).1 a.1))

module _ (t : DigestText) (p : DigestParts t) (v : Driver) (m : ManifestStore) where
  -- What a manifest needs of a reference, on a disk.
  abbrev pub IsProvidedFor : AnyManifest → v.Disk → Reference → Type 0
  IsProvidedFor (signed c) s r = Unit
  IsProvidedFor (schema2 x) s r = IsProvided m.urls (lookups t p v m s) r
  IsProvidedFor (oci x) s r = IsProvidedOci m.oci_types m.urls (lookups t p v m s) r
  IsProvidedFor (list_of x) s r = manifest_exists t p v m r.digest s ≡ ok true
  IsProvidedFor other s r = Unit

  -- A manifest of version 2 whose references are provided, unless they are not looked at.
  abbrev pub IsVerified : AnyManifest → v.Disk → Type 0
  IsVerified x s =
      (version_of x ≡ 2)
      × ((m.skip_dependency_verification ≡ true) ⊎ All (IsProvidedFor x s) (references_of x))

  abbrev check_of : AnyManifest → v.Disk → Reference → Option ReferenceError
  check_of (signed c) s r = none
  check_of (schema2 x) s r = check_schema2 m.urls (lookups t p v m s) r
  check_of (oci x) s r = check_oci m.oci_types m.urls (lookups t p v m s) r
  check_of (list_of x) s r = check_listed (lookups t p v m s) r
  check_of other s r = none

  abbrev pub verified : AnyManifest → v.Disk → Option ManifestError
  verified x s =
      validate_with (check_of x s) (version_of x) m.skip_dependency_verification (references_of x)

  check-IsProvidedFor :
      (x : AnyManifest) (s : v.Disk) (r : Reference) → (check_of x s r ≡ none) ↔ IsProvidedFor x s r
  check-IsProvidedFor (signed c) s r = (λ h. tt, λ h. refl)
  check-IsProvidedFor (schema2 x) s r = check_schema2-IsProvided m.urls (lookups t p v m s) r
  check-IsProvidedFor (oci x) s r = check_oci-IsProvidedOci m.oci_types m.urls (lookups t p v m s) r
  check-IsProvidedFor (list_of x) s r = check_listed-none (lookups t p v m s) r
  check-IsProvidedFor other s r = (λ h. tt, λ h. refl)

  pub put_is_verified :
      (h : SignedHandler v.Disk) (x : AnyManifest) (s : v.Disk)
      → is_verifiable x ≡ true
      → put_manifest t p v m h x s ≡ put_verified t p v m (verified x s) (payload x) s
  unfolding put_manifest verify_schema2 verify_oci verify_list payload references_of
  put_is_verified h (signed c) s e = cc e
  put_is_verified h (schema2 x) s e = refl
  put_is_verified h (oci x) s e = refl
  put_is_verified h (list_of x) s e = refl
  put_is_verified h other s e = cc e

  pub verified-IsVerified : (x : AnyManifest) (s : v.Disk) → (verified x s ≡ none) ↔ IsVerified x s
  verified-IsVerified x s =
      let base =
        validate_with-none (check_of x s) (version_of x) m.skip_dependency_verification
          (references_of x) in
      let all = All-iff (check-IsProvidedFor x s) (references_of x) in
      (
        λ h. ((base.0 h).0, elim (base.0 h).1 [ inl e ↦ inl e | inr a ↦ inr (all.0 a) ]),
        λ w. base.1 (w.0, elim w.1 [ inl e ↦ inl e | inr a ↦ inr (all.1 a) ]),
      )

  pub revision-ok :
      (w : Result StoreError Descriptor × v.Disk) {d : Digest}
      → (revision_of t p v m w).0 ≡ ok d
      → (desc : Descriptor) × (w.0 ≡ ok desc)
        × (desc.digest ≡ d)
        × ((revision_of t p v m w).1 ≡ w.1)
  revision-ok (ok desc, s) h = (desc, refl, cc h, refl)
  revision-ok (err e, s) h = cc h

  pub described-ok :
      (r : Result StoreError Descriptor)
      → is_described t p v m r ≡ ok true
      → (x : Descriptor) × (r ≡ ok x)
  described-ok (ok x) h = (x, refl)
  described-ok (err blob_unknown) h = cc h
  described-ok (err (driver_error e)) h = cc h
  described-ok (err invalid_digest) h = cc h
  described-ok (err repository_unknown) h = cc h
  described-ok (err tag_unknown) h = cc h
  described-ok (err unsupported) h = cc h
  described-ok (err over_limit) h = cc h

  -- A manifest whose verification passes is known by its revision once it is put.
  pub put_verified-exists :
      (e : Option ManifestError) (c : Bytes) (s : v.Disk) (d : Digest)
      → IsName m.name
      → (put_verified t p v m e c s).0 ≡ ok d
      → (e ≡ none)
        × (d ≡ p.from_bytes c)
        × (manifest_exists t p v m d (put_verified t p v m e c s).1 ≡ ok true)
  unfolding put_verified manifest_exists
  put_verified-exists (some e) c s d hn h = cc h
  put_verified-exists none c s d hn h =
      let f = manifest_revision_link_path t p v in
      let w = put_linked t p v f m.name c s in
      let (desc, put, same, after) = revision-ok w h in
      let (named, known) =
        put_linked-described t p v f (blob_link_path t p v ∷ [])
          (manifest_revision_link m.name (p.from_bytes c)) m.name c s desc
          (record { proper = (hn, p.from_bytes-valid c); formed = refl; among = refl }) put in
      (refl, sym same ∙ named, rw (sym same ∙ named, after) (ap (is_described t p v m) known))

  -- A manifest that is put without an error was verified; its revision is the digest of its content
  -- and exists from then on.
  pub put_manifest-IsVerified :
      (h : SignedHandler v.Disk) (x : AnyManifest) (s : v.Disk) (d : Digest)
      → IsName m.name
      → is_verifiable x ≡ true
      → (put_manifest t p v m h x s).0 ≡ ok d
      → IsVerified x s
        × (d ≡ p.from_bytes (payload x))
        × (manifest_exists t p v m d (put_manifest t p v m h x s).1 ≡ ok true)
  put_manifest-IsVerified h x s d hn e put =
      let is = put_is_verified h x s e in
      let (passed, named, known) =
        put_verified-exists (verified x s) (payload x) s d hn (ap (λ w. w.0) (sym is) ∙ put) in
      (
        (verified-IsVerified x s).0 passed,
        named,
        ap (λ (w : Result ServiceError Digest × v.Disk). manifest_exists t p v m d w.1) is ∙ known,
      )

  refused :
      (e : Option ManifestError) (why : ManifestError) (c : Bytes) (s : v.Disk)
      → e ≡ some why
      → put_verified t p v m e c s ≡ (err (invalid why), s)
  unfolding put_verified
  refused none why c s h = cc h
  refused (some e) why c s h = let same : e ≡ why = cc h in ap (λ why. (err (invalid why), s)) same

  -- A manifest that is not verified is refused and leaves the disk as it is: for its version, if that
  -- is not 2, and else for its references, and then the error names the digest of each that is not
  -- provided.
  pub put_manifest-refuses :
      (h : SignedHandler v.Disk) (x : AnyManifest) (s : v.Disk)
      → is_verifiable x ≡ true
      → ¬ IsVerified x s
      → (version_of x ≢ 2
          → put_manifest t p v m h x s ≡ (err (invalid (unrecognized_version (version_of x))), s))
        × (version_of x ≡ 2
            → (errors : List ReferenceError) × (put_manifest t p v m h x s
                ≡ (err (invalid (unverified errors)), s))
              × ((r : Reference)
                  → In r (references_of x)
                  → ¬ IsProvidedFor x s r
                  → In (manifest_blob_unknown r.digest) errors))
  put_manifest-refuses h x s e n =
      let is = put_is_verified h x s e in
      let skip = m.skip_dependency_verification in
      (
        λ other_version.
            is
            ∙ refused (verified x s) (unrecognized_version (version_of x)) (payload x) s (
                validate_with-version (check_of x s) (version_of x) skip (references_of x)
                  other_version),
        λ two.
            let (errors, why, names) =
              validate_with-references (check_of x s) (version_of x) skip (references_of x) two
                (λ passed. n ((verified-IsVerified x s).0 passed)) in
            (
              errors,
              is ∙ refused (verified x s) (unverified errors) (payload x) s why,
              λ r i missing. names r i (λ passed. missing ((check-IsProvidedFor x s r).0 passed)),
            ),
      )
