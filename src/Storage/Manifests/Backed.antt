-- ===== src/Storage/Manifests/Backed.antt =====
-- What lies behind the references of a manifest that is stored: blobs that the repository's links
-- lead to, said without the lookups of the validators.
use container_registry.Prelude.{
  true, false, ok, List, ◌∷◌, [], ◌≡◌, ◌≢◌, ◌⊎◌, inl, inr, refl, sym, ap, ◌∙◌, All, In, arith,
  length, Bool-cases,
}
use container_registry.Prelude.Bytes.{bytes_eq}
use container_registry.Prelude.Sets.{contains, In-of_contains}
use container_registry.Offline.Tags.{Digest}
use container_registry.Vacuum.{DigestText}
use container_registry.Storage.Paths.{DigestParts}
use container_registry.Storage.Paths.Plain.{IsName}
use container_registry.Storage.Driver.{Driver}
use container_registry.Storage.Stores.{
  Descriptor, LinkPath, stat_linked, blob_link_path, manifest_revision_link_path,
}
use container_registry.Storage.Validation.{
  Reference, foreign_layer, schema2_manifest, schema1_manifest, is_manifest2,
}
use container_registry.Storage.Validation.Urls.{IsWebUrl}
use container_registry.Storage.Validation.Exact.{IsProvided}
use container_registry.Storage.Formats.{AnyManifest, signed, schema2, oci, list_of, other}
use container_registry.Storage.Manifests.{
  ManifestStore, SignedHandler, manifest_exists, manifest_link_paths, put_manifest, lookups,
}
use container_registry.Storage.Manifests.Stored.{
  is_verifiable, payload, references_of, version_of, IsProvidedFor, described-ok,
  put_manifest-IsVerified,
}

module _ (t : DigestText) (p : DigestParts t) (v : Driver) (m : ManifestStore) where
  -- One of the links leads to a blob that the store of all blobs describes.
  abbrev pub IsLinkedBy : List LinkPath → v.Disk → Digest → Type 0
  IsLinkedBy fs s d = (desc : Descriptor) × (stat_linked t p v fs m.name d s ≡ ok desc)

  abbrev pub IsLayer : v.Disk → Digest → Type 0
  IsLayer = IsLinkedBy (blob_link_path t p v ∷ [])

  -- A manifest may also be linked as a layer.
  abbrev pub IsManifest : v.Disk → Digest → Type 0
  IsManifest = IsLinkedBy (manifest_revision_link_path t p v ∷ blob_link_path t p v ∷ [])

  -- A reference of a schema 2 manifest: a foreign layer has URLs of the web, any other reference
  -- without URLs is a layer of the repository, and a manifest with URLs is one of the repository.
  -- Of a reference of another media type that has URLs nothing is asked.
  pub record IsBacked2 (s : v.Disk) (r : Reference) : Type 0 where
    pub foreign : r.media_type ≡ foreign_layer → (r.urls ≢ []) × All (IsWebUrl m.urls) r.urls
    pub layer : r.media_type ≢ foreign_layer → r.urls ≡ [] → IsLayer s r.digest
    pub manifest :
        (r.media_type ≡ schema2_manifest) ⊎ (r.media_type ≡ schema1_manifest)
        → r.urls ≢ []
        → IsManifest s r.digest

  -- A reference of an OCI manifest: one without URLs is a layer of the repository, the URLs of a
  -- layer's media type are of the web, and a manifest with URLs is one of the repository. Of a
  -- reference of another media type that has URLs nothing is asked.
  pub record IsBackedOci (s : v.Disk) (r : Reference) : Type 0 where
    pub layer : r.urls ≡ [] → IsLayer s r.digest
    pub urls : In r.media_type m.oci_types.layers → All (IsWebUrl m.urls) r.urls
    pub manifest :
        r.media_type ≡ m.oci_types.image_manifest
        → ¬ In r.media_type m.oci_types.layers
        → r.urls ≢ []
        → IsManifest s r.digest

  abbrev pub IsBacked : AnyManifest → v.Disk → Reference → Type 0
  IsBacked (signed c) s r = Unit
  IsBacked (schema2 x) s r = IsBacked2 s r
  IsBacked (oci x) s r = IsBackedOci s r
  IsBacked (list_of x) s r = IsManifest s r.digest
  IsBacked other s r = Unit

  exists-IsManifest :
      (d : Digest) (s : v.Disk) → manifest_exists t p v m d s ≡ ok true → IsManifest s d
  unfolding manifest_exists
  exists-IsManifest d s h =
      described-ok t p v m (stat_linked t p v (manifest_link_paths t p v m) m.name d s) h

  IsProvided-IsBacked2 :
      (s : v.Disk) (r : Reference) → IsProvided m.urls (lookups t p v m s) r → IsBacked2 s r
  IsProvided-IsBacked2 s r h = record {
    foreign = h.foreign;
    layer = h.blob;
    manifest =
        λ typed n. exists-IsManifest r.digest s (h.manifest (not_foreign typed) (is_typed typed) n);
  }
    where
      not_foreign :
          (r.media_type ≡ schema2_manifest) ⊎ (r.media_type ≡ schema1_manifest)
          → r.media_type ≢ foreign_layer
      not_foreign (inl e) f = omega (arith, ap length (sym e ∙ f))
      not_foreign (inr e) f = omega (arith, ap length (sym e ∙ f))

      is_typed :
          (r.media_type ≡ schema2_manifest) ⊎ (r.media_type ≡ schema1_manifest)
          → is_manifest2 r.media_type ≡ true
      is_typed (inl e) = rw e refl
      is_typed (inr e) = rw e refl

  provided-IsBacked :
      (x : AnyManifest) (s : v.Disk) (r : Reference) → IsProvidedFor t p v m x s r → IsBacked x s r
  provided-IsBacked (signed c) s r h = tt
  provided-IsBacked (schema2 x) s r h = IsProvided-IsBacked2 s r h
  provided-IsBacked (oci x) s r h = record {
    layer = h.blob;
    urls = h.layer;
    manifest =
        λ typed n some_urls. exists-IsManifest r.digest s (h.manifest (not_in n) typed some_urls);
  }
    where
      not_in :
          ¬ In r.media_type m.oci_types.layers → contains m.oci_types.layers r.media_type ≡ false
      not_in n = elim (Bool-cases (contains m.oci_types.layers r.media_type)) [
        | inl c ↦ absurd (n (In-of_contains r.media_type m.oci_types.layers c))
        | inr c ↦ c
      ]
  provided-IsBacked (list_of x) s r h = exists-IsManifest r.digest s h
  provided-IsBacked other s r h = tt

  all-IsBacked :
      (x : AnyManifest) (s : v.Disk) (rs : List Reference)
      → All (IsProvidedFor t p v m x s) rs
      → All (IsBacked x s) rs
  all-IsBacked x s [] h = tt
  all-IsBacked x s (r ∷ rs) h = (provided-IsBacked x s r h.0, all-IsBacked x s rs h.1)

  -- A schema 2 or OCI manifest or a manifest list that is put without an error, into a repository with
  -- a proper name, was of version 2 and, unless references are not looked at, each reference was
  -- backed: one without URLs by a layer that the repository's links lead to, but for foreign layers,
  -- which have URLs of the web, as do OCI layers with URLs; one of a manifest with URLs, and each of a
  -- list, by a manifest or layer that the links lead to; of others with URLs nothing is said. Its
  -- revision is the digest of its content, and the links lead to it from then on.
  pub put_manifest-IsBacked :
      (h : SignedHandler v.Disk) (x : AnyManifest) (s : v.Disk) (d : Digest)
      → IsName m.name
      → is_verifiable x ≡ true
      → (put_manifest t p v m h x s).0 ≡ ok d
      → (version_of x ≡ 2)
        × ((m.skip_dependency_verification ≡ true) ⊎ All (IsBacked x s) (references_of x))
        × (d ≡ p.from_bytes (payload x))
        × IsManifest (put_manifest t p v m h x s).1 d
  put_manifest-IsBacked h x s d hn e put =
      let ((version, checked), named, known) = put_manifest-IsVerified t p v m h x s d hn e put in
      (
        version,
        elim checked [
          | inl skips ↦ inl skips
          | inr all ↦ inr (all-IsBacked x s (references_of x) all)
        ],
        named,
        exists-IsManifest d (put_manifest t p v m h x s).1 known,
      )
