-- ===== src/Storage/Manifests/Fetched.antt =====
-- A manifest that is put is got back, and the content for which `Get` panics.
use container_registry.Prelude.{
  ℕ, nat_eq, true, Result, ok, err, ◌∷◌, [], Option, some, none, ◌≡◌, refl, sym, ap, ◌∙◌,
}
use container_registry.Prelude.Bytes.{Bytes, bytes_eq}
use container_registry.Offline.Tags.{Digest}
use container_registry.Vacuum.{DigestText}
use container_registry.Storage.Paths.{DigestParts, manifest_revision_link}
use container_registry.Storage.Paths.Plain.{IsName}
use container_registry.Storage.Driver.{Driver}
use container_registry.Storage.Stores.{
  limited, get_linked, put_linked, blob_link_path, manifest_revision_link_path,
}
use container_registry.Storage.Stores.Fetched.{IsHeld, put_linked-get}
use container_registry.Storage.Validation.{ManifestError}
use container_registry.Storage.Formats.{
  decoded_list, ImageManifest, as_oci, AnyManifest, oci, ServiceError, panicked, unmarshal_oci,
  unmarshal_list,
}
use container_registry.Storage.Manifests.{
  guess, ManifestStore, SignedHandler, manifest_link_paths, unmarshal_by_type, unmarshal_content,
  with_content, put_verified, put_manifest, get_manifest,
}
use container_registry.Storage.Manifests.Stored.{
  is_verifiable, payload, version_of, put_is_verified, put_verified-exists, verified, revision-ok,
  put_manifest-IsVerified,
}
use container_registry.Storage.Manifests.Marshalled.{
  AreApart, IsMarshalled, media_type_of, unmarshalled, versioned, by_guess,
}

module _ (t : DigestText) (p : DigestParts t) (v : Driver) (m : ManifestStore) where
  put_verified-get :
      (e : Option ManifestError) (c : Bytes) (s : v.Disk) (d : Digest)
      → IsName m.name
      → IsHeld t p v (p.from_bytes c) c s
      → limited c ≡ ok c
      → (put_verified t p v m e c s).0 ≡ ok d
      → get_linked t p v
          (manifest_link_paths t p v m)
          m.name
          (p.from_bytes c)
          (put_verified t p v m e c s).1
        ≡ ok c
  unfolding put_verified
  put_verified-get (some e) c s d hn held small h = cc h
  put_verified-get none c s d hn held small h =
      let f = manifest_revision_link_path t p v in
      let (desc, put, same, after) = revision-ok t p v m (put_linked t p v f m.name c s) h in
      rw after (
        put_linked-get t p v f (blob_link_path t p v ∷ [])
          (manifest_revision_link m.name (p.from_bytes c)) m.name c s desc
          (record { proper = (hn, p.from_bytes-valid c); formed = refl; among = refl }) held small
          put)

  -- After a put, `Get` reads the content of the manifest.
  get_after_put :
      (h : SignedHandler v.Disk) (x : AnyManifest) (s : v.Disk) (d : Digest)
      → IsName m.name
      → is_verifiable x ≡ true
      → IsHeld t p v (p.from_bytes (payload x)) (payload x) s
      → limited (payload x) ≡ ok (payload x)
      → (put_manifest t p v m h x s).0 ≡ ok d
      → get_manifest t p v m h d (put_manifest t p v m h x s).1
        ≡ with_content t p v m h d (ok (payload x))
  unfolding get_manifest
  get_after_put h x s d hn e held small put =
      let is = put_is_verified t p v m h x s e in
      let put' = ap (λ (w : Result ServiceError Digest × v.Disk). w.0) (sym is) ∙ put in
      let (passed, named, known) =
        put_verified-exists t p v m (verified t p v m x s) (payload x) s d hn put' in
      let read : get_linked t p v (manifest_link_paths t p v m) m.name d
            (put_verified t p v m (verified t p v m x s) (payload x) s).1
          ≡ ok (payload x) =
        rw named (put_verified-get (verified t p v m x s) (payload x) s d hn held small put') in
      ap
        (λ (w : Result ServiceError Digest × v.Disk).
          with_content t p v m h d (get_linked t p v (manifest_link_paths t p v m) m.name d w.1))
        is
      ∙ ap (with_content t p v m h d) read

  by_version :
      (h : SignedHandler v.Disk) (d : Digest) (c : Bytes) (version : ℕ) (media_type : Bytes)
      → version ≡ 2
      → m.json.versioned c ≡ some (version, media_type)
      → with_content t p v m h d (ok c) ≡ unmarshal_by_type t p v m media_type c
  by_version h d c version media_type two e =
      ap (unmarshal_content t p v m h d c) (e ∙ ap (λ n. some (n, media_type)) two)

  -- A manifest that is put without an error is got back by its revision, if its content decodes to
  -- it and says what it is, no other content is held under its digest, and the content is within
  -- the limit of reading.
  pub get-put_manifest :
      (h : SignedHandler v.Disk) (x : AnyManifest) (s : v.Disk) (d : Digest)
      → IsName m.name
      → is_verifiable x ≡ true
      → AreApart m.oci_types
      → IsMarshalled m.oci_types m.json x
      → IsHeld t p v (p.from_bytes (payload x)) (payload x) s
      → limited (payload x) ≡ ok (payload x)
      → (put_manifest t p v m h x s).0 ≡ ok d
      → get_manifest t p v m h d (put_manifest t p v m h x s).1 ≡ ok x
  get-put_manifest h x s d hn e apart is held small put =
      let (checked, named, known) = put_manifest-IsVerified t p v m h x s d hn e put in
      get_after_put h x s d hn e held small put
      ∙ (by_version h d (payload x) (version_of x) (media_type_of x) checked.0
            (versioned t p v m x e is)
          ∙ unmarshalled t p v m x apart e is)

  -- An OCI image without a media type, whose content does not decode as an index, is stored like
  -- any other, and getting it panics.
  pub get-put_panics :
      (h : SignedHandler v.Disk) (x : ImageManifest) (s : v.Disk) (d : Digest)
      → IsName m.name
      → AreApart m.oci_types
      → m.json.oci_image x.canonical ≡ some x.fields
      → x.fields.media_type ≡ []
      → m.json.index x.canonical ≡ none
      → IsHeld t p v (p.from_bytes x.canonical) x.canonical s
      → limited x.canonical ≡ ok x.canonical
      → (put_manifest t p v m h (oci x) s).0 ≡ ok d
      → get_manifest t p v m h d (put_manifest t p v m h (oci x) s).1 ≡ err panicked
  unfolding payload unmarshal_list
  get-put_panics h x s d hn apart decoded untyped no_index held small put =
      let (checked, named, known) = put_manifest-IsVerified t p v m h (oci x) s d hn refl put in
      get_after_put h (oci x) s d hn refl held small put
      ∙ (by_version h d x.canonical x.fields.schema_version x.fields.media_type checked.0
            (m.json.versioned-oci x.canonical x.fields decoded)
          ∙ (ap (λ mt. unmarshal_by_type t p v m mt x.canonical) untyped
              ∙ (by_guess t p v m apart x.canonical
                  ∙ ap
                      (λ o.
                        guess (decoded_list x.canonical o)
                          (as_oci (unmarshal_oci m.oci_types m.json x.canonical)))
                      no_index)))
