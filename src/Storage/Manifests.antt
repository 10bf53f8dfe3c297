-- ===== src/Storage/Manifests.antt =====
-- registry/storage/manifeststore.go and its handlers, over the linked blob store of a repository's
-- manifests. JSON decoding and the handler of signed manifests are parameters; no descriptor cache
-- stands before the blob store.
pub mod Stored
pub mod Marshalled
pub mod Fetched
pub mod Backed
pub mod Kept
pub mod Complete
use container_registry.Prelude.{
  ℕ, ◌==◌, nat_eq, Bool, true, false, not, ◌&&◌, ◌||◌, if◌then◌else◌, Result, ok, err, List, ◌∷◌,
  [], ◌++◌, Option, some, none, ◌≡◌,
}
use container_registry.Prelude.Bytes.{Bytes, codes, bytes_eq}
use container_registry.Offline.Tags.{Digest}
use container_registry.Vacuum.{DigestText}
use container_registry.Storage.Paths.{DigestParts}
use container_registry.Storage.Driver.{Driver}
use container_registry.Storage.Stores.{
  StoreError, blob_unknown, Descriptor, Written, LinkPath, stat_linked, get_linked, put_linked,
  delete_linked, blob_link_path, manifest_revision_link_path,
}
use container_registry.Storage.Validation.{
  Reference, ManifestUrls, OciTypes, Lookups, ManifestError, schema2_manifest, check_schema2,
  check_oci, check_listed, validate_with,
}
use container_registry.Storage.Formats.{
  AnyManifest, ImageFields, ImageManifest, Json, ListFields, ManifestList, ServiceError, as_list,
  as_oci, as_schema2, decoded_list, decoded_oci, decoded_schema2, image_references,
  index_references, invalid, list_of, manifest_list, manifest_unknown_revision, oci, or_empty,
  other, panicked, schema1_unsupported, schema2, signed, store_failed, unmarshal_failed,
  unmarshal_list, unmarshal_oci, unmarshal_schema2, unrecognized_content, unrecognized_schema,
  unrecognized_type, wrong_media_type,
}

-- the `manifestStore` of a repository
pub record ManifestStore : Type 0 where
  pub name : Bytes
  pub skip_dependency_verification : Bool
  pub urls : ManifestUrls
  pub oci_types : OciTypes
  pub json : Json

-- `ManifestHandler`, for signed manifests
pub record SignedHandler (Disk : Type 0) : Type 0 where
  pub unmarshal : Digest → Bytes → Result ServiceError AnyManifest
  pub put : Bytes → Bool → Disk → Result ServiceError Digest × Disk

-- `v1UnsupportedHandler`
unfoldable pub v1_unsupported : {Disk : Type 0} → Bool → SignedHandler Disk → SignedHandler Disk
v1_unsupported pulls_disabled inner = record {
  unmarshal = λ d c. if pulls_disabled then err schema1_unsupported else inner.unmarshal d c;
  put = λ c skip s. (err schema1_unsupported, s);
}

-- Content without a media type: an image index if it has a list, or else an image. The index is
-- asserted to be one before the error is looked at, which panics if there is none.
abbrev pub list_or_image :
    Option (List Reference)
    → ManifestList
    → Result ServiceError AnyManifest
    → Result ServiceError AnyManifest
list_or_image (some refs) m image = ok (list_of m)
list_or_image none m image = image

abbrev pub guess :
    Result ServiceError ManifestList
    → Result ServiceError AnyManifest
    → Result ServiceError AnyManifest
guess (err e) image = err panicked
guess (ok m) image = list_or_image m.fields.manifests m image

module _ (t : DigestText) (p : DigestParts t) (v : Driver) (m : ManifestStore) where
  -- `manifestLinkPathFns`
  abbrev pub manifest_link_paths : List LinkPath
  manifest_link_paths = manifest_revision_link_path t p v ∷ blob_link_path t p v ∷ []

  abbrev pub is_described : Result StoreError Descriptor → Result StoreError Bool
  is_described (ok desc) = ok true
  is_described (err blob_unknown) = ok false
  is_described (err e) = err e

  -- `Exists`
  unfoldable pub manifest_exists : Digest → v.Disk → Result StoreError Bool
  manifest_exists d s = is_described (stat_linked t p v manifest_link_paths m.name d s)

  -- what the validators ask of the repository
  abbrev pub lookups : v.Disk → Lookups
  lookups s = record {
    exists = λ d. manifest_exists d s;
    stat = λ d. stat_linked t p v (blob_link_path t p v ∷ []) m.name d s;
  }

  -- `verifyManifest` of the three handlers
  unfoldable pub verify_schema2 : ImageFields → v.Disk → Option ManifestError
  verify_schema2 f s =
      validate_with (check_schema2 m.urls (lookups s)) f.schema_version
        m.skip_dependency_verification (image_references f)

  unfoldable pub verify_oci : ImageFields → v.Disk → Option ManifestError
  verify_oci f s =
      validate_with (check_oci m.oci_types m.urls (lookups s)) f.schema_version
        m.skip_dependency_verification (image_references f)

  unfoldable pub verify_list : ListFields → v.Disk → Option ManifestError
  verify_list f s =
      validate_with (check_listed (lookups s)) f.schema_version m.skip_dependency_verification
        (index_references f)

  abbrev pub revision_of :
      Result StoreError Descriptor × v.Disk → Result ServiceError Digest × v.Disk
  revision_of (ok desc, s) = (ok desc.digest, s)
  revision_of (err e, s) = (err (store_failed e), s)

  -- `Put` of a handler, behind its verification
  unfoldable pub put_verified :
      Option ManifestError → Bytes → v.Disk → Result ServiceError Digest × v.Disk
  put_verified (some e) content s = (err (invalid e), s)
  put_verified none content s =
      revision_of (put_linked t p v (manifest_revision_link_path t p v) m.name content s)

  -- `Put`
  unfoldable pub put_manifest :
      SignedHandler v.Disk → AnyManifest → v.Disk → Result ServiceError Digest × v.Disk
  put_manifest h (signed c) s = h.put c m.skip_dependency_verification s
  put_manifest h (schema2 x) s = put_verified (verify_schema2 x.fields s) x.canonical s
  put_manifest h (oci x) s = put_verified (verify_oci x.fields s) x.canonical s
  put_manifest h (list_of x) s = put_verified (verify_list x.fields s) x.canonical s
  put_manifest h other s = (err unrecognized_type, s)

  -- the inner `switch` of `Get`, over the media type
  unfoldable pub unmarshal_by_type : Bytes → Bytes → Result ServiceError AnyManifest
  unmarshal_by_type media_type c =
      if media_type == schema2_manifest
      then as_schema2 (unmarshal_schema2 m.json c)
      else if media_type == m.oci_types.image_manifest
      then as_oci (unmarshal_oci m.oci_types m.json c)
      else if media_type == manifest_list || media_type == m.oci_types.image_index
      then as_list (unmarshal_list m.json c)
      else if media_type == []
      then guess (unmarshal_list m.json c) (as_oci (unmarshal_oci m.oci_types m.json c))
      else err unrecognized_content

  -- the outer `switch`, over the version
  abbrev pub unmarshal_content :
      SignedHandler v.Disk → Digest → Bytes → Option (ℕ × Bytes) → Result ServiceError AnyManifest
  unmarshal_content h d c none = err unmarshal_failed
  unmarshal_content h d c (some (version, media_type)) =
      if version == 1
      then h.unmarshal d c
      else if version == 2
      then unmarshal_by_type media_type c
      else err (unrecognized_schema version)

  abbrev pub with_content :
      SignedHandler v.Disk → Digest → Result StoreError Bytes → Result ServiceError AnyManifest
  with_content h d (err blob_unknown) = err manifest_unknown_revision
  with_content h d (err e) = err (store_failed e)
  with_content h d (ok c) = unmarshal_content h d c (m.json.versioned c)

  -- `Get`
  unfoldable pub get_manifest :
      SignedHandler v.Disk → Digest → v.Disk → Result ServiceError AnyManifest
  get_manifest h d s = with_content h d (get_linked t p v manifest_link_paths m.name d s)

  -- `Delete`
  unfoldable pub delete_manifest : Bool → Digest → v.Disk → Written v.Disk
  delete_manifest enabled d s = delete_linked t p v enabled manifest_link_paths m.name d s
