-- ===== src/Storage/Formats.antt =====
-- manifest/schema2, manifest/ocischema and manifest/manifestlist: the structures of manifests, what
-- they refer to, and their decoding, where JSON is a parameter.
use container_registry.Prelude.{
  ℕ, ◌==◌, nat_eq, not, ◌&&◌, if◌then◌else◌, Result, ok, err, List, ◌∷◌, [], Option, some, none,
  ◌≡◌,
}
use container_registry.Prelude.Bytes.{Bytes, codes, bytes_eq}
use container_registry.Storage.Stores.{StoreError}
use container_registry.Storage.Validation.{Reference, OciTypes, ManifestError, schema2_manifest}

-- `Manifest` of schema 2 and of OCI, by the fields that are looked at
pub record ImageFields : Type 0 where
  pub schema_version : ℕ
  pub media_type : Bytes
  pub config : Reference
  pub layers : List Reference

-- `ManifestList`, whose list may be nil
pub record ListFields : Type 0 where
  pub schema_version : ℕ
  pub media_type : Bytes
  pub manifests : Option (List Reference)

-- `DeserializedManifest` and `DeserializedManifestList`
pub record ImageManifest : Type 0 where
  pub fields : ImageFields
  pub canonical : Bytes

pub record ManifestList : Type 0 where
  pub fields : ListFields
  pub canonical : Bytes

-- `distribution.Manifest`, by the types that the store knows
pub data AnyManifest : Type 0 where
  signed : Bytes → AnyManifest
  schema2 oci : ImageManifest → AnyManifest
  list_of : ManifestList → AnyManifest
  other : AnyManifest

-- `json.Unmarshal` into the three structures. What is documented: the version and the media type of
-- an embedded structure are decoded as they are by themselves.
pub record Json : Type 0 where
  pub versioned : Bytes → Option (ℕ × Bytes)
  pub schema2_image : Bytes → Option ImageFields
  pub oci_image : Bytes → Option ImageFields
  pub index : Bytes → Option ListFields
  pub versioned-schema2 :
      (c : Bytes) (f : ImageFields)
      → schema2_image c ≡ some f
      → versioned c ≡ some (f.schema_version, f.media_type)
  pub versioned-oci :
      (c : Bytes) (f : ImageFields)
      → oci_image c ≡ some f
      → versioned c ≡ some (f.schema_version, f.media_type)
  pub versioned-index :
      (c : Bytes) (f : ListFields)
      → index c ≡ some f
      → versioned c ≡ some (f.schema_version, f.media_type)

pub data ServiceError : Type 0 where
  invalid : ManifestError → ServiceError
  store_failed : StoreError → ServiceError
  unrecognized_type unrecognized_content schema1_unsupported : ServiceError
  manifest_unknown_revision unmarshal_failed wrong_media_type : ServiceError
  unrecognized_schema : ℕ → ServiceError
  panicked : ServiceError

-- `References`
unfoldable pub image_references : ImageFields → List Reference
image_references f = f.config ∷ f.layers

abbrev pub or_empty : Option (List Reference) → List Reference
or_empty none = []
or_empty (some refs) = refs

unfoldable pub index_references : ListFields → List Reference
index_references f = or_empty f.manifests

abbrev pub manifest_list : Bytes
manifest_list = codes "application/vnd.docker.distribution.manifest.list.v2+json"

abbrev pub decoded_schema2 : Bytes → Option ImageFields → Result ServiceError ImageManifest
decoded_schema2 c none = err unmarshal_failed
decoded_schema2 c (some f) =
    if not (f.media_type == schema2_manifest)
    then err wrong_media_type
    else ok (record { fields = f; canonical = c })

abbrev pub decoded_oci : OciTypes → Bytes → Option ImageFields → Result ServiceError ImageManifest
decoded_oci o c none = err unmarshal_failed
decoded_oci o c (some f) =
    if not (f.media_type == []) && not (f.media_type == o.image_manifest)
    then err wrong_media_type
    else ok (record { fields = f; canonical = c })

abbrev pub decoded_list : Bytes → Option ListFields → Result ServiceError ManifestList
decoded_list c none = err unmarshal_failed
decoded_list c (some f) = ok (record { fields = f; canonical = c })

-- `UnmarshalJSON` of the three structures
unfoldable pub unmarshal_schema2 : Json → Bytes → Result ServiceError ImageManifest
unmarshal_schema2 j c = decoded_schema2 c (j.schema2_image c)

unfoldable pub unmarshal_oci : OciTypes → Json → Bytes → Result ServiceError ImageManifest
unmarshal_oci o j c = decoded_oci o c (j.oci_image c)

unfoldable pub unmarshal_list : Json → Bytes → Result ServiceError ManifestList
unmarshal_list j c = decoded_list c (j.index c)

abbrev pub as_schema2 : Result ServiceError ImageManifest → Result ServiceError AnyManifest
as_schema2 (ok m) = ok (schema2 m)
as_schema2 (err e) = err e

abbrev pub as_oci : Result ServiceError ImageManifest → Result ServiceError AnyManifest
as_oci (ok m) = ok (oci m)
as_oci (err e) = err e

abbrev pub as_list : Result ServiceError ManifestList → Result ServiceError AnyManifest
as_list (ok m) = ok (list_of m)
as_list (err e) = err e
