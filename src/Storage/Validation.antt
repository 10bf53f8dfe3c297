-- ===== src/Storage/Validation.antt =====
-- registry/storage/validation: the checks of a manifest before it is stored. Parsing a URL, the two
-- regular expressions and the media types of the OCI package are parameters.
pub mod Urls
pub mod Exact
pub mod Reported
use container_registry.Prelude.{
  ℕ, ◌==◌, nat_eq, Bool, true, false, not, ◌&&◌, ◌||◌, if◌then◌else◌, Result, ok, err, List, ◌∷◌,
  [], ◌++◌, Option, some, none,
}
use container_registry.Prelude.Bytes.{Bytes, codes, bytes_eq}
use container_registry.Prelude.Sets.{contains}
use container_registry.Offline.Tags.{Digest}
use container_registry.Storage.Stores.{StoreError, blob_unknown, Descriptor}

-- the descriptor of a reference, by the fields that are checked
pub record Reference : Type 0 where
  pub media_type : Bytes
  pub digest : Digest
  pub urls : List Bytes

-- `url.Parse` by its scheme and fragment, and `ManifestURLs`
pub record ManifestUrls : Type 0 where
  pub parse : Bytes → Option (Bytes × Bytes)
  pub allow : Option (Bytes → Bool)
  pub deny : Option (Bytes → Bool)

-- `MediaTypeImageManifest`, `MediaTypeImageIndex` and the four layer types of the OCI package
pub record OciTypes : Type 0 where
  pub image_manifest : Bytes
  pub image_index : Bytes
  pub layers : List Bytes

-- What a validator asks: `ManifestExister` and `BlobStatter`.
pub record Lookups : Type 0 where
  pub exists : Digest → Result StoreError Bool
  pub stat : Digest → Result StoreError Descriptor

pub data ReferenceError : Type 0 where
  store_error : StoreError → ReferenceError
  missing_url invalid_url : ReferenceError
  manifest_blob_unknown : Digest → ReferenceError

-- what `Validate` returns for an error
pub data ManifestError : Type 0 where
  unrecognized_version : ℕ → ManifestError
  unverified : List ReferenceError → ManifestError

abbrev pub foreign_layer : Bytes
foreign_layer = codes "application/vnd.docker.image.rootfs.foreign.diff.tar.gzip"

abbrev pub schema2_manifest : Bytes
schema2_manifest = codes "application/vnd.docker.distribution.manifest.v2+json"

abbrev pub schema1_manifest : Bytes
schema1_manifest = codes "application/vnd.docker.distribution.manifest.v1+json"

abbrev pub refused_by : Option (Bytes → Bool) → Bytes → Bool
refused_by none s = false
refused_by (some matches) s = matches s

abbrev pub not_allowed : Option (Bytes → Bool) → Bytes → Bool
not_allowed none s = false
not_allowed (some matches) s = not (matches s)

abbrev pub is_web : Bytes → Bool
is_web scheme = scheme == codes "http" || scheme == codes "https"

abbrev pub valid_parsed : ManifestUrls → Bytes → Option (Bytes × Bytes) → Bool
valid_parsed u s none = false
valid_parsed u s (some (scheme, fragment)) =
    is_web scheme && (fragment == [] && not (not_allowed u.allow s || refused_by u.deny s))

-- `validURL`
unfoldable pub valid_url : ManifestUrls → Bytes → Bool
valid_url u s = valid_parsed u s (u.parse s)

-- the loop over the URLs of a layer: `e`, or the error of the first that is not valid
unfoldable pub url_error : ManifestUrls → List Bytes → Option ReferenceError → Option ReferenceError
url_error u [] e = e
url_error u (s ∷ rest) e = if valid_url u s then url_error u rest e else some invalid_url

abbrev pub stat_error : Result StoreError Descriptor → Option ReferenceError
stat_error (ok desc) = none
stat_error (err e) = some (store_error e)

-- Where there are no URLs, the blob store decides; otherwise the error stays.
abbrev pub or_stat : Lookups → Digest → List Bytes → Option ReferenceError → Option ReferenceError
or_stat l d [] e = stat_error (l.stat d)
or_stat l d (s ∷ rest) e = e

abbrev pub needs_url : List Bytes → Option ReferenceError
needs_url [] = some missing_url
needs_url (s ∷ rest) = none

-- a failed lookup is coerced to an unknown blob
abbrev pub coerced : Result StoreError Bool → Option ReferenceError
coerced (ok true) = none
coerced (ok false) = some (store_error blob_unknown)
coerced (err e) = some (store_error blob_unknown)

abbrev pub is_manifest2 : Bytes → Bool
is_manifest2 m = m == schema2_manifest || m == schema1_manifest

-- the `switch` of `Schema2Validator.Validate`
unfoldable pub check_schema2 : ManifestUrls → Lookups → Reference → Option ReferenceError
check_schema2 u l r =
    if r.media_type == foreign_layer
    then url_error u r.urls (needs_url r.urls)
    else if is_manifest2 r.media_type
    then or_stat l r.digest r.urls (coerced (l.exists r.digest))
    else or_stat l r.digest r.urls none

abbrev pub unless_error : Option ReferenceError → Option ReferenceError → Option ReferenceError
unless_error none next = next
unless_error (some e) next = some e

-- the `switch` of `OCIValidator.Validate`
unfoldable pub check_oci : OciTypes → ManifestUrls → Lookups → Reference → Option ReferenceError
check_oci o u l r =
    if contains o.layers r.media_type
    then unless_error (url_error u r.urls none) (or_stat l r.digest r.urls none)
    else if r.media_type == o.image_manifest
    then or_stat l r.digest r.urls (coerced (l.exists r.digest))
    else or_stat l r.digest r.urls none

abbrev pub exists_error : Result StoreError Bool → Option ReferenceError
exists_error (ok true) = none
exists_error (ok false) = some (store_error blob_unknown)
exists_error (err e) = some (store_error e)

-- the lookup of `ManifestListValidator.Validate`
unfoldable pub check_listed : Lookups → Reference → Option ReferenceError
check_listed l r = exists_error (l.exists r.digest)

-- An error is listed before the digest, unless it is that of an unknown blob.
abbrev pub report : Digest → Option ReferenceError → List ReferenceError
report d none = []
report d (some (store_error blob_unknown)) = manifest_blob_unknown d ∷ []
report d (some e) = e ∷ manifest_blob_unknown d ∷ []

-- the loop over the references
unfoldable pub collect : (Reference → Option ReferenceError) → List Reference → List ReferenceError
collect check [] = []
collect check (r ∷ rs) = report r.digest (check r) ++ collect check rs

abbrev pub errors_or_none : List ReferenceError → Option ManifestError
errors_or_none [] = none
errors_or_none (e ∷ es) = some (unverified (e ∷ es))

-- the frame of the three `Validate`: the version, then the references unless they are skipped
unfoldable pub validate_with :
    (Reference → Option ReferenceError) → ℕ → Bool → List Reference → Option ManifestError
validate_with check version skip refs =
    if not (version == 2)
    then some (unrecognized_version version)
    else if skip
    then none
    else errors_or_none (collect check refs)
