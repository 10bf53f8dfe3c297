-- ===== src/Tests/Manifests.antt =====
-- Manifests that are put into a repository with one blob.
use container_registry.Prelude.{
  ◌⊎◌, All, ◌==◌, ℕ, true, false, if◌then◌else◌, ok, err, List, [], ◌∷◌, Option, some, none,
  false≢true, ◌≡◌, ◌≢◌, refl, ap, arith, In, inl, inr, length,
}
use container_registry.Prelude.Bytes.{Bytes, codes, bytes_eq, is_prefix}
use container_registry.Prelude.Sets.{contains}
use container_registry.Offline.Tags.{Digest}
use container_registry.Storage.Join.{split, parts, resolve, join_slash, clean, path_join}
use container_registry.Storage.Paths.{path_for, digest_path_components}
use container_registry.Storage.Stores.{
  Descriptor, blob_unknown, link, readlink, stat_blob, put_blob, link_each, link_blob, find_target,
  stat_linked, put_linked, blob_link_path,
}
use container_registry.Storage.Validation.{
  Reference, ManifestUrls, OciTypes, ReferenceError, manifest_blob_unknown, unverified,
  unrecognized_version, schema2_manifest, foreign_layer, collect, check_schema2, check_oci,
  validate_with, url_error,
}
use container_registry.Storage.Formats.{
  AnyManifest, ImageFields, ListFields, ImageManifest, schema2, oci, Json, invalid,
  schema1_unsupported, panicked, image_references,
}
use container_registry.Storage.Manifests.{
  ManifestStore, SignedHandler, put_manifest, get_manifest, put_verified, verify_schema2,
  verify_oci,
}
use container_registry.Storage.Manifests.Stored.{
  version_of, payload, references_of, IsVerified, IsProvidedFor, put_manifest-refuses,
}
use container_registry.Storage.Manifests.Marshalled.{AreApart}
use container_registry.Storage.Manifests.Complete.{put_all, IsPut, IsComplete, put_all-IsComplete}
use container_registry.Storage.Manifests.Backed.{IsBacked, IsManifest, put_manifest-IsBacked}
use container_registry.Storage.Manifests.Fetched.{get-put_manifest, get-put_panics}
use container_registry.Tests.Registry.{first, second, known, known_parts, files}
use container_registry.Tests.Stores.{app, app-IsName, kept}

abbrev no_urls : ManifestUrls
no_urls = record { parse = λ s. none; allow = none; deny = none }

abbrev types : OciTypes
types = record { image_manifest = codes "m"; image_index = codes "ii"; layers = codes "l" ∷ [] }

types-AreApart : AreApart types
types-AreApart = record {
  manifest_named = λ e. cc e;
  index_named = λ e. cc e;
  manifest_apart = λ e. omega (arith, ap length e);
  index_apart = λ e. omega (arith, ap length e);
  list_apart = λ e. omega (arith, ap length e);
  types_apart = λ e. omega (arith, ap length e);
}

abbrev plain : Digest → Reference
plain d = record { media_type = codes "c"; digest = d; urls = [] }

abbrev image_with : Bytes → Digest → ImageFields
image_with media_type d = record {
  schema_version = 2;
  media_type = media_type;
  config = plain first;
  layers = plain d ∷ [];
}

abbrev image_of : Bytes → Option ImageFields
image_of c =
    if c == codes "mm"
    then some (image_with schema2_manifest first)
    else if c == codes "oo"
    then some (image_with [] first)
    else none

abbrev version_and_type : Option ImageFields → Option (ℕ × Bytes)
version_and_type none = none
version_and_type (some f) = some (f.schema_version, f.media_type)

abbrev no_index : Bytes → Option ListFields
no_index c = none

indexed :
    (c : Bytes) (f : ListFields)
    → no_index c ≡ some f
    → version_and_type (image_of c) ≡ some (f.schema_version, f.media_type)
indexed c f e = cc e

abbrev decoder : Json
decoder = record {
  versioned = λ c. version_and_type (image_of c);
  schema2_image = image_of;
  oci_image = image_of;
  index = no_index;
  versioned-schema2 = λ c f e. ap version_and_type e;
  versioned-oci = λ c f e. ap version_and_type e;
  versioned-index = indexed;
}

abbrev store : ManifestStore
store = record {
  name = app;
  skip_dependency_verification = false;
  urls = no_urls;
  oci_types = types;
  json = decoder;
}

abbrev handler : SignedHandler (List (Bytes × Bytes))
handler = record {
  unmarshal = λ d c. err schema1_unsupported;
  put = λ c skip s. (err schema1_unsupported, s);
}

abbrev image : ImageManifest
image = record { fields = image_with schema2_manifest first; canonical = codes "mm" }

abbrev untyped : ImageManifest
untyped = record { fields = image_with [] first; canonical = codes "oo" }

image_put : (put_manifest known known_parts files store handler (schema2 image) kept).0 ≡ ok second
unfolding put_manifest put_verified verify_schema2 verify_oci validate_with collect check_schema2
    check_oci image_references url_error stat_linked find_target readlink put_linked put_blob
    stat_blob link_blob link_each link contains path_for path_join clean resolve parts split
    join_slash digest_path_components is_prefix
image_put = refl

put_manifest-IsBacked_example :
    (version_of (schema2 image) ≡ 2)
    × ((store.skip_dependency_verification ≡ true)
        ⊎ All
            (IsBacked known known_parts files store (schema2 image) kept)
            (references_of (schema2 image)))
    × (second ≡ known_parts.from_bytes (payload (schema2 image)))
    × IsManifest known known_parts files store
        (put_manifest known known_parts files store handler (schema2 image) kept).1
        second
put_manifest-IsBacked_example =
    put_manifest-IsBacked known known_parts files store handler (schema2 image) kept second
      app-IsName refl image_put

not_held : stat_blob known known_parts files second kept ≡ err blob_unknown
unfolding stat_linked find_target readlink put_linked put_blob stat_blob link_blob link_each link
    contains path_for path_join clean resolve parts split join_slash digest_path_components
    is_prefix
not_held = refl

get-put_manifest_example :
    get_manifest known known_parts files store handler second
      (put_manifest known known_parts files store handler (schema2 image) kept).1
    ≡ ok (schema2 image)
unfolding payload
get-put_manifest_example =
    get-put_manifest known known_parts files store handler (schema2 image) kept second app-IsName
      refl types-AreApart (refl, refl) (inl not_held) refl image_put

untyped_put : (put_manifest known known_parts files store handler (oci untyped) kept).0 ≡ ok second
unfolding put_manifest put_verified verify_schema2 verify_oci validate_with collect check_schema2
    check_oci image_references url_error stat_linked find_target readlink put_linked put_blob
    stat_blob link_blob link_each link contains path_for path_join clean resolve parts split
    join_slash digest_path_components is_prefix
untyped_put = refl

get-put_panics_example :
    get_manifest known known_parts files store handler second
      (put_manifest known known_parts files store handler (oci untyped) kept).1
    ≡ err panicked
get-put_panics_example =
    get-put_panics known known_parts files store handler untyped kept second app-IsName
      types-AreApart refl refl refl (inl not_held) refl untyped_put

abbrev manifests : List AnyManifest
manifests = schema2 image ∷ oci untyped ∷ []

manifests-IsPut :
    All
      (IsPut known known_parts files store)
      (put_all known known_parts files store handler manifests kept).0
unfolding put_all put_manifest put_verified verify_schema2 verify_oci validate_with collect
    check_schema2 check_oci image_references url_error stat_linked find_target readlink put_linked
    put_blob stat_blob link_blob link_each link contains path_for path_join clean resolve parts
    split join_slash digest_path_components is_prefix
manifests-IsPut = ((second, refl), ((second, refl), tt))

put_all-IsComplete_example :
    All
      (IsComplete known known_parts files store
        (put_all known known_parts files store handler manifests kept).1)
      manifests
    × ((y : AnyManifest)
        → IsComplete known known_parts files store kept y
        → IsComplete known known_parts files store
            (put_all known known_parts files store handler manifests kept).1
            y)
put_all-IsComplete_example =
    put_all-IsComplete known known_parts files store handler manifests kept app-IsName
      (refl, (refl, tt)) manifests-IsPut

abbrev lacking : ImageManifest
lacking = record { fields = image_with schema2_manifest second; canonical = codes "mm" }

not_linked :
    (desc : Descriptor)
    → stat_linked known known_parts files
        (blob_link_path known known_parts files ∷ [])
        app
        second
        kept
      ≢ ok desc
unfolding stat_linked find_target readlink put_linked put_blob stat_blob link_blob link_each link
    contains path_for path_join clean resolve parts split join_slash digest_path_components
    is_prefix
not_linked desc e = cc e

plain_type : codes "c" ≢ foreign_layer
plain_type e = omega (arith, ap length e)

lacking-IsVerified : ¬ IsVerified known known_parts files store (schema2 lacking) kept
unfolding references_of image_references
lacking-IsVerified w = elim w.1 [
  | inl e ↦ absurd (false≢true e)
  | inr a ↦ let (desc, e) = a.1.0.blob plain_type refl in not_linked desc e
]

put_manifest-refuses_example :
    (version_of (schema2 lacking) ≢ 2
      → put_manifest known known_parts files store handler (schema2 lacking) kept
        ≡ (err (invalid (unrecognized_version (version_of (schema2 lacking)))), kept))
    × (version_of (schema2 lacking) ≡ 2
        → (errors : List ReferenceError) × (put_manifest known known_parts files store handler
              (schema2 lacking)
              kept
            ≡ (err (invalid (unverified errors)), kept))
          × ((r : Reference)
              → In r (references_of (schema2 lacking))
              → ¬ IsProvidedFor known known_parts files store (schema2 lacking) kept r
              → In (manifest_blob_unknown r.digest) errors))
put_manifest-refuses_example =
    put_manifest-refuses known known_parts files store handler (schema2 lacking) kept refl
      lacking-IsVerified
