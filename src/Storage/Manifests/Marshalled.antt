-- ===== src/Storage/Manifests/Marshalled.antt =====
-- Manifests as their JSON content: what the handlers decode of it, by the media type.
use container_registry.Prelude.{
  ◌==◌, nat_eq, true, false, ok, List, [], some, none, ◌≡◌, ◌≢◌, ◌⊎◌, inl, inr, refl, sym, ap, ◌∙◌,
  Bool-cases,
}
use container_registry.Prelude.Bytes.{Bytes, bytes_eq, bytes_beq_iff}
use container_registry.Vacuum.{DigestText}
use container_registry.Storage.Paths.{DigestParts}
use container_registry.Storage.Driver.{Driver}
use container_registry.Storage.Validation.{Reference, OciTypes, schema2_manifest}
use container_registry.Storage.Formats.{
  decoded_schema2, decoded_oci, decoded_list, ImageManifest, ManifestList, as_schema2, as_oci,
  as_list, AnyManifest, signed, schema2, oci, list_of, other, Json, ListFields, manifest_list,
  unmarshal_schema2, unmarshal_oci, unmarshal_list,
}
use container_registry.Storage.Manifests.{guess, list_or_image, ManifestStore, unmarshal_by_type}
use container_registry.Storage.Manifests.Stored.{is_verifiable, payload, version_of}

-- What the specifications say of the media types: those of OCI are not empty, and apart from each
-- other and from those of schema 2.
pub record AreApart (o : OciTypes) : Type 0 where
  pub manifest_named : o.image_manifest ≢ []
  pub index_named : o.image_index ≢ []
  pub manifest_apart : o.image_manifest ≢ schema2_manifest
  pub index_apart : o.image_index ≢ schema2_manifest
  pub list_apart : manifest_list ≢ o.image_manifest
  pub types_apart : o.image_index ≢ o.image_manifest

abbrev pub media_type_of : AnyManifest → Bytes
media_type_of (signed c) = []
media_type_of (schema2 x) = x.fields.media_type
media_type_of (oci x) = x.fields.media_type
media_type_of (list_of x) = x.fields.media_type
media_type_of other = []

-- A manifest whose content decodes to it, with a media type that tells what it is: an image without
-- one also decodes as an index, which has no list, and an index without one has a list.
abbrev pub IsMarshalled : OciTypes → Json → AnyManifest → Type 0
IsMarshalled o j (signed c) = Unit
IsMarshalled o j (schema2 x) =
    (j.schema2_image x.canonical ≡ some x.fields) × (x.fields.media_type ≡ schema2_manifest)
IsMarshalled o j (oci x) =
    (j.oci_image x.canonical ≡ some x.fields)
    × ((x.fields.media_type ≡ o.image_manifest)
        ⊎ ((x.fields.media_type ≡ [])
            × ((f : ListFields) × (j.index x.canonical ≡ some f) × (f.manifests ≡ none))))
IsMarshalled o j (list_of x) =
    (j.index x.canonical ≡ some x.fields)
    × ((x.fields.media_type ≡ manifest_list)
        ⊎ ((x.fields.media_type ≡ o.image_index)
            ⊎ ((x.fields.media_type ≡ [])
                × ((refs : List Reference) × (x.fields.manifests ≡ some refs)))))
IsMarshalled o j other = Unit

equal : {a b : Bytes} → a ≡ b → (a == b) ≡ true
equal {a} {b} e = (bytes_beq_iff a b).1 e

equal_refl : (a : Bytes) → (a == a) ≡ true
equal_refl a = (bytes_beq_iff a a).1 refl

differ : {a b : Bytes} → a ≢ b → (a == b) ≡ false
differ {a} {b} n = elim (Bool-cases (a == b)) [
  | inl e ↦ absurd (n ((bytes_beq_iff a b).0 e))
  | inr e ↦ e
]

module _ (t : DigestText) (p : DigestParts t) (v : Driver) (m : ManifestStore) where
  schema2_back :
      (x : ImageManifest)
      → m.json.schema2_image x.canonical ≡ some x.fields
      → x.fields.media_type ≡ schema2_manifest
      → unmarshal_schema2 m.json x.canonical ≡ ok x
  unfolding unmarshal_schema2
  schema2_back x decoded typed = ap (decoded_schema2 x.canonical) decoded ∙ rw (equal typed) refl

  oci_back :
      (x : ImageManifest)
      → m.json.oci_image x.canonical ≡ some x.fields
      → (x.fields.media_type ≡ []) ⊎ (x.fields.media_type ≡ m.oci_types.image_manifest)
      → unmarshal_oci m.oci_types m.json x.canonical ≡ ok x
  unfolding unmarshal_oci
  oci_back x decoded typed = ap (decoded_oci m.oci_types x.canonical) decoded ∙ elim typed [
    | inl e ↦ rw (equal e) refl
    | inr e ↦ elim (Bool-cases (x.fields.media_type == [])) [
      | inl n ↦ rw n refl
      | inr n ↦ rw (n, equal e) refl
    ]
  ]

  list_back :
      (x : ManifestList)
      → m.json.index x.canonical ≡ some x.fields
      → unmarshal_list m.json x.canonical ≡ ok x
  unfolding unmarshal_list
  list_back x decoded = ap (decoded_list x.canonical) decoded

  -- `Get` takes content of a type apart by the handler of the type.
  by_schema2 :
      (c : Bytes)
      → unmarshal_by_type t p v m schema2_manifest c ≡ as_schema2 (unmarshal_schema2 m.json c)
  unfolding unmarshal_by_type
  by_schema2 c = refl

  by_oci :
      AreApart m.oci_types
      → (c : Bytes)
      → unmarshal_by_type t p v m m.oci_types.image_manifest c
        ≡ as_oci (unmarshal_oci m.oci_types m.json c)
  unfolding unmarshal_by_type
  by_oci a c = rw (differ a.manifest_apart, equal_refl m.oci_types.image_manifest) refl

  by_list :
      AreApart m.oci_types
      → (c : Bytes) → unmarshal_by_type t p v m manifest_list c ≡ as_list (unmarshal_list m.json c)
  unfolding unmarshal_by_type
  by_list a c = rw (differ a.list_apart) refl

  by_index :
      AreApart m.oci_types
      → (c : Bytes)
      → unmarshal_by_type t p v m m.oci_types.image_index c ≡ as_list (unmarshal_list m.json c)
  unfolding unmarshal_by_type
  by_index a c = elim (Bool-cases (m.oci_types.image_index == manifest_list)) [
    | inl e ↦ rw (differ a.index_apart, differ a.types_apart, e) refl
    | inr e ↦
        rw (differ a.index_apart, differ a.types_apart, e, equal_refl m.oci_types.image_index) refl
  ]

  pub by_guess :
      AreApart m.oci_types
      → (c : Bytes)
      → unmarshal_by_type t p v m [] c
        ≡ guess (unmarshal_list m.json c) (as_oci (unmarshal_oci m.oci_types m.json c))
  unfolding unmarshal_by_type
  by_guess a c =
      rw (differ (λ e. a.manifest_named (sym e)), differ (λ e. a.index_named (sym e))) refl

  pub unmarshalled :
      (x : AnyManifest)
      → AreApart m.oci_types
      → is_verifiable x ≡ true
      → IsMarshalled m.oci_types m.json x
      → unmarshal_by_type t p v m (media_type_of x) (payload x) ≡ ok x
  unfolding payload
  unmarshalled (signed c) a e i = cc e
  unmarshalled (schema2 x) a e (decoded, typed) =
      ap (λ mt. unmarshal_by_type t p v m mt x.canonical) typed
      ∙ (by_schema2 x.canonical ∙ ap as_schema2 (schema2_back x decoded typed))
  unmarshalled (oci x) a e (decoded, inl typed) =
      ap (λ mt. unmarshal_by_type t p v m mt x.canonical) typed
      ∙ (by_oci a x.canonical ∙ ap as_oci (oci_back x decoded (inr typed)))
  unmarshalled (oci x) a e (decoded, inr (typed, (f, index, absent))) =
      let image = as_oci (unmarshal_oci m.oci_types m.json x.canonical) in
      let no_list : unmarshal_list m.json x.canonical
          ≡ ok (record { fields = f; canonical = x.canonical }) =
        list_back (record { fields = f; canonical = x.canonical }) index in
      ap (λ mt. unmarshal_by_type t p v m mt x.canonical) typed
      ∙ (by_guess a x.canonical
          ∙ (ap (λ l. guess l image) no_list
              ∙ (ap (λ o. list_or_image o (record { fields = f; canonical = x.canonical }) image)
                    absent
                  ∙ ap as_oci (oci_back x decoded (inl typed)))))
  unmarshalled (list_of x) a e (decoded, inl typed) =
      ap (λ mt. unmarshal_by_type t p v m mt x.canonical) typed
      ∙ (by_list a x.canonical ∙ ap as_list (list_back x decoded))
  unmarshalled (list_of x) a e (decoded, inr (inl typed)) =
      ap (λ mt. unmarshal_by_type t p v m mt x.canonical) typed
      ∙ (by_index a x.canonical ∙ ap as_list (list_back x decoded))
  unmarshalled (list_of x) a e (decoded, inr (inr (typed, (refs, present)))) =
      let image = as_oci (unmarshal_oci m.oci_types m.json x.canonical) in
      ap (λ mt. unmarshal_by_type t p v m mt x.canonical) typed
      ∙ (by_guess a x.canonical
          ∙ (ap (λ l. guess l image) (list_back x decoded)
              ∙ ap (λ o. list_or_image o x image) present))
  unmarshalled other a e i = cc e

  pub versioned :
      (x : AnyManifest)
      → is_verifiable x ≡ true
      → IsMarshalled m.oci_types m.json x
      → m.json.versioned (payload x) ≡ some (version_of x, media_type_of x)
  unfolding payload
  versioned (signed c) e i = cc e
  versioned (schema2 x) e i = m.json.versioned-schema2 x.canonical x.fields i.0
  versioned (oci x) e i = m.json.versioned-oci x.canonical x.fields i.0
  versioned (list_of x) e i = m.json.versioned-index x.canonical x.fields i.0
  versioned other e i = cc e
