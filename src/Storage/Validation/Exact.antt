-- ===== src/Storage/Validation/Exact.antt =====
-- The references that each validator accepts.
use container_registry.Prelude.{
  ◌==◌, nat_eq, Bool, true, false, Result, ok, err, List, ◌∷◌, [], Option, some, none, ◌≡◌, ◌≢◌,
  ◌↔◌, inl, inr, refl, sym, ◌∙◌, All, In, Bool-cases, false≢true,
}
use container_registry.Prelude.Bytes.{Bytes, bytes_eq, bytes_beq_iff}
use container_registry.Prelude.Sets.{contains, contains_of_In, In-of_contains}
use container_registry.Offline.Tags.{Digest}
use container_registry.Storage.Stores.{StoreError, Descriptor}
use container_registry.Storage.Validation.{
  Reference, ManifestUrls, OciTypes, Lookups, ReferenceError, foreign_layer, is_manifest2,
  url_error, stat_error, or_stat, needs_url, coerced, check_schema2, unless_error, check_oci,
  exists_error, check_listed,
}
use container_registry.Storage.Validation.Urls.{IsWebUrl, url_error-none}

-- A reference of a schema 2 manifest that may be stored.
pub record IsProvided (u : ManifestUrls) (l : Lookups) (r : Reference) : Type 0 where
  pub foreign : r.media_type ≡ foreign_layer → (r.urls ≢ []) × All (IsWebUrl u) r.urls
  pub blob :
      r.media_type ≢ foreign_layer → r.urls ≡ [] → (desc : Descriptor) × (l.stat r.digest ≡ ok desc)
  pub manifest :
      r.media_type ≢ foreign_layer
      → is_manifest2 r.media_type ≡ true
      → r.urls ≢ []
      → l.exists r.digest ≡ ok true

-- A reference of an OCI manifest that may be stored.
pub record IsProvidedOci (o : OciTypes) (u : ManifestUrls) (l : Lookups) (r : Reference)
    : Type 0 where
  pub layer : In r.media_type o.layers → All (IsWebUrl u) r.urls
  pub blob : r.urls ≡ [] → (desc : Descriptor) × (l.stat r.digest ≡ ok desc)
  pub manifest :
      contains o.layers r.media_type ≡ false
      → r.media_type ≡ o.image_manifest
      → r.urls ≢ []
      → l.exists r.digest ≡ ok true

stat_error-none :
    (r : Result StoreError Descriptor)
    → (stat_error r ≡ none) ↔ ((desc : Descriptor) × (r ≡ ok desc))
stat_error-none (ok desc) = (λ h. (desc, refl), λ h. refl)
stat_error-none (err e) = (λ h. cc h, λ (desc, h). cc h)

or_stat-none :
    (l : Lookups) (d : Digest) (urls : List Bytes) (e : Option ReferenceError)
    → (or_stat l d urls e ≡ none)
      ↔ ((urls ≡ [] → (desc : Descriptor) × (l.stat d ≡ ok desc)) × (urls ≢ [] → e ≡ none))
or_stat-none l d [] e = (
  λ h. (λ x. (stat_error-none (l.stat d)).0 h, λ n. absurd (n refl)),
  λ h. (stat_error-none (l.stat d)).1 (h.0 refl),
)
or_stat-none l d (s ∷ rest) e = (λ h. (λ x. cc x, λ n. h), λ h. h.1 (λ x. cc x))

coerced-none : (r : Result StoreError Bool) → (coerced r ≡ none) ↔ (r ≡ ok true)
coerced-none (ok true) = (λ h. refl, λ h. refl)
coerced-none (ok false) = (λ h. cc h, λ h. cc h)
coerced-none (err e) = (λ h. cc h, λ h. cc h)

needs_url-none : (urls : List Bytes) → (needs_url urls ≡ none) ↔ (urls ≢ [])
needs_url-none [] = (λ h. cc h, λ n. absurd (n refl))
needs_url-none (s ∷ rest) = (λ h x. cc x, λ n. refl)

exists_error-none : (r : Result StoreError Bool) → (exists_error r ≡ none) ↔ (r ≡ ok true)
exists_error-none (ok true) = (λ h. refl, λ h. refl)
exists_error-none (ok false) = (λ h. cc h, λ h. cc h)
exists_error-none (err e) = (λ h. cc h, λ h. cc h)

-- A listed reference is accepted where it exists.
pub check_listed-none :
    (l : Lookups) (r : Reference) → (check_listed l r ≡ none) ↔ (l.exists r.digest ≡ ok true)
unfolding check_listed
check_listed-none l r = exists_error-none (l.exists r.digest)

pub check_schema2-IsProvided :
    (u : ManifestUrls) (l : Lookups) (r : Reference)
    → (check_schema2 u l r ≡ none) ↔ IsProvided u l r
unfolding check_schema2
check_schema2-IsProvided u l r = elim (Bool-cases (r.media_type == foreign_layer)) [
  | inl f ↦
      let is = (bytes_beq_iff r.media_type foreign_layer).0 f in
      let checked = url_error-none u r.urls (needs_url r.urls) in
      rw f (
        λ h. record {
          foreign = λ x. ((needs_url-none r.urls).0 (checked.0 h).1, (checked.0 h).0);
          blob = λ n. absurd (n is);
          manifest = λ n. absurd (n is);
        },
        λ w. checked.1 ((w.foreign is).1, (needs_url-none r.urls).1 (w.foreign is).0),
      )
  | inr f ↦
      let is_not = λ (e : r.media_type ≡ foreign_layer).
        false≢true (sym f ∙ (bytes_beq_iff r.media_type foreign_layer).1 e) in
      elim (Bool-cases (is_manifest2 r.media_type)) [
        | inl m ↦
            let checked = or_stat-none l r.digest r.urls (coerced (l.exists r.digest)) in
            rw (f, m)
              (
                λ h. record {
                  foreign = λ x. absurd (is_not x);
                  blob = λ n. (checked.0 h).0;
                  manifest = λ n t some_urls.
                      (coerced-none (l.exists r.digest)).0 ((checked.0 h).1 some_urls);
                },
                λ w. checked.1 (
                  w.blob is_not,
                  λ n. (coerced-none (l.exists r.digest)).1 (w.manifest is_not m n),
                ),
              )
        | inr m ↦
            let checked = or_stat-none l r.digest r.urls none in
            rw (f, m)
              (
                λ h. record {
                  foreign = λ x. absurd (is_not x);
                  blob = λ n. (checked.0 h).0;
                  manifest = λ n t. cc (t, m);
                },
                λ w. checked.1 (w.blob is_not, λ n. refl),
              )
      ]
]

unless_error-none :
    (e next : Option ReferenceError) → (unless_error e next ≡ none) ↔ ((e ≡ none) × (next ≡ none))
unless_error-none none next = (λ h. (refl, h), λ h. h.1)
unless_error-none (some e) next = (λ h. cc h, λ h. cc h.0)

pub check_oci-IsProvidedOci :
    (o : OciTypes) (u : ManifestUrls) (l : Lookups) (r : Reference)
    → (check_oci o u l r ≡ none) ↔ IsProvidedOci o u l r
unfolding check_oci
check_oci-IsProvidedOci o u l r = elim (Bool-cases (contains o.layers r.media_type)) [
  | inl f ↦
      let urls = url_error-none u r.urls none in
      let stats = or_stat-none l r.digest r.urls none in
      let both = unless_error-none (url_error u r.urls none) (or_stat l r.digest r.urls none) in
      rw f (
        λ h. record {
          layer = λ x. (urls.0 (both.0 h).0).0;
          blob = (stats.0 (both.0 h).1).0;
          manifest = λ x. cc x;
        },
        λ w. both.1 (
          urls.1 (w.layer (In-of_contains r.media_type o.layers f), refl),
          stats.1 (w.blob, λ n. refl),
        ),
      )
  | inr f ↦
      let is_not = λ (i : In r.media_type o.layers). false≢true (sym f ∙ contains_of_In i) in
      elim (Bool-cases (r.media_type == o.image_manifest)) [
        | inl m ↦
            let is = (bytes_beq_iff r.media_type o.image_manifest).0 m in
            let checked = or_stat-none l r.digest r.urls (coerced (l.exists r.digest)) in
            rw (f, m)
              (
                λ h. record {
                  layer = λ x. absurd (is_not x);
                  blob = (checked.0 h).0;
                  manifest = λ x t n. (coerced-none (l.exists r.digest)).0 ((checked.0 h).1 n);
                },
                λ w.
                    checked.1
                      (w.blob, λ n. (coerced-none (l.exists r.digest)).1 (w.manifest f is n)),
              )
        | inr m ↦
            let checked = or_stat-none l r.digest r.urls none in
            rw (f, m)
              (
                λ h. record {
                  layer = λ x. absurd (is_not x);
                  blob = (checked.0 h).0;
                  manifest = λ x t. cc (m, (bytes_beq_iff r.media_type o.image_manifest).1 t);
                },
                λ w. checked.1 (w.blob, λ n. refl),
              )
      ]
]
