-- ===== src/Storage/Validation/Reported.antt =====
-- The loop over the references of a manifest, for any of the checks: when it passes, and which
-- digests it reports.
use container_registry.Prelude.{
  ℕ, ◌==◌, nat_eq, nat_beq_iff, Bool, true, List, ◌∷◌, [], ◌++◌, Option, some, none, ◌≡◌, ◌≢◌, ◌↔◌,
  ◌⊎◌, inl, inr, refl, All, In, here, there, In-append_left, In-append_right, Bool-cases,
}
use container_registry.Offline.Tags.{Digest}
use container_registry.Storage.Stores.{
  driver_error, invalid_digest, repository_unknown, tag_unknown, blob_unknown, unsupported,
  over_limit,
}
use container_registry.Storage.Validation.{
  unrecognized_version, Reference, ReferenceError, store_error, missing_url, invalid_url,
  manifest_blob_unknown, unverified, report, collect, errors_or_none, validate_with,
}

report-nil : (d : Digest) (e : Option ReferenceError) → (report d e ≡ []) ↔ (e ≡ none)
report-nil d none = (λ h. refl, λ h. refl)
report-nil d (some (store_error blob_unknown)) = (λ h. cc h, λ h. cc h)
report-nil d (some (store_error (driver_error x))) = (λ h. cc h, λ h. cc h)
report-nil d (some (store_error invalid_digest)) = (λ h. cc h, λ h. cc h)
report-nil d (some (store_error repository_unknown)) = (λ h. cc h, λ h. cc h)
report-nil d (some (store_error tag_unknown)) = (λ h. cc h, λ h. cc h)
report-nil d (some (store_error unsupported)) = (λ h. cc h, λ h. cc h)
report-nil d (some (store_error over_limit)) = (λ h. cc h, λ h. cc h)
report-nil d (some missing_url) = (λ h. cc h, λ h. cc h)
report-nil d (some invalid_url) = (λ h. cc h, λ h. cc h)
report-nil d (some (manifest_blob_unknown x)) = (λ h. cc h, λ h. cc h)

report-names :
    (d : Digest) (e : Option ReferenceError) → e ≢ none → In (manifest_blob_unknown d) (report d e)
report-names d none n = absurd (n refl)
report-names d (some (store_error blob_unknown)) n = here
report-names d (some (store_error (driver_error x))) n = there here
report-names d (some (store_error invalid_digest)) n = there here
report-names d (some (store_error repository_unknown)) n = there here
report-names d (some (store_error tag_unknown)) n = there here
report-names d (some (store_error unsupported)) n = there here
report-names d (some (store_error over_limit)) n = there here
report-names d (some missing_url) n = there here
report-names d (some invalid_url) n = there here
report-names d (some (manifest_blob_unknown x)) n = there here

append-nils : (xs ys : List ReferenceError) → (xs ++ ys ≡ []) ↔ ((xs ≡ []) × (ys ≡ []))
append-nils [] ys = (λ h. (refl, h), λ h. h.1)
append-nils (x ∷ xs) ys = (λ h. cc h, λ h. cc h.0)

module _ (check : Reference → Option ReferenceError) where
  collect-nil : (rs : List Reference) → (collect check rs ≡ []) ↔ All (λ r. check r ≡ none) rs
  unfolding collect
  collect-nil [] = (λ h. tt, λ h. refl)
  collect-nil (r ∷ rs) =
      let both = append-nils (report r.digest (check r)) (collect check rs) in
      let first = report-nil r.digest (check r) in
      (
        λ h. (first.0 (both.0 h).0, (collect-nil rs).0 (both.0 h).1),
        λ h. both.1 (first.1 h.0, (collect-nil rs).1 h.1),
      )

  collect-names :
      (rs : List Reference) {r : Reference}
      → In r rs
      → check r ≢ none
      → In (manifest_blob_unknown r.digest) (collect check rs)
  unfolding collect
  collect-names [] i n = elim i [ ]
  collect-names (r ∷ rs) here n =
      In-append_left (report r.digest (check r)) (collect check rs)
        (report-names r.digest (check r) n)
  collect-names (q ∷ rs) (there i) n =
      In-append_right (report q.digest (check q)) (collect check rs) (collect-names rs i n)

  errors_or_none-nil : (es : List ReferenceError) → (errors_or_none es ≡ none) ↔ (es ≡ [])
  errors_or_none-nil [] = (λ h. refl, λ h. refl)
  errors_or_none-nil (e ∷ es) = (λ h. cc h, λ h. cc h)

  -- A manifest passes where its version is 2 and the references are skipped or all pass.
  pub validate_with-none :
      (version : ℕ) (skip : Bool) (rs : List Reference)
      → (validate_with check version skip rs ≡ none)
        ↔ ((version ≡ 2) × ((skip ≡ true) ⊎ All (λ r. check r ≡ none) rs))
  unfolding validate_with
  validate_with-none version skip rs = elim (Bool-cases (version == 2)) [
    | inr e ↦ rw e (λ h. cc h, λ (is, h). cc (e, (nat_beq_iff version 2).1 is))
    | inl e ↦
        let is = (nat_beq_iff version 2).0 e in
        let nils = errors_or_none-nil (collect check rs) in
        elim (Bool-cases skip) [
          | inl skips ↦ rw (e, skips) (λ h. (is, inl refl), λ h. refl)
          | inr looks ↦
              rw (e, looks)
                (
                  λ h. (is, inr ((collect-nil rs).0 (nils.0 h))),
                  λ (same, c). elim c [
                    | inl skips ↦ cc skips
                    | inr all ↦ nils.1 ((collect-nil rs).1 all)
                  ],
                )
        ]
  ]

  -- Another version is the reason by itself.
  pub validate_with-version :
      (version : ℕ) (skip : Bool) (rs : List Reference)
      → version ≢ 2
      → validate_with check version skip rs ≡ some (unrecognized_version version)
  unfolding validate_with
  validate_with-version version skip rs n = elim (Bool-cases (version == 2)) [
    | inl e ↦ absurd (n ((nat_beq_iff version 2).0 e))
    | inr e ↦ rw e refl
  ]

  errors_or_none-errors :
      (es : List ReferenceError)
      → errors_or_none es ≢ none
      → errors_or_none es ≡ some (unverified es)
  errors_or_none-errors [] n = absurd (n refl)
  errors_or_none-errors (e ∷ es) n = refl

  -- With version 2, the references are the reason, and each that does not pass is reported by its
  -- digest.
  pub validate_with-references :
      (version : ℕ) (skip : Bool) (rs : List Reference)
      → version ≡ 2
      → validate_with check version skip rs ≢ none
      → (errors : List ReferenceError) × (validate_with check version skip rs
          ≡ some (unverified errors))
        × ((r : Reference) → In r rs → check r ≢ none → In (manifest_blob_unknown r.digest) errors)
  unfolding validate_with
  validate_with-references version skip rs is n =
      let e = (nat_beq_iff version 2).1 is in
      elim (Bool-cases skip) [
        | inl skips ↦ absurd (n (rw (e, skips) refl))
        | inr looks ↦ (
          collect check rs,
          rw (e, looks) (errors_or_none-errors (collect check rs) (rw (e, looks) at n)),
          λ r i fails. collect-names rs i fails,
        )
      ]
