-- ===== src/Storage/Paths/Distinct.antt =====
-- Different proper specifications have different paths: a path can be read back.
use container_registry.Prelude.{
  ◌==◌, false, if◌then◌else◌, List, [], ◌∷◌, ◌++◌, some, ◌≡◌, refl, sym, ap, ◌∙◌, All, append-nil,
  List-cases, inl, inr,
}
use container_registry.Prelude.Bytes.{Bytes, codes, bytes_eq}
use container_registry.Offline.Tags.{Digest}
use container_registry.Vacuum.{DigestText}
use container_registry.Storage.Join.{parts, join_slash}
use container_registry.Storage.Join.Laws.{parts-render, render}
use container_registry.Storage.Paths.{
  PathSpec, manifest_revisions, manifest_revision, manifest_revision_link, manifest_tags,
  manifest_tag, manifest_tag_current, manifest_tag_index, manifest_tag_index_entry,
  manifest_tag_index_entry_link, layer_link, blobs, blob, blob_data, upload_data, upload_started_at,
  upload_hash_state, repositories_root, repository_root, DigestParts, path_for,
}
use container_registry.Storage.Paths.Plain.{IsName, begins_low, repo}
use container_registry.Storage.Paths.Proper.{IsProper, elements}
use container_registry.Storage.Paths.Elements.{elements-IsElement, path_for-elements}

-- The elements before the first that begins with `_`, and the others.
unfoldable pub low_split : List Bytes → List Bytes × List Bytes
low_split [] = ([], [])
low_split (c ∷ cs) =
    let rest = low_split cs in if begins_low c then ([], c ∷ cs) else (c ∷ rest.0, rest.1)

pub low_split-append :
    (ns rest : List Bytes)
    → All (λ c. begins_low c ≡ false) ns
    → low_split (ns ++ rest) ≡ (ns ++ (low_split rest).0, (low_split rest).1)
unfolding low_split
low_split-append [] rest h = refl
low_split-append (n ∷ ns) rest h = rw (h.0, low_split-append ns rest h.1) refl

module _ (from_hex : Bytes → Bytes → Digest) where
  abbrev read_revision : Bytes → List Bytes → PathSpec
  read_revision name (a ∷ h ∷ []) = manifest_revision name (from_hex a h)
  read_revision name (a ∷ h ∷ l ∷ ls) = manifest_revision_link name (from_hex a h)
  read_revision name _ = manifest_revisions name

  abbrev read_tags : Bytes → List Bytes → PathSpec
  read_tags name (tag ∷ []) = manifest_tag name tag
  read_tags name (tag ∷ x ∷ []) = manifest_tag_index name tag
  read_tags name (tag ∷ x ∷ y ∷ []) = manifest_tag_current name tag
  read_tags name (tag ∷ x ∷ a ∷ h ∷ []) = manifest_tag_index_entry name tag (from_hex a h)
  read_tags name (tag ∷ x ∷ a ∷ h ∷ l ∷ ls) = manifest_tag_index_entry_link name tag (from_hex a h)
  read_tags name _ = manifest_tags name

  abbrev read_layer : Bytes → List Bytes → PathSpec
  read_layer name (a ∷ h ∷ ls) = layer_link name (from_hex a h)
  read_layer name _ = blobs

  abbrev read_upload : Bytes → List Bytes → PathSpec
  read_upload name (id ∷ last ∷ ls) =
      if last == codes "data" then upload_data name id else upload_started_at name id
  read_upload name _ = blobs

  abbrev read_manifests : Bytes → List Bytes → PathSpec
  read_manifests name [] = blobs
  read_manifests name (k ∷ rest) =
      if k == codes "tags" then read_tags name rest else read_revision name rest

  abbrev read_in : Bytes → List Bytes → PathSpec
  read_in name [] = repository_root name
  read_in name (k ∷ rest) =
      if k == codes "_layers"
      then read_layer name rest
      else if k == codes "_uploads"
      then read_upload name rest
      else read_manifests name rest

  abbrev read_repo : List Bytes × List Bytes → PathSpec
  read_repo ([], rest) = repositories_root
  read_repo (n ∷ ns, rest) = read_in (join_slash (n ∷ ns)) rest

  abbrev read_blob : List Bytes → PathSpec
  read_blob (a ∷ two ∷ h ∷ []) = blob (from_hex a h)
  read_blob (a ∷ two ∷ h ∷ l ∷ ls) = blob_data (from_hex a h)
  read_blob _ = blobs

  abbrev read_top : List Bytes → PathSpec
  read_top [] = blobs
  read_top (k ∷ rest) = if k == codes "blobs" then read_blob rest else read_repo (low_split rest)

  abbrev read : List Bytes → PathSpec
  read (docker ∷ registry ∷ version ∷ rest) = read_top rest
  read _ = blobs

  read-name :
      (name : Bytes) (rest : List Bytes)
      → IsName name
      → (low_split rest).0 ≡ []
      → read (repo name rest) ≡ read_in name (low_split rest).1
  read-name name rest n none_high =
      rw (low_split-append (parts name) rest n.high, none_high, append-nil (parts name))
        (elim (List-cases (parts name)) [
          | inl e ↦ absurd (n.named e)
          | inr (x, xs, e) ↦
              rw e (ap (λ s. read_in s (low_split rest).1) (ap join_slash (sym e) ∙ n.joined))
        ])

module _ (t : DigestText) (p : DigestParts t) where
  read-elements : (s : PathSpec) → IsProper t s → read p.from_hex (elements t s) ≡ s
  unfolding low_split
  read-elements (manifest_revisions name) n =
      read-name p.from_hex name (codes "_manifests" ∷ codes "revisions" ∷ []) n refl
  read-elements (manifest_revision name d) (n, v) =
      read-name p.from_hex name
        (codes "_manifests" ∷ codes "revisions" ∷ t.algorithm d ∷ t.hex d ∷ []) n refl
      ∙ ap (manifest_revision name) (p.from_hex-valid d v)
  read-elements (manifest_revision_link name d) (n, v) =
      read-name p.from_hex name
        (codes "_manifests" ∷ codes "revisions" ∷ t.algorithm d ∷ t.hex d ∷ codes "link" ∷ []) n
        refl
      ∙ ap (manifest_revision_link name) (p.from_hex-valid d v)
  read-elements (manifest_tags name) n =
      read-name p.from_hex name (codes "_manifests" ∷ codes "tags" ∷ []) n refl
  read-elements (manifest_tag name tag) (n, e) =
      read-name p.from_hex name (codes "_manifests" ∷ codes "tags" ∷ tag ∷ []) n refl
  read-elements (manifest_tag_current name tag) (n, e) =
      read-name p.from_hex name
        (codes "_manifests" ∷ codes "tags" ∷ tag ∷ codes "current" ∷ codes "link" ∷ []) n refl
  read-elements (manifest_tag_index name tag) (n, e) =
      read-name p.from_hex name (codes "_manifests" ∷ codes "tags" ∷ tag ∷ codes "index" ∷ []) n
        refl
  read-elements (manifest_tag_index_entry name tag d) (n, e, v) =
      read-name p.from_hex name
        (codes "_manifests" ∷ codes "tags" ∷ tag ∷ codes "index" ∷ t.algorithm d ∷ t.hex d ∷ []) n
        refl
      ∙ ap (manifest_tag_index_entry name tag) (p.from_hex-valid d v)
  read-elements (manifest_tag_index_entry_link name tag d) (n, e, v) =
      read-name p.from_hex name
        (codes "_manifests"
          ∷ codes "tags"
          ∷ tag
          ∷ codes "index"
          ∷ t.algorithm d
          ∷ t.hex d
          ∷ codes "link"
          ∷ [])
        n refl
      ∙ ap (manifest_tag_index_entry_link name tag) (p.from_hex-valid d v)
  read-elements (layer_link name d) (n, v) =
      read-name p.from_hex name (codes "_layers" ∷ t.algorithm d ∷ t.hex d ∷ codes "link" ∷ []) n
        refl
      ∙ ap (layer_link name) (p.from_hex-valid d v)
  read-elements blobs u = refl
  read-elements (blob d) v = ap blob (p.from_hex-valid d v)
  read-elements (blob_data d) v = ap blob_data (p.from_hex-valid d v)
  read-elements (upload_data name id) (n, i) =
      read-name p.from_hex name (codes "_uploads" ∷ id ∷ codes "data" ∷ []) n refl
  read-elements (upload_started_at name id) (n, i) =
      read-name p.from_hex name (codes "_uploads" ∷ id ∷ codes "startedat" ∷ []) n refl
  read-elements (upload_hash_state name id alg offset list) h = absurd h
  read-elements repositories_root u = refl
  read-elements (repository_root name) n = read-name p.from_hex name [] n refl

  -- Two specifications with proper names, tags and identifiers and valid digests, neither of a hash
  -- state, have the same path only if they are the same.
  pub path_for-injective :
      (a b : PathSpec) → IsProper t a → IsProper t b → path_for t a ≡ path_for t b → a ≡ b
  path_for-injective a b ha hb e =
      let same : some (render (elements t a)) ≡ some (render (elements t b)) =
        sym (path_for-elements t p a ha) ∙ (e ∙ path_for-elements t p b hb) in
      let texts : render (elements t a) ≡ render (elements t b) = cc same in
      let lists : elements t a ≡ elements t b =
        sym (parts-render (elements t a) (elements-IsElement t p a ha))
        ∙ (ap parts texts ∙ parts-render (elements t b) (elements-IsElement t p b hb)) in
      sym (read-elements a ha) ∙ (ap (read p.from_hex) lists ∙ read-elements b hb)
