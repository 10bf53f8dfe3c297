-- ===== src/Storage/Paths/Elements.antt =====
-- The paths of all specifications but that of a hash state, as lists of elements.
use container_registry.Prelude.{
  true, List, [], ◌∷◌, ◌++◌, some, ◌≡◌, refl, ap, ◌∙◌, All, All-append,
}
use container_registry.Prelude.Bytes.{Bytes, codes}
use container_registry.Vacuum.{DigestText}
use container_registry.Storage.Join.Laws.{IsElement, render}
use container_registry.Storage.Paths.{
  PathSpec, manifest_revisions, manifest_revision, manifest_revision_link, manifest_tags,
  manifest_tag, manifest_tag_current, manifest_tag_index, manifest_tag_index_entry,
  manifest_tag_index_entry_link, layer_link, blobs, blob, blob_data, upload_data, upload_started_at,
  upload_hash_state, repositories_root, repository_root, DigestParts, path_for, join_link,
}
use container_registry.Storage.Paths.Plain.{
  IsName, repo, is_element-IsElement, storage-elements, repo-elements, join-prefix, join-repo,
  join-in_repo,
}
use container_registry.Storage.Paths.Proper.{IsProper, short, long, elements}
use container_registry.Storage.Paths.Pieces.{
  link_element, revisions_elements, tags_elements, tag-elements, index-elements, current_elements,
  tags_path-elements, tag_path-elements, index_path-elements, components-valid, long-elements,
  revision_elements, revision_path-elements, join-link, layer_elements, layer_path-elements, entry,
  entry-elements, entry_path-elements, upload_elements,
}

module _ (t : DigestText) (p : DigestParts t) where
  -- The path of a proper specification is made of its elements.
  pub path_for-elements :
      (s : PathSpec) → IsProper t s → path_for t s ≡ some (render (elements t s))
  unfolding path_for
  path_for-elements (manifest_revisions name) n =
      ap some (join-repo name (codes "_manifests" ∷ codes "revisions" ∷ []) n revisions_elements)
  path_for-elements (manifest_revision name d) (n, v) = revision_path-elements t p name d n v
  path_for-elements (manifest_revision_link name d) (n, v) =
      ap join_link (revision_path-elements t p name d n v)
      ∙ join-link t p name (codes "_manifests" ∷ codes "revisions" ∷ short t d) n
          (revision_elements t p d v)
  path_for-elements (manifest_tags name) n = ap some (tags_path-elements name n)
  path_for-elements (manifest_tag name tag) (n, e) = ap some (tag_path-elements name tag n e)
  path_for-elements (manifest_tag_current name tag) (n, e) = rw (tag_path-elements name tag n e) (
      ap some (
        join-in_repo name (codes "_manifests" ∷ codes "tags" ∷ tag ∷ [])
          (codes "current" ∷ codes "link" ∷ []) n (tag-elements tag e) current_elements))
  path_for-elements (manifest_tag_index name tag) (n, e) =
      ap some (index_path-elements name tag n e)
  path_for-elements (manifest_tag_index_entry name tag d) (n, e, v) =
      entry_path-elements t p name tag d n e v
  path_for-elements (manifest_tag_index_entry_link name tag d) (n, e, v) =
      ap join_link (entry_path-elements t p name tag d n e v)
      ∙ join-link t p name (entry t p tag d) n (entry-elements t p tag d e v)
  path_for-elements (layer_link name d) (n, v) =
      ap join_link (layer_path-elements t p name d n v)
      ∙ join-link t p name (codes "_layers" ∷ short t d) n (layer_elements t p d v)
  path_for-elements blobs u =
      ap some (join-prefix (codes "blobs" ∷ []) (is_element-IsElement (codes "blobs") refl, tt))
  path_for-elements (blob d) v = rw (components-valid t p d true v) (
      ap some (
        join-prefix (codes "blobs" ∷ long t d)
          (is_element-IsElement (codes "blobs") refl, long-elements t p d v)))
  path_for-elements (blob_data d) v =
      let h = long-elements t p d v in
      rw (components-valid t p d true v) (
        ap some (
          join-prefix (codes "blobs" ∷ (long t d ++ codes "data" ∷ [])) (
            is_element-IsElement (codes "blobs") refl,
            (h.0, (h.1.0, (h.1.1.0, (is_element-IsElement (codes "data") refl, tt)))),
          )))
  path_for-elements (upload_data name id) (n, i) = ap some (
      join-repo name (codes "_uploads" ∷ id ∷ codes "data" ∷ []) n
        (upload_elements t p id (codes "data") i (is_element-IsElement (codes "data") refl)))
  path_for-elements (upload_started_at name id) (n, i) = ap some (
      join-repo name (codes "_uploads" ∷ id ∷ codes "startedat" ∷ []) n (
        upload_elements t p id (codes "startedat") i
          (is_element-IsElement (codes "startedat") refl)))
  path_for-elements (upload_hash_state name id alg offset list) h = absurd h
  path_for-elements repositories_root u = ap some (
      join-prefix (codes "repositories" ∷ [])
        (is_element-IsElement (codes "repositories") refl, tt))
  path_for-elements (repository_root name) n = ap some (join-repo name [] n tt)

  manifests_repo :
      (name : Bytes) (cs ds : List Bytes)
      → IsName name
      → All IsElement cs
      → All IsElement ds
      → All IsElement (repo name (cs ++ ds))
  manifests_repo name cs ds n hc hd =
      repo-elements name (cs ++ ds) n (All-append IsElement cs ds hc hd)

  pub elements-IsElement : (s : PathSpec) → IsProper t s → All IsElement (elements t s)
  elements-IsElement (manifest_revisions name) n =
      repo-elements name (codes "_manifests" ∷ codes "revisions" ∷ []) n revisions_elements
  elements-IsElement (manifest_revision name d) (n, v) =
      repo-elements name (codes "_manifests" ∷ codes "revisions" ∷ short t d) n
        (revision_elements t p d v)
  elements-IsElement (manifest_revision_link name d) (n, v) =
      manifests_repo name (codes "_manifests" ∷ codes "revisions" ∷ short t d) (codes "link" ∷ []) n
        (revision_elements t p d v) link_element
  elements-IsElement (manifest_tags name) n =
      repo-elements name (codes "_manifests" ∷ codes "tags" ∷ []) n tags_elements
  elements-IsElement (manifest_tag name tag) (n, e) =
      repo-elements name (codes "_manifests" ∷ codes "tags" ∷ tag ∷ []) n (tag-elements tag e)
  elements-IsElement (manifest_tag_current name tag) (n, e) =
      manifests_repo name (codes "_manifests" ∷ codes "tags" ∷ tag ∷ [])
        (codes "current" ∷ codes "link" ∷ []) n (tag-elements tag e) current_elements
  elements-IsElement (manifest_tag_index name tag) (n, e) =
      repo-elements name (codes "_manifests" ∷ codes "tags" ∷ tag ∷ codes "index" ∷ []) n
        (index-elements tag e)
  elements-IsElement (manifest_tag_index_entry name tag d) (n, e, v) =
      repo-elements name (entry t p tag d) n (entry-elements t p tag d e v)
  elements-IsElement (manifest_tag_index_entry_link name tag d) (n, e, v) =
      manifests_repo name (entry t p tag d) (codes "link" ∷ []) n (entry-elements t p tag d e v)
        link_element
  elements-IsElement (layer_link name d) (n, v) =
      manifests_repo name (codes "_layers" ∷ short t d) (codes "link" ∷ []) n
        (layer_elements t p d v) link_element
  elements-IsElement blobs u =
      storage-elements (codes "blobs" ∷ []) (is_element-IsElement (codes "blobs") refl, tt)
  elements-IsElement (blob d) v =
      storage-elements (codes "blobs" ∷ long t d)
        (is_element-IsElement (codes "blobs") refl, long-elements t p d v)
  elements-IsElement (blob_data d) v =
      storage-elements (codes "blobs" ∷ (long t d ++ codes "data" ∷ [])) (
        is_element-IsElement (codes "blobs") refl,
        All-append IsElement (long t d) (codes "data" ∷ []) (long-elements t p d v)
            (is_element-IsElement (codes "data") refl, tt),
      )
  elements-IsElement (upload_data name id) (n, i) =
      repo-elements name (codes "_uploads" ∷ id ∷ codes "data" ∷ []) n
        (upload_elements t p id (codes "data") i (is_element-IsElement (codes "data") refl))
  elements-IsElement (upload_started_at name id) (n, i) =
      repo-elements name (codes "_uploads" ∷ id ∷ codes "startedat" ∷ []) n (
        upload_elements t p id (codes "startedat") i
          (is_element-IsElement (codes "startedat") refl))
  elements-IsElement (upload_hash_state name id alg offset list) h = absurd h
  elements-IsElement repositories_root u =
      storage-elements (codes "repositories" ∷ [])
        (is_element-IsElement (codes "repositories") refl, tt)
  elements-IsElement (repository_root name) n = repo-elements name [] n tt
