-- ===== src/Storage/Paths/Agreed.antt =====
-- registry/storage/vacuum.go writes paths by hand that `pathFor` has too.
use container_registry.Prelude.{
  List, [], ◌∷◌, ◌++◌, some, String, ◌≡◌, sym, ap, ◌∙◌, List-cases, inl, inr,
}
use container_registry.Prelude.Bytes.{Bytes, codes}
use container_registry.Offline.Mark.{ManifestDel}
use container_registry.Vacuum.{DigestText, blob_data_path, manifest_link, tag_link, link_tail}
use container_registry.Vacuum.Paths.{plain_path, blob_data_path-valid}
use container_registry.Storage.Join.{parts, join_slash}
use container_registry.Storage.Join.Laws.{IsElement, render, join-append}
use container_registry.Storage.Paths.{
  manifest_revision_link, manifest_tag_index_entry_link, blob_data, DigestParts, path_for,
}
use container_registry.Storage.Paths.Plain.{IsName, repo}
use container_registry.Storage.Paths.Proper.{IsValid}
use container_registry.Storage.Paths.Elements.{path_for-elements}

-- The text of a path in a repository.
repo_text :
    (name c : Bytes) (cs : List Bytes)
    → IsName name
    → render (repo name (c ∷ cs))
      ≡ codes "/docker/registry/v2/repositories/" ++ (name ++ b'/' ∷ join_slash (c ∷ cs))
unfolding join_slash
repo_text name c cs n = elim (List-cases (parts name)) [
  | inl e ↦ absurd (n.named e)
  | inr (x, xs, e) ↦
      let text : join_slash (parts name ++ c ∷ cs) ≡ name ++ b'/' ∷ join_slash (c ∷ cs) =
        ap (λ ns. join_slash (ns ++ c ∷ cs)) e
        ∙ (join-append x xs c cs
            ∙ ap (λ s. s ++ b'/' ∷ join_slash (c ∷ cs)) (ap join_slash (sym e) ∙ n.joined)) in
      rw e (rw e at (ap (λ s. codes "/docker/registry/v2/repositories/" ++ s) text))
]

module _ (t : DigestText) (p : DigestParts t) where
  pub manifest_link-path_for :
      (m : ManifestDel)
      → IsName (codes m.name)
      → IsValid t m.digest
      → path_for t (manifest_revision_link (codes m.name) m.digest) ≡ some (manifest_link t m)
  unfolding join_slash manifest_link link_tail
  manifest_link-path_for m n v =
      path_for-elements t p (manifest_revision_link (codes m.name) m.digest) (n, v)
      ∙ ap some (
          repo_text (codes m.name) (codes "_manifests")
            (codes "revisions" ∷ t.algorithm m.digest ∷ t.hex m.digest ∷ codes "link" ∷ []) n)

  pub tag_link-path_for :
      (m : ManifestDel) (tag : String)
      → IsName (codes m.name)
      → IsElement (codes tag)
      → IsValid t m.digest
      → path_for t (manifest_tag_index_entry_link (codes m.name) (codes tag) m.digest)
        ≡ some (tag_link t m tag)
  unfolding join_slash tag_link link_tail
  tag_link-path_for m tag n e v =
      path_for-elements t p (manifest_tag_index_entry_link (codes m.name) (codes tag) m.digest)
        (n, e, v)
      ∙ ap some (
          repo_text (codes m.name) (codes "_manifests")
            (codes "tags"
              ∷ codes tag
              ∷ codes "index"
              ∷ t.algorithm m.digest
              ∷ t.hex m.digest
              ∷ codes "link"
              ∷ [])
            n)

  -- For proper names and tags and valid digests, the vacuum's paths of a blob's data, of a manifest's
  -- link and of a tag's index link are those that `pathFor` gives.
  pub path_for-vacuum :
      (m : ManifestDel) (tag : String)
      → IsName (codes m.name)
      → IsElement (codes tag)
      → IsValid t m.digest
      → (path_for t (blob_data m.digest) ≡ blob_data_path t m.digest)
        × (path_for t (manifest_revision_link (codes m.name) m.digest) ≡ some (manifest_link t m))
        × (path_for t (manifest_tag_index_entry_link (codes m.name) (codes tag) m.digest)
            ≡ some (tag_link t m tag))
  unfolding join_slash plain_path
  path_for-vacuum m tag n e v = (
    path_for-elements t p (blob_data m.digest) v ∙ sym (blob_data_path-valid t m.digest v),
    manifest_link-path_for m n v,
    tag_link-path_for m tag n e v,
  )
