-- ===== src/Storage/Paths/Proper.antt =====
-- Proper specifications, and the elements that their paths are to have.
use container_registry.Prelude.{true, List, [], ◌∷◌, ◌++◌, ◌≡◌, take}
use container_registry.Prelude.Bytes.{Bytes, codes}
use container_registry.Offline.Tags.{Digest}
use container_registry.Vacuum.{DigestText}
use container_registry.Storage.Join.Laws.{IsElement}
use container_registry.Storage.Paths.{
  PathSpec, manifest_revisions, manifest_revision, manifest_revision_link, manifest_tags,
  manifest_tag, manifest_tag_current, manifest_tag_index, manifest_tag_index_entry,
  manifest_tag_index_entry_link, layer_link, blobs, blob, blob_data, upload_data, upload_started_at,
  upload_hash_state, repositories_root, repository_root,
}
use container_registry.Storage.Paths.Plain.{IsName, storage, repo}

module _ (t : DigestText) where
  abbrev pub IsValid : Digest → Type 0
  IsValid d = t.validate d ≡ true

  -- Names, tags and upload identifiers are proper, and digests valid.
  abbrev pub IsProper : PathSpec → Type 0
  IsProper (manifest_revisions name) = IsName name
  IsProper (manifest_revision name d) = IsName name × IsValid d
  IsProper (manifest_revision_link name d) = IsName name × IsValid d
  IsProper (manifest_tags name) = IsName name
  IsProper (manifest_tag name tag) = IsName name × IsElement tag
  IsProper (manifest_tag_current name tag) = IsName name × IsElement tag
  IsProper (manifest_tag_index name tag) = IsName name × IsElement tag
  IsProper (manifest_tag_index_entry name tag d) = IsName name × IsElement tag × IsValid d
  IsProper (manifest_tag_index_entry_link name tag d) = IsName name × IsElement tag × IsValid d
  IsProper (layer_link name d) = IsName name × IsValid d
  IsProper blobs = Unit
  IsProper (blob d) = IsValid d
  IsProper (blob_data d) = IsValid d
  IsProper (upload_data name id) = IsName name × IsElement id
  IsProper (upload_started_at name id) = IsName name × IsElement id
  IsProper (upload_hash_state name id alg offset list) = ⊥
  IsProper repositories_root = Unit
  IsProper (repository_root name) = IsName name

  abbrev pub short : Digest → List Bytes
  short d = t.algorithm d ∷ t.hex d ∷ []

  abbrev pub long : Digest → List Bytes
  long d = t.algorithm d ∷ take 2 (t.hex d) ∷ t.hex d ∷ []

  -- what stands below the root of the storage
  abbrev pub elements : PathSpec → List Bytes
  elements (manifest_revisions name) = repo name (codes "_manifests" ∷ codes "revisions" ∷ [])
  elements (manifest_revision name d) = repo name (codes "_manifests" ∷ codes "revisions" ∷ short d)
  elements (manifest_revision_link name d) =
      repo name (codes "_manifests" ∷ codes "revisions" ∷ (short d ++ codes "link" ∷ []))
  elements (manifest_tags name) = repo name (codes "_manifests" ∷ codes "tags" ∷ [])
  elements (manifest_tag name tag) = repo name (codes "_manifests" ∷ codes "tags" ∷ tag ∷ [])
  elements (manifest_tag_current name tag) =
      repo name (codes "_manifests" ∷ codes "tags" ∷ tag ∷ codes "current" ∷ codes "link" ∷ [])
  elements (manifest_tag_index name tag) =
      repo name (codes "_manifests" ∷ codes "tags" ∷ tag ∷ codes "index" ∷ [])
  elements (manifest_tag_index_entry name tag d) =
      repo name (codes "_manifests" ∷ codes "tags" ∷ tag ∷ codes "index" ∷ short d)
  elements (manifest_tag_index_entry_link name tag d) =
      repo name
        (codes "_manifests" ∷ codes "tags" ∷ tag ∷ codes "index" ∷ (short d ++ codes "link" ∷ []))
  elements (layer_link name d) = repo name (codes "_layers" ∷ (short d ++ codes "link" ∷ []))
  elements blobs = storage (codes "blobs" ∷ [])
  elements (blob d) = storage (codes "blobs" ∷ long d)
  elements (blob_data d) = storage (codes "blobs" ∷ (long d ++ codes "data" ∷ []))
  elements (upload_data name id) = repo name (codes "_uploads" ∷ id ∷ codes "data" ∷ [])
  elements (upload_started_at name id) = repo name (codes "_uploads" ∷ id ∷ codes "startedat" ∷ [])
  elements (upload_hash_state name id alg offset list) = []
  elements repositories_root = storage (codes "repositories" ∷ [])
  elements (repository_root name) = repo name []
