-- ===== src/Storage/Tags.antt =====
-- registry/storage/tagstore.go: the tags of a repository as link files.
pub mod Changes
pub mod Tagged
pub mod Untagged
pub mod Refined
use container_registry.Prelude.{
  ◌==◌, Bool, true, false, if◌then◌else◌, Result, ok, err, ◌>>=◌, List, ◌∷◌, [], ◌++◌, Option, some,
  none, ◌≡◌, map, string_eq,
}
use container_registry.Prelude.Bytes.{Bytes, codes}
use container_registry.Offline.Tags.{Digest}
use container_registry.Vacuum.{DigestText, FilePath}
use container_registry.Storage.Join.{path_split}
use container_registry.Storage.Paths.{
  PathSpec, manifest_tag, manifest_tag_current, manifest_tag_index_entry_link, repository_root,
  DigestParts, path_for,
}
use container_registry.Storage.Driver.{Fault, path_not_found, other_fault, Driver}
use container_registry.Storage.Stores.{
  StoreError, driver_error, invalid_digest, repository_unknown, tag_unknown, blob_unknown,
  unsupported, over_limit, Written, then_write, at_path, path_or_error, fault_of, LinkPath, link,
  readlink, exists, link_blob,
}

module _ (t : DigestText) (p : DigestParts t) (v : Driver) (name : Bytes) where
  -- the entry of the index, where `linkedBlobStore(tag)` links
  abbrev pub index_link : Bytes → LinkPath
  index_link tag n d = path_for t (manifest_tag_index_entry_link n tag d)

  abbrev pub tag_at : Option FilePath → Bytes → Digest → v.Disk → Written v.Disk
  tag_at current tag d s =
      at_path current
        (λ path s. then_write (link_blob t p v (index_link tag) name d [] s) (link t p v path d)) s

  -- `Tag`
  unfoldable pub tag : Bytes → Digest → v.Disk → Written v.Disk
  tag text d s = tag_at (path_for t (manifest_tag_current name text)) text d s

  abbrev pub or_unknown : Result StoreError Digest → Result StoreError Digest
  or_unknown (err (driver_error path_not_found)) = err tag_unknown
  or_unknown r = r

  abbrev pub current_of : Bytes → v.Disk → Result StoreError Digest
  current_of text s =
      path_or_error (path_for t (manifest_tag_current name text)) >>= λ path. readlink t p v path s

  -- `Get`
  unfoldable pub get : Bytes → v.Disk → Result StoreError Digest
  get text s = or_unknown (current_of text s)

  -- `tagStore.exists`
  unfoldable pub exists_tag : Bytes → v.Disk → Result StoreError Bool
  exists_tag text s =
      path_or_error (path_for t (manifest_tag_current name text)) >>= λ path. exists t p v path s

  abbrev pub delete_path : FilePath → v.Disk → Written v.Disk
  delete_path path s = let (e, s') = v.delete path s in (fault_of e, s')

  abbrev pub untag_if : Result StoreError Bool → Bytes → v.Disk → Written v.Disk
  untag_if (err e) text s = (some e, s)
  untag_if (ok false) text s = (some repository_unknown, s)
  untag_if (ok true) text s = at_path (path_for t (manifest_tag name text)) delete_path s

  -- `Untag`
  unfoldable pub untag : Bytes → v.Disk → Written v.Disk
  untag text s =
      at_path (path_for t (repository_root name)) (λ path s. untag_if (exists t p v path s) text s)
        s

  abbrev pub listed : Result Fault (List FilePath) → Result StoreError (List Bytes)
  listed (ok paths) = ok (map (λ path. (path_split path).1) paths)
  listed (err path_not_found) = err repository_unknown
  listed (err other_fault) = err (driver_error other_fault)

  -- `All`: the specification of a tag without a tag is the directory of the tags
  unfoldable pub all_tags : v.Disk → Result StoreError (List Bytes)
  all_tags s = path_or_error (path_for t (manifest_tag name [])) >>= λ path. listed (v.list path s)

  abbrev pub or_none : Result StoreError (List Bytes) → Result StoreError (List Bytes)
  or_none (err repository_unknown) = ok []
  or_none r = r

  abbrev pub note_tag :
      Digest
      → Bytes
      → Result StoreError Digest
      → Result StoreError (List Bytes)
      → Result StoreError (List Bytes)
  note_tag d text (ok found) rest = rest >>= λ tags. ok (if found == d then text ∷ tags else tags)
  note_tag d text (err (driver_error path_not_found)) rest = rest
  note_tag d text (err e) rest = err e

  -- the loop of `Lookup`
  unfoldable pub lookup_each : Digest → List Bytes → v.Disk → Result StoreError (List Bytes)
  lookup_each d [] s = ok []
  lookup_each d (text ∷ texts) s = note_tag d text (current_of text s) (lookup_each d texts s)

  -- `Lookup`
  unfoldable pub lookup_tags : Digest → v.Disk → Result StoreError (List Bytes)
  lookup_tags d s = or_none (all_tags s) >>= λ texts. lookup_each d texts s
