-- ===== src/Storage/Enumerate.antt =====
-- registry/storage/blobstore.go: `Enumerate`, and from linkedblobstore.go `mount`. The files that the
-- driver walks are a list, in any order; the walk ends at the first error.
pub mod Whole
use container_registry.Prelude.{
  ◌==◌, Bool, true, false, if◌then◌else◌, Result, ok, err, ◌>>=◌, List, ◌∷◌, [], ◌++◌, Option, some,
  none, ◌≡◌,
}
use container_registry.Prelude.Bytes.{Bytes, codes, bytes_eq}
use container_registry.Offline.Tags.{Digest}
use container_registry.Vacuum.{DigestText, FilePath}
use container_registry.Storage.Join.{path_split}
use container_registry.Storage.Paths.{DigestParts, digest_from_path}
use container_registry.Storage.Driver.{FileInfo, Driver}
use container_registry.Storage.Stores.{
  StoreError, Descriptor, LinkPath, Written, stat_linked, link_blob, blob_link_path,
}

-- How a walk ends early: with an error of the store or of the ingester, or with a panic.
pub data Stopped : Type 0 where
  not_a_digest refused panicked : Stopped

module _ (t : DigestText) (p : DigestParts t) (ingest : Descriptor → Bool) where
  abbrev pub ingested : FileInfo → Option (Digest × Bool) → Result Stopped (List Digest)
  ingested info none = err panicked
  ingested info (some (d, true)) = err not_a_digest
  ingested info (some (d, false)) =
      if ingest (record { size = info.size; media_type = []; digest = d })
      then ok (d ∷ [])
      else err refused

  -- one file of the walk
  unfoldable pub walk_file : FilePath → FileInfo → Result Stopped (List Digest)
  walk_file path info =
      if info.is_dir
      then ok []
      else if (path_split path).1 == codes "data"
      then ingested info (digest_from_path t p path)
      else ok []

  abbrev pub onto :
      Result Stopped (List Digest) → Result Stopped (List Digest) → Result Stopped (List Digest)
  onto first rest = first >>= λ ds. rest >>= λ es. ok (ds ++ es)

  -- `Enumerate`: the digests for which the ingester is called
  unfoldable pub enumerate : List (FilePath × FileInfo) → Result Stopped (List Digest)
  enumerate [] = ok []
  enumerate ((path, info) ∷ rest) = onto (walk_file path info) (enumerate rest)

module _ (t : DigestText) (p : DigestParts t) (v : Driver) where
  abbrev pub source_stat :
      Bytes → Digest → Option Descriptor → v.Disk → Result StoreError Descriptor
  source_stat source d none s = stat_linked t p v (blob_link_path t p v ∷ []) source d s
  source_stat source d (some desc) s = ok desc

  abbrev pub mounted :
      LinkPath
      → Bytes
      → Digest
      → Result StoreError Descriptor
      → v.Disk
      → Result StoreError Descriptor × Written v.Disk
  mounted f name d (err e) s = (err e, (some e, s))
  mounted f name d (ok stat) s = (
    ok (record { size = stat.size; media_type = codes "application/octet-stream"; digest = d }),
    link_blob t p v f name d [] s,
  )

  -- `mount`: the descriptor, and what linking the blob comes to
  unfoldable pub mount :
      LinkPath
      → Bytes
      → Bytes
      → Digest
      → Option Descriptor
      → v.Disk
      → Result StoreError Descriptor × Written v.Disk
  mount f name source d stat s = mounted f name d (source_stat source d stat s) s
