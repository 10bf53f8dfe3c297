-- ===== src/Storage/Stores.antt =====
-- registry/storage/blobstore.go, linkedblobstore.go and tagstore.go over a storage driver. A call
-- that changes the disk returns an error, if any, and the disk; logs are left out.
pub mod Access
pub mod Cleared
pub mod Stored
pub mod Fetched
pub mod Kept
use container_registry.Prelude.{
  ℕ, ◌==◌, ltb, Bool, true, false, not, ◌||◌, if◌then◌else◌, Result, ok, err, ◌>>=◌, List, ◌∷◌, [],
  ◌++◌, Option, some, none, ◌≡◌, length, map, string_eq,
}
use container_registry.Prelude.Bytes.{Bytes, codes, bytes_eq}
use container_registry.Prelude.Sets.{contains}
use container_registry.Offline.Tags.{Digest}
use container_registry.Vacuum.{DigestText, FilePath}
use container_registry.Storage.Join.{path_split}
use container_registry.Storage.Paths.{
  PathSpec, manifest_tag, manifest_tag_current, manifest_tag_index_entry_link, layer_link,
  manifest_revision_link, blob_data, repository_root, DigestParts, path_for,
}
use container_registry.Storage.Driver.{Fault, path_not_found, other_fault, FileInfo, Driver}

pub data StoreError : Type 0 where
  driver_error : Fault → StoreError
  invalid_digest repository_unknown tag_unknown blob_unknown unsupported over_limit : StoreError

pub record Descriptor : Type 0 where
  pub size : ℕ
  pub media_type : Bytes
  pub digest : Digest

abbrev pub from_driver : {A : Type 0} → Result Fault A → Result StoreError A
from_driver (ok a) = ok a
from_driver (err e) = err (driver_error e)

abbrev pub Written : Type 0 → Type 0
Written Disk = Option StoreError × Disk

abbrev pub fault_of : Option Fault → Option StoreError
fault_of none = none
fault_of (some e) = some (driver_error e)

-- one write, and another behind it if there was no error
abbrev pub then_write : {Disk : Type 0} → Written Disk → (Disk → Written Disk) → Written Disk
then_write (none, s) f = f s
then_write (some e, s) f = (some e, s)

-- a path that is not formed stops with the error of the digest
abbrev pub at_path :
    {Disk : Type 0} → Option FilePath → (FilePath → Disk → Written Disk) → Disk → Written Disk
at_path none f s = (some invalid_digest, s)
at_path (some path) f s = f path s

abbrev pub path_or_error : Option FilePath → Result StoreError FilePath
path_or_error none = err invalid_digest
path_or_error (some path) = ok path

-- `linkPathFunc`
abbrev pub LinkPath : Type 0
LinkPath = Bytes → Digest → Option FilePath

-- `maxBlobGetSize`
abbrev pub max_blob_get_size : ℕ
max_blob_get_size = 4194304

abbrev pub limited : Bytes → Result StoreError Bytes
limited c = if ltb max_blob_get_size (length c) then err over_limit else ok c

abbrev pub no_blob : {A : Type 0} → Result Fault A → Result StoreError A
no_blob (ok a) = ok a
no_blob (err path_not_found) = err blob_unknown
no_blob (err other_fault) = err (driver_error other_fault)

module _ (t : DigestText) (p : DigestParts t) (v : Driver) where
  -- `link`
  unfoldable pub link : FilePath → Digest → v.Disk → Written v.Disk
  link path d s = let (e, s') = v.put_content path (codes d) s in (fault_of e, s')

  abbrev pub parsed : Option Digest → Result StoreError Digest
  parsed none = err invalid_digest
  parsed (some d) = ok d

  -- `readlink`
  unfoldable pub readlink : FilePath → v.Disk → Result StoreError Digest
  readlink path s = from_driver (v.get_content path s) >>= λ content. parsed (p.parse content)

  -- `exists`
  abbrev pub found : Result Fault FileInfo → Result StoreError Bool
  found (ok info) = ok true
  found (err path_not_found) = ok false
  found (err other_fault) = err (driver_error other_fault)

  unfoldable pub exists : FilePath → v.Disk → Result StoreError Bool
  exists path s = found (v.stat path s)

  -- `blobStore.Get`, by `getContent` with its limit: reading a file from its start is taken to give
  -- its content
  unfoldable pub get_blob : Digest → v.Disk → Result StoreError Bytes
  get_blob d s = path_or_error (path_for t (blob_data d)) >>= λ path.
      no_blob (v.get_content path s) >>= limited

  abbrev pub describe : Digest → FileInfo → Result StoreError Descriptor
  describe d info =
      if info.is_dir
      then err blob_unknown
      else ok
          (record { size = info.size; media_type = codes "application/octet-stream"; digest = d })

  -- `blobStatter.Stat`
  unfoldable pub stat_blob : Digest → v.Disk → Result StoreError Descriptor
  stat_blob d s =
      path_or_error (path_for t (blob_data d)) >>= λ path. no_blob (v.stat path s) >>= describe d

  abbrev pub new_descriptor : Digest → Bytes → Descriptor
  new_descriptor d content = record {
    size = length content;
    media_type = codes "application/octet-stream";
    digest = d;
  }

  abbrev pub put_done : Descriptor → Option Fault × v.Disk → Result StoreError Descriptor × v.Disk
  put_done desc (none, s) = (ok desc, s)
  put_done desc (some e, s) = (err (driver_error e), s)

  abbrev pub put_at :
      Option FilePath → Digest → Bytes → v.Disk → Result StoreError Descriptor × v.Disk
  put_at none d content s = (err invalid_digest, s)
  put_at (some path) d content s =
      put_done (new_descriptor d content) (v.put_content path content s)

  abbrev pub put_unless :
      Result StoreError Descriptor → Digest → Bytes → v.Disk → Result StoreError Descriptor × v.Disk
  put_unless (ok desc) d content s = (ok desc, s)
  put_unless (err blob_unknown) d content s = put_at (path_for t (blob_data d)) d content s
  put_unless (err e) d content s = (err e, s)

  -- `blobStore.Put`
  unfoldable pub put_blob : Bytes → v.Disk → Result StoreError Descriptor × v.Disk
  put_blob content s = let d = p.from_bytes content in put_unless (stat_blob d s) d content s

  -- the loop of `linkBlob`, with `seenDigests`
  unfoldable pub link_each :
      LinkPath → Bytes → Digest → List Digest → List Digest → v.Disk → Written v.Disk
  unfolding link contains
  link_each f name canonical seen [] s = (none, s)
  link_each f name canonical seen (d ∷ ds) s = elim (contains seen d) [
    | true ↦ link_each f name canonical seen ds s
    | false ↦
        then_write (at_path (f name d) (λ path. link path canonical) s)
          (λ s. link_each f name canonical (d ∷ seen) ds s)
  ]

  -- `linkBlob`
  unfoldable pub link_blob : LinkPath → Bytes → Digest → List Digest → v.Disk → Written v.Disk
  unfolding link_each
  link_blob f name canonical aliases s = link_each f name canonical [] (canonical ∷ aliases) s

  -- `resolveWithLinkFunc`
  abbrev pub resolve_with : Bytes → Digest → v.Disk → LinkPath → Result StoreError Digest
  resolve_with name d s f = path_or_error (f name d) >>= λ path. readlink path s

  abbrev pub first_found :
      Result StoreError Digest → Result StoreError Digest → Result StoreError Digest
  first_found (ok target) rest = ok target
  first_found (err (driver_error path_not_found)) rest = rest
  first_found (err e) rest = err e

  -- the first of the links that is found
  unfoldable pub find_target : Bytes → Digest → v.Disk → List LinkPath → Result StoreError Digest
  find_target name d s [] = err blob_unknown
  find_target name d s (f ∷ fs) = first_found (resolve_with name d s f) (find_target name d s fs)

  -- `linkedBlobStatter.Stat`
  unfoldable pub stat_linked :
      List LinkPath → Bytes → Digest → v.Disk → Result StoreError Descriptor
  stat_linked fs name d s = find_target name d s fs >>= λ target. stat_blob target s

  abbrev pub skip_absent : Option Fault → Option StoreError
  skip_absent none = none
  skip_absent (some path_not_found) = none
  skip_absent (some other_fault) = some (driver_error other_fault)

  abbrev pub delete_link : FilePath → v.Disk → Written v.Disk
  delete_link path s = let (e, s') = v.delete path s in (skip_absent e, s')

  -- `linkedBlobStatter.Clear`
  unfoldable pub clear : List LinkPath → Bytes → Digest → v.Disk → Written v.Disk
  clear [] name d s = (none, s)
  clear (f ∷ fs) name d s = then_write (at_path (f name d) delete_link s) (λ s. clear fs name d s)

  -- `linkedBlobStore.Get` and `Put`, with `linkedBlobStatter` for the access control
  unfoldable pub get_linked : List LinkPath → Bytes → Digest → v.Disk → Result StoreError Bytes
  get_linked fs name d s = stat_linked fs name d s >>= λ canonical. get_blob canonical.digest s

  abbrev pub link_done : Descriptor → Written v.Disk → Result StoreError Descriptor × v.Disk
  link_done desc (none, s) = (ok desc, s)
  link_done desc (some e, s) = (err e, s)

  abbrev pub link_put :
      LinkPath
      → Bytes
      → Result StoreError Descriptor × v.Disk
      → Result StoreError Descriptor × v.Disk
  link_put f name (err e, s) = (err e, s)
  link_put f name (ok desc, s) = link_done desc (link_blob f name desc.digest [] s)

  unfoldable pub put_linked :
      LinkPath → Bytes → Bytes → v.Disk → Result StoreError Descriptor × v.Disk
  put_linked f name content s = link_put f name (put_blob content s)

  -- `linkedBlobStore.Delete`
  unfoldable pub delete_linked : Bool → List LinkPath → Bytes → Digest → v.Disk → Written v.Disk
  delete_linked enabled fs name d s =
      if not enabled
      then (some unsupported, s)
      else elim (stat_linked fs name d s) [ err e ↦ (some e, s) | ok desc ↦ clear fs name d s ]

  -- `blobLinkPath` and `manifestRevisionLinkPath`
  abbrev pub blob_link_path : LinkPath
  blob_link_path name d = path_for t (layer_link name d)

  abbrev pub manifest_revision_link_path : LinkPath
  manifest_revision_link_path name d = path_for t (manifest_revision_link name d)
