-- ===== src/Vacuum.antt =====
-- registry/storage/vacuum.go: the paths that garbage collection deletes, and the calls of the
-- storage driver that delete them; from paths.go the paths of blobs.
pub mod Paths
pub mod Batches
pub mod Kept
pub mod Gone
use container_registry.Prelude.{
  ℕ, zero, suc, ◌+◌, ◌-◌, ltb, Bool, true, false, not, if◌then◌else◌, Result, ok, err, ◌>>=◌, List,
  [], ◌∷◌, ◌++◌, Option, none, some, String, map, ◌≡◌, ◌≢◌, In, length, take, drop, ◌==◌, nat_eq,
  ◌||◌,
}
use container_registry.Prelude.Bytes.{Bytes, codes, Lacks}
use container_registry.Offline.Tags.{Digest}
use container_registry.Offline.Mark.{ManifestDel}

abbrev pub FilePath : Type 0
FilePath = Bytes

-- github.com/opencontainers/go-digest: `Validate`, `Algorithm().String()` and `Hex()`. A digest
-- that it accepts reads `algorithm:hex`, with a registered algorithm and a hexadecimal text.
pub record DigestText : Type 0 where
  pub validate : Digest → Bool
  pub algorithm : Digest → Bytes
  pub hex : Digest → Bytes
  pub plain_algorithm :
      (d : Digest)
      → validate d ≡ true
      → Lacks b'/' (algorithm d)
        × Lacks b'+' (algorithm d)
        × Lacks b'.' (algorithm d)
        × Lacks b';' (algorithm d)
  pub named : (d : Digest) → validate d ≡ true → algorithm d ≢ []
  pub plain_hex : (d : Digest) → validate d ≡ true → Lacks b'/' (hex d)
  pub two_parts :
      (a b : Digest)
      → validate a ≡ true
      → validate b ≡ true
      → algorithm a ≡ algorithm b
      → hex a ≡ hex b
      → a ≡ b

-- What a call of the driver comes to. Only whether there was an error is looked at.
pub data Answer : Type 0 where
  succeeded failed panicked : Answer

-- `driver.StorageDeleter`: deleting files changes none but those listed,
-- and without an error they are gone.
pub record Deleter : Type 1 where
  pub Disk : Type 0
  pub has : FilePath → Disk → Bool
  pub delete : FilePath → Disk → Answer × Disk
  pub delete_files : List FilePath → Disk → Answer × Disk
  pub delete_files_only :
      (ps : List FilePath) (p : FilePath) (s : Disk)
      → (In p ps → ⊥)
      → has p (delete_files ps s).1 ≡ has p s
  pub delete_files_gone :
      (ps : List FilePath) (p : FilePath) (s : Disk)
      → (delete_files ps s).0 ≡ succeeded
      → In p ps
      → has p (delete_files ps s).1 ≡ false

-- `blobAlgorithmReplacer`
abbrev pub replace_algorithm : Bytes → Bytes
replace_algorithm = map (λ c. if c == b'+' || c == b'.' || c == b';' then b'/' else c)

module _ (t : DigestText) where
  -- `digestPathComponents(d, true)`, joined and with `rest` behind; none if the digest is invalid
  unfoldable pub digest_path : Digest → Bytes → Option Bytes
  digest_path d rest =
      if not (t.validate d)
      then none
      else some (
          replace_algorithm (t.algorithm d)
          ++ b'/' ∷ (take 2 (t.hex d) ++ b'/' ∷ (t.hex d ++ rest)))

  -- `pathFor(blobPathSpec{digest: d})` and `pathFor(blobDataPathSpec{digest: d})`
  abbrev pub blob_path : Digest → Option FilePath
  blob_path d = elim (digest_path d []) [
    | none ↦ none
    | some p ↦ some (codes "/docker/registry/v2/blobs/" ++ p)
  ]

  unfoldable pub blob_data_path : Digest → Option FilePath
  unfolding digest_path
  blob_data_path d = elim (digest_path d (codes "/data")) [
    | none ↦ none
    | some p ↦ some (codes "/docker/registry/v2/blobs/" ++ p)
  ]

  -- the two paths that `removeManifestsBatch` builds by hand
  unfoldable pub link_tail : Digest → Bytes
  link_tail d = t.algorithm d ++ b'/' ∷ (t.hex d ++ codes "/link")

  unfoldable pub manifest_link : ManifestDel → FilePath
  manifest_link m =
      codes "/docker/registry/v2/repositories/"
      ++ (codes m.name ++ (codes "/_manifests/revisions/" ++ link_tail m.digest))

  unfoldable pub tag_link : ManifestDel → String → FilePath
  tag_link m tag =
      codes "/docker/registry/v2/repositories/"
      ++ (codes m.name
          ++ (codes "/_manifests/tags/" ++ (codes tag ++ (codes "/index/" ++ link_tail m.digest))))

  unfoldable pub tag_links : List ManifestDel → List FilePath
  tag_links [] = []
  tag_links (m ∷ mm) = map (tag_link m) m.tags ++ tag_links mm

  -- `manifestLinks` followed by `tagLinks`
  unfoldable pub all_links : List ManifestDel → List FilePath
  all_links mm = map manifest_link mm ++ tag_links mm

  -- `blobPaths` of `RemoveBlobs`; none if one of the digests is invalid
  unfoldable pub blob_data_paths : List Digest → Option (List FilePath)
  blob_data_paths [] = some []
  blob_data_paths (d ∷ ds) = elim (blob_data_path d) [
    | none ↦ none
    | some p ↦ elim (blob_data_paths ds) [ none ↦ none | some ps ↦ some (p ∷ ps) ]
  ]

  module _ (v : Deleter) where
    open v use {Disk, delete, delete_files}

    abbrev pub remove_blob : Digest → Disk → Answer × Disk
    remove_blob d s = elim (blob_path d) [ none ↦ (failed, s) | some p ↦ delete p s ]

    unfoldable pub remove_blobs : List Digest → Disk → Answer × Disk
    remove_blobs ds s = elim (blob_data_paths ds) [
      | none ↦ (failed, s)
      | some ps ↦ delete_files ps s
    ]

    -- the deferred `recover` makes a panic a success
    abbrev recovered : Answer → Answer
    recovered panicked = succeeded
    recovered a = a

    unfoldable pub delete_links : List FilePath → Disk → Answer × Disk
    delete_links [] s = (succeeded, s)
    delete_links (p ∷ ps) s = let (a, s') = delete_files (p ∷ ps) s in (recovered a, s')

    unfoldable pub remove_manifests_batch : List ManifestDel → Disk → Answer × Disk
    unfolding delete_links
    remove_manifests_batch mm s = delete_links (all_links mm) s

    -- the body of the loop of `RemoveManifests`, over the batches in order; an error ends it
    unfoldable pub remove_batches : List (List ManifestDel) → Disk → Answer × Disk
    remove_batches [] s = (succeeded, s)
    remove_batches (b ∷ bs) s =
        let (a, s') = remove_manifests_batch b s in
        elim a [
          | succeeded ↦ remove_batches bs s'
          | failed ↦ (failed, s')
          | panicked ↦ (panicked, s')
        ]

abbrev pub max_batch_size : ℕ
max_batch_size = 100

abbrev pub min : ℕ → ℕ → ℕ
min a b = if ltb a b then a else b

-- the slices `mm[i:min(i+maxBatchSize, totalToDelete)]` of the loop from `i` on, with fuel
unfoldable pub batches_from : List ManifestDel → ℕ → ℕ → List (List ManifestDel)
batches_from mm zero i = []
batches_from mm (suc fuel) i =
    let total = length mm in
    let batch = take (min (i + max_batch_size) total - i) (drop i mm) in
    elim (ltb i total) [ true ↦ batch ∷ batches_from mm fuel (i + max_batch_size) | false ↦ [] ]

unfoldable pub batches : List ManifestDel → List (List ManifestDel)
unfolding batches_from
batches mm = batches_from mm (length mm) 0

module _ (t : DigestText) (v : Deleter) where
  open v use {Disk}

  unfoldable pub remove_manifests : List ManifestDel → Disk → Answer × Disk
  unfolding batches remove_batches remove_manifests_batch
  remove_manifests mm s = remove_batches t v (batches mm) s
