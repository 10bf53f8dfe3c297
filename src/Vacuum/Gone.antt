-- ===== src/Vacuum/Gone.antt =====
-- What the vacuum's deletion of blobs removes.
use container_registry.Prelude.{
  false, List, [], ◌∷◌, some, ◌≡◌, inl, inr, In, here, there, In-cons, Option-cases, arith,
}
use container_registry.Offline.Tags.{Digest}
use container_registry.Vacuum.{
  FilePath, DigestText, Deleter, succeeded, blob_data_path, blob_data_paths, remove_blobs,
}

module _ (t : DigestText) (d : Digest) (p : FilePath) (e : blob_data_path t d ≡ some p) where
  In-blob_paths :
      (ds : List Digest) {ps : List FilePath} → In d ds → blob_data_paths t ds ≡ some ps → In p ps
  unfolding blob_data_paths
  In-blob_paths (x ∷ ds) {ps} i h = elim (Option-cases (blob_data_path t x)) [
    | inl n ↦ ground (arith, n)
    | inr (q, found) ↦ elim (Option-cases (blob_data_paths t ds)) [
      | inl n ↦ ground (arith, found, n)
      | inr (qs, rest) ↦
          let same : ps ≡ q ∷ qs = ground (arith, found, rest) in
          rw same (elim (In-cons i) [
            | inl now ↦ let p' : p ≡ q = cc (e, found, now) in rw p' here
            | inr later ↦ there (In-blob_paths ds later rest)
          ])
    ]
  ]
  In-blob_paths [] i h = elim i [ ]

  -- If deleting blobs succeeds, the data file of each of them is gone.
  pub remove_blobs-gone :
      (v : Deleter) (ds : List Digest) (s : v.Disk)
      → In d ds
      → (remove_blobs t v ds s).0 ≡ succeeded
      → v.has p (remove_blobs t v ds s).1 ≡ false
  unfolding remove_blobs
  remove_blobs-gone v ds s i h = elim (Option-cases (blob_data_paths t ds)) [
    | inl n ↦ ground (arith, n)
    | inr (ps, found) ↦ ground (arith, found, v.delete_files_gone ps p s, In-blob_paths ds i found)
  ]
