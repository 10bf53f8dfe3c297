-- ===== src/Vacuum/Kept.antt =====
-- What the vacuum's calls of the storage driver leave alone.
use container_registry.Prelude.{List, [], ◌∷◌, some, ◌≡◌, refl, inl, inr, In, Option-cases, arith}
use container_registry.Offline.Tags.{Digest}
use container_registry.Offline.Mark.{ManifestDel}
use container_registry.Vacuum.{
  FilePath, DigestText, Deleter, blob_data_path, blob_data_paths, all_links, remove_blobs,
  delete_links, remove_manifests_batch, remove_batches, batches, remove_manifests,
}
use container_registry.Vacuum.Paths.{
  blob_not-IsLink, blob_data_path-injective, all_links-IsLink, In-blob_data_paths,
}

module _ (t : DigestText) (v : Deleter) (d : Digest) (p : FilePath)
    (e : blob_data_path t d ≡ some p) where
  open v use {Disk, has}

  delete_links-keeps :
      (ps : List FilePath) (s : Disk) → ¬ In p ps → has p (delete_links t v ps s).1 ≡ has p s
  unfolding delete_links
  delete_links-keeps [] s n = refl
  delete_links-keeps (q ∷ ps) s n = v.delete_files_only (q ∷ ps) p s n

  batch-keeps :
      (mm : List ManifestDel) (s : Disk) → has p (remove_manifests_batch t v mm s).1 ≡ has p s
  unfolding remove_manifests_batch
  batch-keeps mm s =
      delete_links-keeps (all_links t mm) s (λ i. blob_not-IsLink t d e (all_links-IsLink t mm i))

  batches-keeps :
      (bs : List (List ManifestDel)) (s : Disk) → has p (remove_batches t v bs s).1 ≡ has p s
  unfolding remove_batches
  batches-keeps [] s = refl
  batches-keeps (b ∷ bs) s =
      ground (arith, batch-keeps b s, batches-keeps bs (remove_manifests_batch t v b s).1)

  -- Deleting manifests deletes no blob.
  pub remove_manifests-keeps :
      (mm : List ManifestDel) (s : Disk) → has p (remove_manifests t v mm s).1 ≡ has p s
  unfolding remove_manifests
  remove_manifests-keeps mm s = batches-keeps (batches mm) s

  -- Deleting blobs deletes no other blob.
  pub remove_blobs-keeps :
      (ds : List Digest) (s : Disk) → ¬ In d ds → has p (remove_blobs t v ds s).1 ≡ has p s
  unfolding remove_blobs
  remove_blobs-keeps ds s n = elim (Option-cases (blob_data_paths t ds)) [
    | inl h ↦ ground (arith, h)
    | inr (ps, h) ↦
        let kept = v.delete_files_only ps p s (λ i.
          let (d', j, e') = In-blob_data_paths t ds h i in
          let same : d' ≡ d = blob_data_path-injective t d' d e' e in n (rw same at j)) in
        ground (arith, h, kept)
  ]
