-- ===== src/Offline/Live/Swept.antt =====
-- What a whole run leaves on the storage backend.
use container_registry.Prelude.{List, [], ◌∷◌, some, ◌≡◌, refl, inl, inr, In, Result-cases, arith}
use container_registry.Offline.Tags.{Digest}
use container_registry.Offline.Mark.{ManifestDel}
use container_registry.Offline.Live.Planned.{LiveIn, plan_exact}
use container_registry.Offline.Plan.{
  Namespace, Options, Plan, plan, sweep_manifests, sweep_blobs, sweep, mark_and_sweep,
}
use container_registry.Vacuum.{FilePath, DigestText, Deleter, blob_data_path}
use container_registry.Vacuum.Kept.{remove_manifests-keeps, remove_blobs-keeps}

module _ (t : DigestText) (v : Deleter) (d : Digest) (p : FilePath)
    (e : blob_data_path t d ≡ some p) where
  open v use {Disk, has}

  sweep_manifests-keeps :
      (mm : List ManifestDel) (s : Disk) → has p (sweep_manifests t v mm s).1 ≡ has p s
  unfolding sweep_manifests
  sweep_manifests-keeps [] s = refl
  sweep_manifests-keeps (m ∷ mm) s = remove_manifests-keeps t v d p e (m ∷ mm) s

  sweep_blobs-keeps :
      (ds : List Digest) (s : Disk) → ¬ In d ds → has p (sweep_blobs t v ds s).1 ≡ has p s
  unfolding sweep_blobs
  sweep_blobs-keeps [] s n = refl
  sweep_blobs-keeps (x ∷ ds) s n = remove_blobs-keeps t v d p e (x ∷ ds) s n

  sweep-keeps : (q : Plan) (s : Disk) → ¬ In d q.blobs → has p (sweep t v q s).1 ≡ has p s
  unfolding sweep
  sweep-keeps q s n = ground (
    arith,
    sweep_manifests-keeps q.deletions s,
    sweep_blobs-keeps q.blobs (sweep_manifests t v q.deletions s).1 n,
  )

  -- A run, however it ends, leaves the data file of a valid digest as it was, if a repository keeps
  -- that digest alive.
  pub mark_and_sweep-keeps :
      (o : Options) (ns : Namespace) (s : Disk)
      → LiveIn o.remove_untagged ns ns.repositories d
      → has p (mark_and_sweep t v o ns s).1 ≡ has p s
  unfolding mark_and_sweep
  mark_and_sweep-keeps o ns s l = elim (Result-cases (plan o ns)) [
    | inl (q, h) ↦
        let kept = sweep-keeps q s (λ i. ((plan_exact o ns q h d).0 i).1 l) in
        ground (arith, h, kept)
    | inr (x, h) ↦ ground (arith, h)
  ]
