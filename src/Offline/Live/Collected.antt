-- ===== src/Offline/Live/Collected.antt =====
-- What a whole run removes from the storage backend.
use container_registry.Prelude.{false, List, [], ◌∷◌, some, ◌≡◌, inl, inr, In, Result-cases, arith}
use container_registry.Offline.Tags.{Digest}
use container_registry.Offline.Live.Planned.{LiveIn, plan_exact}
use container_registry.Offline.Plan.{
  Namespace, Options, Plan, plan, sweep_manifests, sweep_blobs, sweep, done, mark_and_sweep,
}
use container_registry.Vacuum.{FilePath, DigestText, Deleter, succeeded, blob_data_path}
use container_registry.Vacuum.Gone.{remove_blobs-gone}

module _ (t : DigestText) (v : Deleter) (d : Digest) (p : FilePath)
    (e : blob_data_path t d ≡ some p) where
  open v use {Disk, has}

  sweep_blobs-gone :
      (ds : List Digest) (s : Disk)
      → In d ds
      → (sweep_blobs t v ds s).0 ≡ succeeded
      → has p (sweep_blobs t v ds s).1 ≡ false
  unfolding sweep_blobs
  sweep_blobs-gone [] s i h = elim i [ ]
  sweep_blobs-gone (x ∷ ds) s i h = remove_blobs-gone t d p e v (x ∷ ds) s i h

  sweep-gone :
      (q : Plan) (s : Disk)
      → In d q.blobs
      → (sweep t v q s).0 ≡ succeeded
      → has p (sweep t v q s).1 ≡ false
  unfolding sweep
  sweep-gone q s i h =
      ground (arith, sweep_blobs-gone q.blobs (sweep_manifests t v q.deletions s).1 i)

  -- A run that is no dry run and ends without an error has removed the data file of each enumerated
  -- blob that no repository keeps alive, if its digest is valid.
  pub mark_and_sweep-removes :
      (o : Options) (ns : Namespace) (s : Disk)
      → o.dry_run ≡ false
      → (mark_and_sweep t v o ns s).0 ≡ done
      → In d ns.blobs.items
      → ¬ LiveIn o.remove_untagged ns ns.repositories d
      → has p (mark_and_sweep t v o ns s).1 ≡ false
  unfolding mark_and_sweep
  mark_and_sweep-removes o ns s wet h i dead = elim (Result-cases (plan o ns)) [
    | inl (q, planned) ↦
        let planned_blob = (plan_exact o ns q planned d).1 (i, dead) in
        ground (arith, planned, wet, sweep-gone q s planned_blob)
    | inr (x, failing) ↦ ground (arith, failing)
  ]
