-- ===== src/Storage/Enumerate/Whole.antt =====
-- What the enumeration of the blobs finds.
use container_registry.Prelude.{
  ◌==◌, Bool, true, false, if◌then◌else◌, ok, List, ◌∷◌, [], ◌++◌, some, ◌≡◌, refl, ap, ◌∙◌, All,
  arith, take, map,
}
use container_registry.Prelude.Bytes.{Bytes, codes, bytes_eq, bytes_beq_iff}
use container_registry.Offline.Tags.{Digest}
use container_registry.Vacuum.{DigestText, FilePath}
use container_registry.Storage.Join.{path_split}
use container_registry.Storage.Join.Laws.{render}
use container_registry.Storage.Join.Parted.{path_split-last, render-last}
use container_registry.Storage.Paths.{DigestParts, path_for, blob_data, blob}
use container_registry.Storage.Paths.Proper.{IsValid, elements}
use container_registry.Storage.Paths.Elements.{path_for-elements}
use container_registry.Storage.Paths.Back.{digest_from_path-blob_data}
use container_registry.Storage.Driver.{FileInfo}
use container_registry.Storage.Stores.{Descriptor}
use container_registry.Storage.Enumerate.{walk_file, onto, enumerate}

module _ (t : DigestText) (p : DigestParts t) (ingest : Descriptor → Bool) where
  -- A data file of a valid digest that is a file and that the ingester takes, or another file or a
  -- directory, which the walk passes over.
  pub data Walked : Type 0 where
    stored : (d : Digest) → (path : FilePath) → (info : FileInfo) → Walked
    other : (path : FilePath) → (info : FileInfo) → Walked

  abbrev pub IsWalked : Walked → Type 0
  IsWalked (stored d path info) =
      IsValid t d
      × (path_for t (blob_data d) ≡ some path)
      × (info.is_dir ≡ false)
      × (ingest (record { size = info.size; media_type = []; digest = d }) ≡ true)
  IsWalked (other path info) =
      (if info.is_dir then false else (path_split path).1 == codes "data") ≡ false

  abbrev pub file_of : Walked → FilePath × FileInfo
  file_of (stored d path info) = (path, info)
  file_of (other path info) = (path, info)

  unfoldable pub digests_of : List Walked → List Digest
  digests_of [] = []
  digests_of (stored d path info ∷ ws) = d ∷ digests_of ws
  digests_of (other path info ∷ ws) = digests_of ws

  data_last :
      (d : Digest) (path : FilePath)
      → IsValid t d
      → path_for t (blob_data d) ≡ some path
      → (path_split path).1 ≡ codes "data"
  data_last d path v e =
      let text : path ≡ render (elements t (blob d)) ++ b'/' ∷ codes "data" = cc (
        e,
        path_for-elements t p (blob_data d) v,
        render-last (codes "docker")
            (codes "registry"
              ∷ codes "v2"
              ∷ codes "blobs"
              ∷ t.algorithm d
              ∷ take 2 (t.hex d)
              ∷ t.hex d
              ∷ [])
            (codes "data"),
      ) in
      ap (λ s. (path_split s).1) text
      ∙ ap (λ (s : Bytes × Bytes). s.1)
          (path_split-last (render (elements t (blob d))) (codes "data") (omega arith))

  walk-one :
      (w : Walked)
      → IsWalked w
      → walk_file t p ingest (file_of w).0 (file_of w).1 ≡ ok (digests_of (w ∷ []))
  unfolding walk_file digests_of
  walk-one (stored d path info) (v, e, plain, taken) =
      let last : ((path_split path).1 == codes "data") ≡ true =
        (bytes_beq_iff (path_split path).1 (codes "data")).1 (data_last d path v e) in
      rw (plain, last, digest_from_path-blob_data t p d v path e, taken) refl
  walk-one (other path info) h = ground (arith, h)

  digests-cons :
      (w : Walked) (ws : List Walked) → digests_of (w ∷ []) ++ digests_of ws ≡ digests_of (w ∷ ws)
  unfolding digests_of
  digests-cons (stored d path info) ws = refl
  digests-cons (other path info) ws = refl

  -- If a walk comes to data files of valid digests, each of which the ingester takes, and else only to
  -- directories and files of other names, then the enumeration ends without an error and has called
  -- the ingester for exactly those digests, in the order of the walk.
  pub enumerate-digests :
      (ws : List Walked)
      → All IsWalked ws
      → enumerate t p ingest (map file_of ws) ≡ ok (digests_of ws)
  unfolding enumerate digests_of
  enumerate-digests [] h = refl
  enumerate-digests (w ∷ ws) h =
      ap (λ r. onto t p ingest r (enumerate t p ingest (map file_of ws))) (walk-one w h.0)
      ∙ (ap (onto t p ingest (ok (digests_of (w ∷ [])))) (enumerate-digests ws h.1)
          ∙ ap ok (digests-cons w ws))
