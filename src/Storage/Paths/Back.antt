-- ===== src/Storage/Paths/Back.antt =====
-- The digest is read back from the path of its data file.
use container_registry.Prelude.{
  ℕ, ◌==◌, ◌≤◌, true, false, List, [], ◌∷◌, ◌++◌, some, ◌≡◌, ◌≢◌, refl, ap, ◌∙◌, All, arith, take,
  drop, length,
}
use container_registry.Prelude.Bytes.{Bytes, codes, bytes_eq, bytes_beq_iff}
use container_registry.Offline.Tags.{Digest}
use container_registry.Vacuum.{DigestText, FilePath}
use container_registry.Storage.Join.{join_slash, path_split, path_dir, path_base}
use container_registry.Storage.Join.Laws.{IsElement, render}
use container_registry.Storage.Join.Parted.{
  path_split-last, render-last, path_dir-render, path_base-last,
}
use container_registry.Storage.Paths.{
  blob, blob_data, DigestParts, path_for, trim_data, digest_from_path, digest_in, digest_of,
}
use container_registry.Storage.Paths.Plain.{storage}
use container_registry.Storage.Paths.Proper.{IsValid}
use container_registry.Storage.Paths.Elements.{elements-IsElement, path_for-elements}

longer : (c : ℕ) (s : Bytes) → ((c ∷ s ++ codes "/data") == codes "/data") ≡ false
longer c s = ground (arith, too_long, bytes_beq_iff (c ∷ s ++ codes "/data") (codes "/data"))
  where
    measured : (s : Bytes) → 5 ≤ length (s ++ codes "/data")
    measured [] = omega arith
    measured (x ∷ s) = omega (arith, measured s)

    too_long : (c ∷ s ++ codes "/data") ≢ codes "/data"
    too_long e = omega (arith, measured s, ap length e)

trim_data-lem : (s : Bytes) → trim_data (s ++ codes "/data") ≡ s
unfolding trim_data
trim_data-lem [] = refl
trim_data-lem (c ∷ s) = rw (longer c s) (ap (λ r. c ∷ r) (trim_data-lem s))

long_drop : (s : Bytes) → 2 ≤ length s → (c : ℕ) × (cs : Bytes) × (drop 1 s ≡ c ∷ cs)
long_drop [] h = absurd (omega (arith, h))
long_drop (x ∷ []) h = absurd (omega (arith, h))
long_drop (x ∷ c ∷ cs) h = (c, cs, refl)

module _ (t : DigestText) (p : DigestParts t) (d : Digest) (v : IsValid t d) where
  abbrev outer : List Bytes
  outer = storage (codes "blobs" ∷ [])

  abbrev named : List Bytes
  named = outer ++ t.algorithm d ∷ []

  abbrev inner : List Bytes
  inner = outer ++ t.algorithm d ∷ take 2 (t.hex d) ∷ []

  -- A valid digest is what `digestFromPath` finds in the path of its data file.
  pub digest_from_path-blob_data :
      (path : FilePath)
      → path_for t (blob_data d) ≡ some path
      → digest_from_path t p path ≡ some (d, false)
  unfolding digest_from_path
  digest_from_path-blob_data path e =
      let h = elements-IsElement t p (blob d) v in
      let hex = h.1.1.1.1.1.1.0 in
      let two = h.1.1.1.1.1.0 in
      let algorithm = h.1.1.1.1.0 in
      let inner_elements : All IsElement inner =
        (h.0, (h.1.0, (h.1.1.0, (h.1.1.1.0, (algorithm, (two, tt)))))) in
      let text : path ≡ (render inner ++ b'/' ∷ t.hex d) ++ codes "/data" = cc (
        e,
        path_for-elements t p (blob_data d) v,
        render-last (codes "docker")
            (codes "registry"
              ∷ codes "v2"
              ∷ codes "blobs"
              ∷ t.algorithm d
              ∷ take 2 (t.hex d)
              ∷ t.hex d
              ∷ [])
            (codes "data"),
        render-last (codes "docker")
            (codes "registry" ∷ codes "v2" ∷ codes "blobs" ∷ t.algorithm d ∷ take 2 (t.hex d) ∷ [])
            (t.hex d),
      ) in
      let trimmed : trim_data path ≡ render inner ++ b'/' ∷ t.hex d =
        ap trim_data text ∙ trim_data-lem (render inner ++ b'/' ∷ t.hex d) in
      let above : path_split (path_dir (render inner ++ b'/' ∷ []))
          ≡ (render named ++ b'/' ∷ [], take 2 (t.hex d)) =
        ap path_split (
          path_dir-render inner inner_elements
          ∙ render-last (codes "docker")
              (codes "registry" ∷ codes "v2" ∷ codes "blobs" ∷ t.algorithm d ∷ [])
              (take 2 (t.hex d)))
        ∙ path_split-last (render named) (take 2 (t.hex d)) two.0 in
      let base : path_base (render named ++ b'/' ∷ []) ≡ t.algorithm d =
        ap (λ s. path_base (s ++ b'/' ∷ []))
          (render-last (codes "docker") (codes "registry" ∷ codes "v2" ∷ codes "blobs" ∷ [])
            (t.algorithm d))
        ∙ path_base-last b'/' (join_slash outer) (t.algorithm d) algorithm.0 algorithm.1 in
      let (c, cs, rest) = long_drop (t.hex d) (p.long_hex d v) in
      let same : (take 2 (t.hex d) == take 2 (t.hex d)) ≡ true =
        (bytes_beq_iff (take 2 (t.hex d)) (take 2 (t.hex d))).1 refl in
      ap (digest_of t p) (ap path_split trimmed ∙ path_split-last (render inner) (t.hex d) hex.0)
      ∙ (ap (λ a. digest_in t p a (t.hex d) (drop 1 (t.hex d))) above
          ∙ rw (rest, same, base, p.from_hex-valid d v, v) refl)
