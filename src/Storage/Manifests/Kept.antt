-- ===== src/Storage/Manifests/Kept.antt =====
-- Putting a manifest leaves what a repository provides.
use container_registry.Prelude.{
  ◌==◌, string_eq, true, Result, ok, ◌∷◌, [], Option, some, none, ◌≡◌, ◌≢◌, inl, inr, refl, sym, ap,
  ◌∙◌, In, here, there, Bool-cases, subst, false≢true,
}
use container_registry.Prelude.Bytes.{Bytes}
use container_registry.Offline.Tags.{Digest}
use container_registry.Vacuum.{DigestText, FilePath}
use container_registry.Storage.Join.Laws.{render}
use container_registry.Storage.Paths.{
  DigestParts, PathSpec, path_for, blob_data, layer_link, manifest_revision_link,
  digest_path_components,
}
use container_registry.Storage.Paths.Plain.{IsName}
use container_registry.Storage.Paths.Proper.{IsValid, IsProper, elements}
use container_registry.Storage.Paths.Elements.{path_for-elements}
use container_registry.Storage.Paths.Distinct.{path_for-injective}
use container_registry.Storage.Driver.{Driver}
use container_registry.Storage.Stores.{
  Descriptor, LinkPath, stat_linked, put_linked, blob_link_path, manifest_revision_link_path,
}
use container_registry.Storage.Stores.Kept.{
  KeepsFile, KeepsBlobs, stat_linked-kept, put_linked-keeps,
}
use container_registry.Storage.Validation.{ManifestError}
use container_registry.Storage.Formats.{AnyManifest, ServiceError}
use container_registry.Storage.Manifests.{
  ManifestStore, SignedHandler, manifest_exists, is_described, manifest_link_paths, put_verified,
  put_manifest,
}
use container_registry.Storage.Manifests.Stored.{
  described-ok, is_verifiable, payload, put_is_verified, verified, put_verified-exists, revision-ok,
}

module _ (t : DigestText) (p : DigestParts t) (v : Driver) (m : ManifestStore) where
  -- Manifests that exist and blobs that are described stay so.
  abbrev pub KeepsLookups : v.Disk → v.Disk → Type 0
  KeepsLookups s s' =
      ((d : Digest)
        → manifest_exists t p v m d s ≡ ok true
        → manifest_exists t p v m d s' ≡ ok true)
      × ((d : Digest) (x : Descriptor)
          → stat_linked t p v (blob_link_path t p v ∷ []) m.name d s ≡ ok x
          → stat_linked t p v (blob_link_path t p v ∷ []) m.name d s' ≡ ok x)

  other_file :
      (a b : PathSpec) (path : FilePath)
      → IsProper t a
      → IsProper t b
      → a ≢ b
      → path_for t a ≡ some path
      → path ≢ render (elements t b)
  other_file a b path ha hb n formed e =
      n (path_for-injective t p a b ha hb (formed ∙ (ap some e ∙ sym (path_for-elements t p b hb))))

  layer-IsValid :
      (name : Bytes) (d : Digest) (path : FilePath)
      → path_for t (layer_link name d) ≡ some path
      → IsValid t d
  unfolding path_for digest_path_components
  layer-IsValid name d path h = elim (Bool-cases (t.validate d)) [
    | inl valid ↦ valid
    | inr not_valid ↦ cc (rw not_valid at h)
  ]

  revision-IsValid :
      (name : Bytes) (d : Digest) (path : FilePath)
      → path_for t (manifest_revision_link name d) ≡ some path
      → IsValid t d
  unfolding path_for digest_path_components
  revision-IsValid name d path h = elim (Bool-cases (t.validate d)) [
    | inl valid ↦ valid
    | inr not_valid ↦ cc (rw not_valid at h)
  ]

  -- Each file of a layer's link stays, and that of another manifest's.
  layers_kept :
      (c : Bytes) (s s' : v.Disk)
      → IsName m.name
      → ((q : FilePath)
          → q ≢ render (elements t (manifest_revision_link m.name (p.from_bytes c)))
          → q ≢ render (elements t (blob_data (p.from_bytes c)))
          → KeepsFile t p v q s s')
      → (e : Digest) (path : FilePath) → blob_link_path t p v m.name e ≡ some path
      → KeepsFile t p v path s s'
  layers_kept c s s' hn files e path formed =
      let d = p.from_bytes c in
      let hd = p.from_bytes-valid c in
      let he = layer-IsValid m.name e path formed in
      files path
        (other_file (layer_link m.name e) (manifest_revision_link m.name d) path (hn, he) (hn, hd)
          (λ x. cc x) formed)
        (other_file (layer_link m.name e) (blob_data d) path (hn, he) hd (λ x. cc x) formed)

  revisions_kept :
      (c : Bytes) (s s' : v.Disk)
      → IsName m.name
      → ((q : FilePath)
          → q ≢ render (elements t (manifest_revision_link m.name (p.from_bytes c)))
          → q ≢ render (elements t (blob_data (p.from_bytes c)))
          → KeepsFile t p v q s s')
      → (e : Digest) (path : FilePath) → e ≢ p.from_bytes c
      → manifest_revision_link_path t p v m.name e ≡ some path
      → KeepsFile t p v path s s'
  revisions_kept c s s' hn files e path n formed =
      let d = p.from_bytes c in
      let hd = p.from_bytes-valid c in
      let he = revision-IsValid m.name e path formed in
      files path
        (other_file (manifest_revision_link m.name e) (manifest_revision_link m.name d) path
          (hn, he) (hn, hd) (λ x. n (cc x)) formed)
        (other_file (manifest_revision_link m.name e) (blob_data d) path (hn, he) hd (λ x. cc x)
          formed)

  -- What `Exists` and `Stat` find is found where these files stay.
  lookups_kept :
      (c : Bytes) (s s' : v.Disk)
      → IsName m.name
      → ((q : FilePath)
          → q ≢ render (elements t (manifest_revision_link m.name (p.from_bytes c)))
          → q ≢ render (elements t (blob_data (p.from_bytes c)))
          → KeepsFile t p v q s s')
      → KeepsBlobs t p v s s'
      → manifest_exists t p v m (p.from_bytes c) s' ≡ ok true
      → KeepsLookups s s'
  unfolding manifest_exists
  lookups_kept c s s' hn files blobs known = (
    λ e known_before. elim (Bool-cases (e == p.from_bytes c)) [
      | inl same ↦ rw ((string_eq.beq_iff e (p.from_bytes c)).0 same) known
      | inr differs ↦
          let (x, is) =
            described-ok t p v m (stat_linked t p v (manifest_link_paths t p v m) m.name e s)
              known_before in
          ap (is_described t p v m) (
            stat_linked-kept t p v (manifest_link_paths t p v m) m.name e s s' x
              (of_links e
                (λ same. false≢true (sym differs ∙ (string_eq.beq_iff e (p.from_bytes c)).1 same)))
              blobs is)
    ],
    λ e x is.
        stat_linked-kept t p v (blob_link_path t p v ∷ []) m.name e s s' x (of_layers e) blobs is,
  )
    where
      of_layers :
          (e : Digest) (f : LinkPath)
          → In f (blob_link_path t p v ∷ [])
          → (path : FilePath) → f m.name e ≡ some path
          → KeepsFile t p v path s s'
      of_layers e f here path formed = layers_kept c s s' hn files e path formed
      of_layers e f (there i) path formed = elim i [ ]

      of_links :
          (e : Digest)
          → e ≢ p.from_bytes c
          → (f : LinkPath) → In f (manifest_link_paths t p v m)
          → (path : FilePath) → f m.name e ≡ some path
          → KeepsFile t p v path s s'
      of_links e n f here path formed = revisions_kept c s s' hn files e path n formed
      of_links e n f (there i) path formed = of_layers e f i path formed

  put_verified-keeps :
      (e : Option ManifestError) (c : Bytes) (s : v.Disk) (d : Digest)
      → IsName m.name
      → (put_verified t p v m e c s).0 ≡ ok d
      → KeepsLookups s (put_verified t p v m e c s).1
  unfolding put_verified
  put_verified-keeps (some e) c s d hn h = cc h
  put_verified-keeps none c s d hn h =
      let f = manifest_revision_link_path t p v in
      let w = put_linked t p v f m.name c s in
      let (x, put, same, after) = revision-ok t p v m w h in
      let (passed, named, known) = put_verified-exists t p v m none c s d hn h in
      let (files, blobs) =
        put_linked-keeps t p v f (manifest_revision_link m.name (p.from_bytes c)) m.name c s x
          (record { proper = (hn, p.from_bytes-valid c); formed = refl; among = refl }) put in
      subst (KeepsLookups s) (sym after) (
        lookups_kept c s w.1 hn files blobs (
          ap (λ s. manifest_exists t p v m (p.from_bytes c) s) (sym after)
          ∙ (ap (λ d. manifest_exists t p v m d (put_verified t p v m none c s).1) (sym named)
              ∙ known)))

  pub put_manifest-keeps :
      (h : SignedHandler v.Disk) (x : AnyManifest) (s : v.Disk) (d : Digest)
      → IsName m.name
      → is_verifiable x ≡ true
      → (put_manifest t p v m h x s).0 ≡ ok d
      → KeepsLookups s (put_manifest t p v m h x s).1
  put_manifest-keeps h x s d hn e put =
      let is = put_is_verified t p v m h x s e in
      subst (λ (w : Result ServiceError Digest × v.Disk). KeepsLookups s w.1) (sym is)
        (put_verified-keeps (verified t p v m x s) (payload x) s d hn
          (ap (λ (w : Result ServiceError Digest × v.Disk). w.0) (sym is) ∙ put))
