-- ===== src/Storage/Manifests/Complete.antt =====
-- Putting manifests, one behind the other: what a repository provides, it keeps.
use container_registry.Prelude.{
  string_eq, true, Result, ok, List, ◌∷◌, [], ◌≡◌, inl, inr, sym, ap, ◌∙◌, All,
}
use container_registry.Offline.Tags.{Digest}
use container_registry.Vacuum.{DigestText}
use container_registry.Storage.Paths.{DigestParts}
use container_registry.Storage.Paths.Plain.{IsName}
use container_registry.Storage.Driver.{Driver}
use container_registry.Storage.Validation.{Reference}
use container_registry.Storage.Formats.{
  AnyManifest, signed, schema2, oci, list_of, other, ServiceError,
}
use container_registry.Storage.Manifests.{
  ManifestStore, SignedHandler, manifest_exists, put_manifest,
}
use container_registry.Storage.Manifests.Stored.{
  is_verifiable, payload, references_of, IsProvidedFor, IsVerified, put_manifest-IsVerified,
}
use container_registry.Storage.Manifests.Kept.{KeepsLookups, put_manifest-keeps}

module _ (t : DigestText) (p : DigestParts t) (v : Driver) (m : ManifestStore) where
  -- `Put` of one manifest behind the other, with the answers.
  unfoldable pub put_all :
      SignedHandler v.Disk → List AnyManifest → v.Disk → List (Result ServiceError Digest) × v.Disk
  put_all h [] s = ([], s)
  put_all h (x ∷ xs) s =
      let w = put_manifest t p v m h x s in let rest = put_all h xs w.1 in (w.0 ∷ rest.0, rest.1)

  provided-kept :
      (x : AnyManifest) (s s' : v.Disk) (r : Reference)
      → KeepsLookups t p v m s s'
      → IsProvidedFor t p v m x s r
      → IsProvidedFor t p v m x s' r
  provided-kept (signed c) s s' r keeps h = tt
  provided-kept (schema2 x) s s' r (exist, stat) h = record {
    foreign = h.foreign;
    blob = λ n e. let (desc, is) = h.blob n e in (desc, stat r.digest desc is);
    manifest = λ n typed e. exist r.digest (h.manifest n typed e);
  }
  provided-kept (oci x) s s' r (exist, stat) h = record {
    layer = h.layer;
    blob = λ e. let (desc, is) = h.blob e in (desc, stat r.digest desc is);
    manifest = λ n typed e. exist r.digest (h.manifest n typed e);
  }
  provided-kept (list_of x) s s' r (exist, stat) h = exist r.digest h
  provided-kept other s s' r keeps h = tt

  all_provided-kept :
      (x : AnyManifest) (s s' : v.Disk) (rs : List Reference)
      → KeepsLookups t p v m s s'
      → All (IsProvidedFor t p v m x s) rs
      → All (IsProvidedFor t p v m x s') rs
  all_provided-kept x s s' [] keeps h = tt
  all_provided-kept x s s' (r ∷ rs) keeps h =
      (provided-kept x s s' r keeps h.0, all_provided-kept x s s' rs keeps h.1)

  -- A manifest that exists, of version 2 and, unless references are not looked at, with each of its
  -- references provided.
  abbrev pub IsComplete : v.Disk → AnyManifest → Type 0
  IsComplete s x =
      (manifest_exists t p v m (p.from_bytes (payload x)) s ≡ ok true) × IsVerified t p v m x s

  IsVerified-kept :
      (x : AnyManifest) (s s' : v.Disk)
      → KeepsLookups t p v m s s'
      → IsVerified t p v m x s
      → IsVerified t p v m x s'
  IsVerified-kept x s s' keeps (version, h) = (
    version,
    elim h [ inl e ↦ inl e | inr a ↦ inr (all_provided-kept x s s' (references_of x) keeps a) ],
  )

  IsComplete-kept :
      (x : AnyManifest) (s s' : v.Disk)
      → KeepsLookups t p v m s s'
      → IsComplete s x
      → IsComplete s' x
  IsComplete-kept x s s' keeps (held, (version, h)) =
      (keeps.0 (p.from_bytes (payload x)) held, IsVerified-kept x s s' keeps (version, h))

  abbrev pub IsPut : Result ServiceError Digest → Type 0
  IsPut r = (d : Digest) × (r ≡ ok d)

  abbrev pub AreVerifiable : List AnyManifest → Type 0
  AreVerifiable = All (λ x. is_verifiable x ≡ true)

  put_all-keeps :
      (h : SignedHandler v.Disk) (xs : List AnyManifest) (s : v.Disk) (y : AnyManifest)
      → IsName m.name
      → AreVerifiable xs
      → All IsPut (put_all h xs s).0
      → IsComplete s y
      → IsComplete (put_all h xs s).1 y
  unfolding put_all
  put_all-keeps h [] s y hn e puts held = held
  put_all-keeps h (x ∷ xs) s y hn e puts held =
      let (d, put) = puts.0 in
      let s' = (put_manifest t p v m h x s).1 in
      put_all-keeps h xs s' y hn e.1 puts.1
        (IsComplete-kept y s s' (put_manifest-keeps t p v m h x s d hn e.0 put) held)

  -- After manifests were put without an error, one behind the other, each of them exists in the
  -- repository and is complete held, and what was complete before still is.
  pub put_all-IsComplete :
      (h : SignedHandler v.Disk) (xs : List AnyManifest) (s : v.Disk)
      → IsName m.name
      → AreVerifiable xs
      → All IsPut (put_all h xs s).0
      → All (IsComplete (put_all h xs s).1) xs
        × ((y : AnyManifest) → IsComplete s y → IsComplete (put_all h xs s).1 y)
  unfolding put_all
  put_all-IsComplete h [] s hn e puts = (tt, λ y held. held)
  put_all-IsComplete h (x ∷ xs) s hn e puts =
      let (d, put) = puts.0 in
      let s' = (put_manifest t p v m h x s).1 in
      let keeps = put_manifest-keeps t p v m h x s d hn e.0 put in
      let (passed, named, known) = put_manifest-IsVerified t p v m h x s d hn e.0 put in
      let now : IsComplete s' x = (
        ap (λ d. manifest_exists t p v m d s') (sym named) ∙ known,
        (IsVerified-kept x s s' keeps passed),
      ) in
      let (rest, kept) = put_all-IsComplete h xs s' hn e.1 puts.1 in
      (
        (put_all-keeps h xs s' x hn e.1 puts.1 now, rest),
        λ y held. kept y (IsComplete-kept y s s' keeps held),
      )
