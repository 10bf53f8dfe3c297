-- ===== src/Storage/Stores/Access.antt =====
-- Which blobs a repository gives access to: those that one of its links leads to.
use container_registry.Prelude.{
  Result, ok, err, ◌>>=◌, bind-eq-ok, List, ◌∷◌, [], some, ◌≡◌, sym, ap, ◌∙◌, In, here, there, ◌⊎◌,
  subst, Bool-cases, Option-cases, inl, inr,
}
use container_registry.Prelude.Bytes.{Bytes, bytes_eq}
use container_registry.Offline.Tags.{Digest}
use container_registry.Vacuum.{DigestText, FilePath}
use container_registry.Storage.Paths.{DigestParts, path_for, blob_data}
use container_registry.Storage.Driver.{path_not_found, other_fault, FileInfo, Driver}
use container_registry.Storage.Stores.{
  StoreError, driver_error, blob_unknown, invalid_digest, repository_unknown, tag_unknown,
  unsupported, over_limit, first_found, Descriptor, path_or_error, no_blob, describe, LinkPath,
  readlink, find_target, stat_linked, stat_blob, resolve_with,
}

module _ (t : DigestText) (p : DigestParts t) (v : Driver) where
  -- A link of the repository, by which a digest leads to a blob.
  pub record IsLinked (fs : List LinkPath) (name : Bytes) (d target : Digest) (s : v.Disk)
      : Type 0 where
    pub by : LinkPath
    pub among : In by fs
    pub path : FilePath
    pub formed : by name d ≡ some path
    pub target_read : readlink t p v path s ≡ ok target

  resolved :
      (f : LinkPath) (name : Bytes) (d target : Digest) (s : v.Disk)
      → resolve_with t p v name d s f ≡ ok target
      → (path : FilePath) × (f name d ≡ some path) × (readlink t p v path s ≡ ok target)
  resolved f name d target s h = elim (Option-cases (f name d)) [
    | inl e ↦ cc (h, ap (λ o. path_or_error o >>= λ path. readlink t p v path s) e)
    | inr (path, e) ↦
        (path, e, sym (ap (λ o. path_or_error o >>= λ path. readlink t p v path s) e) ∙ h)
  ]

  first_found-ok :
      (r rest : Result StoreError Digest) {target : Digest}
      → first_found t p v r rest ≡ ok target
      → (r ≡ ok target) ⊎ (rest ≡ ok target)
  first_found-ok (ok a) rest h = inl h
  first_found-ok (err (driver_error path_not_found)) rest h = inr h
  first_found-ok (err (driver_error other_fault)) rest h = cc h
  first_found-ok (err invalid_digest) rest h = cc h
  first_found-ok (err repository_unknown) rest h = cc h
  first_found-ok (err tag_unknown) rest h = cc h
  first_found-ok (err blob_unknown) rest h = cc h
  first_found-ok (err unsupported) rest h = cc h
  first_found-ok (err over_limit) rest h = cc h

  found-IsLinked :
      (fs : List LinkPath) (name : Bytes) (d target : Digest) (s : v.Disk)
      → find_target t p v name d s fs ≡ ok target
      → IsLinked fs name d target s
  unfolding find_target
  found-IsLinked [] name d target s h = cc h
  found-IsLinked (f ∷ fs) name d target s h =
      elim (first_found-ok (resolve_with t p v name d s f) (find_target t p v name d s fs) h) [
        | inl e ↦
            let (path, formed, target_read) = resolved f name d target s e in
            record { by = f; among = here; path = path; formed = formed; target_read = target_read }
        | inr e ↦
            let rest = found-IsLinked fs name d target s e in
            record {
              by = rest.by;
              among = there rest.among;
              path = rest.path;
              formed = rest.formed;
              target_read = rest.target_read;
            }
      ]

  described :
      (d : Digest) (info : FileInfo) (desc : Descriptor)
      → describe t p v d info ≡ ok desc
      → desc.digest ≡ d
  described d info desc h = elim (Bool-cases info.is_dir) [ inl e ↦ cc (h, e) | inr e ↦ cc (h, e) ]

  pub stat_blob-digest :
      (d : Digest) (s : v.Disk) (desc : Descriptor)
      → stat_blob t p v d s ≡ ok desc
      → desc.digest ≡ d
  unfolding stat_blob
  stat_blob-digest d s desc h =
      let (path, e, rest) =
        bind-eq-ok (path_or_error (path_for t (blob_data d)))
          (λ path. no_blob (v.stat path s) >>= describe t p v d) h in
      let (info, e', last) = bind-eq-ok (no_blob (v.stat path s)) (describe t p v d) rest in
      described d info desc last

  -- A blob that a repository describes is one that a link of the repository leads to, and that the
  -- store of all blobs describes.
  pub stat_linked-IsLinked :
      (fs : List LinkPath) (name : Bytes) (d : Digest) (s : v.Disk) (desc : Descriptor)
      → stat_linked t p v fs name d s ≡ ok desc
      → IsLinked fs name d desc.digest s × (stat_blob t p v desc.digest s ≡ ok desc)
  unfolding stat_linked
  stat_linked-IsLinked fs name d s desc h =
      let (target, e, described_as) =
        bind-eq-ok (find_target t p v name d s fs) (λ target. stat_blob t p v target s) h in
      let same = stat_blob-digest target s desc described_as in
      (
        subst (λ x. IsLinked fs name d x s) (sym same) (found-IsLinked fs name d target s e),
        ap (λ x. stat_blob t p v x s) same ∙ described_as,
      )
