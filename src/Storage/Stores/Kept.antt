-- ===== src/Storage/Stores/Kept.antt =====
-- What is put into a repository leaves what its repositories describe.
use container_registry.Prelude.{
  false, Result, ok, err, ◌>>=◌, List, ◌∷◌, [], ◌++◌, Option, some, none, ◌≡◌, ◌≢◌, inl, inr, refl,
  sym, ap, ap₂, ◌∙◌, In, here, there, arith, Bool-cases, Option-cases, length, List-cases,
  bind-eq-ok,
}
use container_registry.Prelude.Bytes.{Bytes, codes}
use container_registry.Offline.Tags.{Digest}
use container_registry.Vacuum.{DigestText, FilePath}
use container_registry.Storage.Join.Laws.{render}
use container_registry.Storage.Paths.{
  DigestParts, PathSpec, path_for, blob_data, digest_path_components,
}
use container_registry.Storage.Paths.Proper.{IsValid, elements}
use container_registry.Storage.Paths.Elements.{path_for-elements, elements-IsElement}
use container_registry.Storage.Paths.Distinct.{path_for-injective}
use container_registry.Storage.Paths.Below.{below-elements}
use container_registry.Storage.Driver.{Driver, is_below}
use container_registry.Storage.Stores.{
  Descriptor, StoreError, driver_error, blob_unknown, invalid_digest, repository_unknown,
  tag_unknown, unsupported, over_limit, Written, LinkPath, no_blob, describe, link, readlink,
  resolve_with, first_found, find_target, stat_linked, stat_blob, put_at, new_descriptor,
  put_unless, put_blob, link_blob, put_linked,
}
use container_registry.Storage.Tags.Changes.{fault_of-none}
use container_registry.Storage.Stores.Stored.{
  data_file, link_file, IsLink, link_formed, link_apart, put_done-ok, link_put-ok, put_blob-stat,
  link_blob-one, one_write, stat_blob-file,
}

module _ (t : DigestText) (p : DigestParts t) (v : Driver) where
  -- A file keeps its content, and a described blob stays described.
  abbrev pub KeepsFile : FilePath → v.Disk → v.Disk → Type 0
  KeepsFile q s s' = v.get_content q s' ≡ v.get_content q s

  abbrev pub KeepsBlobs : v.Disk → v.Disk → Type 0
  KeepsBlobs s s' =
      (d : Digest) (x : Descriptor) → stat_blob t p v d s ≡ ok x → stat_blob t p v d s' ≡ ok x

  resolve_with-kept :
      (name : Bytes) (d : Digest) (s s' : v.Disk) (f : LinkPath)
      → ((path : FilePath) → f name d ≡ some path → KeepsFile path s s')
      → resolve_with t p v name d s' f ≡ resolve_with t p v name d s f
  unfolding readlink
  resolve_with-kept name d s s' f h = elim (Option-cases (f name d)) [
    | inl e ↦ rw e refl
    | inr (path, e) ↦ rw (e, h path e) refl
  ]

  find_target-kept :
      (fs : List LinkPath) (name : Bytes) (d : Digest) (s s' : v.Disk)
      → ((f : LinkPath) → In f fs → (path : FilePath) → f name d ≡ some path → KeepsFile path s s')
      → find_target t p v name d s' fs ≡ find_target t p v name d s fs
  unfolding find_target
  find_target-kept [] name d s s' h = refl
  find_target-kept (f ∷ fs) name d s s' h =
      ap₂ (first_found t p v) (resolve_with-kept name d s s' f (h f here))
        (find_target-kept fs name d s s' (λ g i. h g (there i)))

  -- What a repository describes, it describes on a disk where the links have the same content.
  pub stat_linked-kept :
      (fs : List LinkPath) (name : Bytes) (d : Digest) (s s' : v.Disk) (x : Descriptor)
      → ((f : LinkPath) → In f fs → (path : FilePath) → f name d ≡ some path → KeepsFile path s s')
      → KeepsBlobs s s'
      → stat_linked t p v fs name d s ≡ ok x
      → stat_linked t p v fs name d s' ≡ ok x
  unfolding stat_linked
  stat_linked-kept fs name d s s' x links blobs h =
      let (target, found, known) =
        bind-eq-ok (find_target t p v name d s fs) (λ target. stat_blob t p v target s) h in
      ap (λ r. r >>= λ target. stat_blob t p v target s')
        (find_target-kept fs name d s s' links ∙ found)
      ∙ blobs target x known

  stat_blob-IsValid :
      (d : Digest) (s : v.Disk) (x : Descriptor) → stat_blob t p v d s ≡ ok x → IsValid t d
  unfolding stat_blob path_for digest_path_components
  stat_blob-IsValid d s x h = elim (Bool-cases (t.validate d)) [
    | inl valid ↦ valid
    | inr not_valid ↦ cc (rw not_valid at h)
  ]

  -- The data of a blob does not lie below that of another.
  data_apart :
      (d e : Digest)
      → IsValid t d
      → IsValid t e
      → d ≢ e
      → is_below (data_file t p v d) (data_file t p v e) ≡ false
  data_apart d e hd he n = elim (Bool-cases (is_below (data_file t p v d) (data_file t p v e))) [
    | inr apart ↦ apart
    | inl below ↦
        let (r, same) =
          below-elements (elements t (blob_data d)) (elements t (blob_data e))
            (elements-IsElement t p (blob_data d) hd) (elements-IsElement t p (blob_data e) he)
            below in
        elim (List-cases r) [
          | inr (x, rest, longer) ↦
              absurd
                (omega (arith, ap length (same ∙ ap (λ r. elements t (blob_data d) ++ r) longer)))
          | inl ended ↦
              let texts : data_file t p v e ≡ data_file t p v d =
                ap render (same ∙ ap (λ r. elements t (blob_data d) ++ r) ended) in
              let one : blob_data d ≡ blob_data e =
                path_for-injective t p (blob_data d) (blob_data e) hd he (
                  path_for-elements t p (blob_data d) hd
                  ∙ (ap some (sym texts) ∙ sym (path_for-elements t p (blob_data e) he))) in
              absurd (n (cc one))
        ]
  ]

  -- Writing a blob that is not there leaves the others.
  put_unless-keeps :
      (r : Result StoreError Descriptor) (d : Digest) (c : Bytes) (s : v.Disk) (x : Descriptor)
      → IsValid t d
      → stat_blob t p v d s ≡ r
      → (put_unless t p v r d c s).0 ≡ ok x
      → ((q : FilePath) → q ≢ data_file t p v d → KeepsFile q s (put_unless t p v r d c s).1)
        × KeepsBlobs s (put_unless t p v r d c s).1
  put_unless-keeps (ok y) d c s x hd is h = (λ q n. refl, λ e y known. known)
  put_unless-keeps (err blob_unknown) d c s x hd is h =
      let file = data_file t p v d in
      let path = path_for-elements t p (blob_data d) hd in
      let put : (put_at t p v (some file) d c s).0 ≡ ok x =
        ap (λ o. (put_at t p v o d c s).0) (sym path) ∙ h in
      let (wrote, same, after) =
        put_done-ok t p v (new_descriptor t p v d c) (v.put_content file c s) put in
      let disk : (put_at t p v (path_for t (blob_data d)) d c s).1 ≡ (v.put_content file c s).1 =
        ap (λ o. (put_at t p v o d c s).1) path ∙ after in
      (
        λ q n. ap (v.get_content q) disk ∙ v.get-put_other file q c s wrote n,
        λ e y known.
            let he = stat_blob-IsValid e s y known in
            let n : e ≢ d = λ same. cc (known, ap (λ d. stat_blob t p v d s) same, is) in
            ap (stat_blob t p v e) disk
            ∙ (stat_blob-file t p v e (v.put_content file c s).1 he
                ∙ (ap (λ r. no_blob r >>= describe t p v e)
                      (v.stat-put_other file (data_file t p v e) c s wrote (data_apart e d he hd n))
                    ∙ (sym (stat_blob-file t p v e s he) ∙ known))),
      )
  put_unless-keeps (err (driver_error e)) d c s x hd is h = cc h
  put_unless-keeps (err invalid_digest) d c s x hd is h = cc h
  put_unless-keeps (err repository_unknown) d c s x hd is h = cc h
  put_unless-keeps (err tag_unknown) d c s x hd is h = cc h
  put_unless-keeps (err unsupported) d c s x hd is h = cc h
  put_unless-keeps (err over_limit) d c s x hd is h = cc h

  -- Writing a link leaves the other files, and the blobs.
  link-keeps :
      (k : PathSpec) {path : Option FilePath} (d : Digest) (s : v.Disk)
      → IsLink t p v k path
      → (link t p v (link_file t p v k) d s).0 ≡ none
      → ((q : FilePath)
          → q ≢ link_file t p v k
          → KeepsFile q s (link t p v (link_file t p v k) d s).1)
        × KeepsBlobs s (link t p v (link_file t p v k) d s).1
  unfolding link
  link-keeps k d s l h =
      let file = link_file t p v k in
      let wrote = fault_of-none (v.put_content file (codes d) s).0 h in
      (
        λ q n. v.get-put_other file q (codes d) s wrote n,
        λ e y known.
            let he = stat_blob-IsValid e s y known in
            stat_blob-file t p v e (v.put_content file (codes d) s).1 he
            ∙ (ap (λ r. no_blob r >>= describe t p v e)
                  (v.stat-put_other file (data_file t p v e) (codes d) s wrote
                    (link_apart t p v k e l he))
                ∙ (sym (stat_blob-file t p v e s he) ∙ known)),
      )

  -- Putting content behind a link leaves all files but the link and the data of the blob, and every
  -- described blob as it is described.
  pub put_linked-keeps :
      (f : LinkPath) (k : PathSpec) (name : Bytes) (c : Bytes) (s : v.Disk) (x : Descriptor)
      → IsLink t p v k (f name (p.from_bytes c))
      → (put_linked t p v f name c s).0 ≡ ok x
      → ((q : FilePath)
          → q ≢ link_file t p v k
          → q ≢ data_file t p v (p.from_bytes c)
          → KeepsFile q s (put_linked t p v f name c s).1)
        × KeepsBlobs s (put_linked t p v f name c s).1
  unfolding put_linked put_blob
  put_linked-keeps f k name c s x l h =
      let d = p.from_bytes c in
      let stored = put_blob t p v c s in
      let (put, linked, after) = link_put-ok t p v f name stored x h in
      let (named, known) = put_blob-stat t p v c s x put in
      let one : link_blob t p v f name x.digest [] stored.1
          ≡ link t p v (link_file t p v k) d stored.1 =
        ap (λ x. link_blob t p v f name x [] stored.1) named
        ∙ (link_blob-one t p v f name d (link_file t p v k) stored.1 (link_formed t p v k l)
            ∙ one_write t p v (link t p v (link_file t p v k) d stored.1)) in
      let disk : (put_linked t p v f name c s).1 ≡ (link t p v (link_file t p v k) d stored.1).1 =
        after ∙ ap (λ (w : Written v.Disk). w.1) one in
      let (files, blobs) =
        put_unless-keeps (stat_blob t p v d s) d c s x (p.from_bytes-valid c) refl put in
      let (files', blobs') =
        link-keeps k d stored.1 l (ap (λ (w : Written v.Disk). w.0) (sym one) ∙ linked) in
      (
        λ q n m. ap (v.get_content q) disk ∙ (files' q n ∙ files q m),
        λ e y is. ap (stat_blob t p v e) disk ∙ blobs' e y (blobs e y is),
      )
