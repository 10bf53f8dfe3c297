-- ===== src/Storage/Stores/Stored.antt =====
-- What is put into a repository is described by it.
use container_registry.Prelude.{
  ℕ, false, Result, ok, err, ◌>>=◌, List, ◌∷◌, [], Option, some, none, ◌≡◌, refl, sym, ap, ◌∙◌,
  arith, Bool-cases, inl, inr, length, get_elem?,
}
use container_registry.Prelude.Bytes.{Bytes, codes, bytes_eq}
use container_registry.Prelude.Sets.{contains}
use container_registry.Offline.Tags.{Digest}
use container_registry.Vacuum.{DigestText, FilePath}
use container_registry.Storage.Join.Laws.{render}
use container_registry.Storage.Paths.{DigestParts, PathSpec, path_for, blob_data, layer_link}
use container_registry.Storage.Paths.Plain.{IsName}
use container_registry.Storage.Paths.Proper.{IsValid, IsProper, elements}
use container_registry.Storage.Paths.Elements.{path_for-elements, elements-IsElement}
use container_registry.Storage.Paths.Below.{below-elements}
use container_registry.Storage.Driver.{Fault, Driver, is_below}
use container_registry.Storage.Stores.{
  Descriptor, StoreError, driver_error, blob_unknown, invalid_digest, Written, then_write, no_blob,
  describe, LinkPath, link, readlink, find_target, stat_linked, stat_blob, put_at, put_done,
  link_done, new_descriptor, repository_unknown, tag_unknown, unsupported, over_limit, put_unless,
  put_blob, link_each, link_blob, link_put, put_linked, blob_link_path,
}
use container_registry.Storage.Tags.Changes.{fault_of-none}
use container_registry.Storage.Stores.Access.{stat_blob-digest}

module _ (t : DigestText) (p : DigestParts t) (v : Driver) where
  abbrev pub data_file : Digest → FilePath
  data_file d = render (elements t (blob_data d))

  pub stat_blob-file :
      (d : Digest) (s : v.Disk)
      → IsValid t d
      → stat_blob t p v d s ≡ (no_blob (v.stat (data_file d) s) >>= describe t p v d)
  unfolding stat_blob
  stat_blob-file d s h = rw (path_for-elements t p (blob_data d) h) refl

  pub put_done-ok :
      (desc : Descriptor) (w : Option Fault × v.Disk) {d : Descriptor}
      → (put_done t p v desc w).0 ≡ ok d
      → (w.0 ≡ none) × (desc ≡ d) × ((put_done t p v desc w).1 ≡ w.1)
  put_done-ok desc (none, s) h = (refl, cc h, refl)
  put_done-ok desc (some e, s) h = cc h

  link_done-ok :
      (desc : Descriptor) (w : Written v.Disk) {d : Descriptor}
      → (link_done t p v desc w).0 ≡ ok d
      → (w.0 ≡ none) × (desc ≡ d) × ((link_done t p v desc w).1 ≡ w.1)
  link_done-ok desc (none, s) h = (refl, cc h, refl)
  link_done-ok desc (some e, s) h = cc h

  put_at-ok :
      (path : FilePath) (d : Digest) (c : Bytes) (s : v.Disk) (desc : Descriptor)
      → (put_at t p v (some path) d c s).0 ≡ ok desc
      → (no_blob (v.stat path (put_at t p v (some path) d c s).1) >>= describe t p v d) ≡ ok desc
  put_at-ok path d c s desc h =
      let (wrote, same, after) =
        put_done-ok (new_descriptor t p v d c) (v.put_content path c s) h in
      ap (λ s. no_blob (v.stat path s) >>= describe t p v d) after
      ∙ (ap (λ r. no_blob r >>= describe t p v d) (v.stat-put path c s wrote) ∙ ap ok same)

  put_unless-ok :
      (r : Result StoreError Descriptor) (d : Digest) (c : Bytes) (s : v.Disk) (desc : Descriptor)
      → IsValid t d
      → stat_blob t p v d s ≡ r
      → (put_unless t p v r d c s).0 ≡ ok desc
      → stat_blob t p v d (put_unless t p v r d c s).1 ≡ ok desc
  put_unless-ok (ok x) d c s desc hd e h = cc (e, h)
  put_unless-ok (err blob_unknown) d c s desc hd e h =
      let path = path_for-elements t p (blob_data d) hd in
      let same : put_at t p v (path_for t (blob_data d)) d c s
          ≡ put_at t p v (some (data_file d)) d c s =
        ap (λ o. put_at t p v o d c s) path in
      ap (λ (w : Result StoreError Descriptor × v.Disk). stat_blob t p v d w.1) same
      ∙ (stat_blob-file d (put_at t p v (some (data_file d)) d c s).1 hd
          ∙ put_at-ok (data_file d) d c s desc
              (ap (λ (w : Result StoreError Descriptor × v.Disk). w.0) (sym same) ∙ h))
  put_unless-ok (err (driver_error x)) d c s desc hd e h = cc h
  put_unless-ok (err invalid_digest) d c s desc hd e h = cc h
  put_unless-ok (err repository_unknown) d c s desc hd e h = cc h
  put_unless-ok (err tag_unknown) d c s desc hd e h = cc h
  put_unless-ok (err unsupported) d c s desc hd e h = cc h
  put_unless-ok (err over_limit) d c s desc hd e h = cc h

  -- What is put is described under the digest of its content.
  pub put_blob-stat :
      (c : Bytes) (s : v.Disk) (desc : Descriptor)
      → (put_blob t p v c s).0 ≡ ok desc
      → (desc.digest ≡ p.from_bytes c)
        × (stat_blob t p v (p.from_bytes c) (put_blob t p v c s).1 ≡ ok desc)
  unfolding put_blob
  put_blob-stat c s desc h =
      let d = p.from_bytes c in
      let known = put_unless-ok (stat_blob t p v d s) d c s desc (p.from_bytes-valid c) refl h in
      (stat_blob-digest t p v d (put_blob t p v c s).1 desc known, known)

  abbrev text_length : Option Bytes → ℕ
  text_length none = 0
  text_length (some c) = length c

  -- A link of a repository: its path, which lies among the repositories.
  pub record IsLink (k : PathSpec) (path : Option FilePath) : Type 0 where
    pub proper : IsProper t k
    pub formed : path ≡ path_for t k
    pub among : get_elem? (elements t k) 3 ≡ some (codes "repositories")

  abbrev pub link_file : PathSpec → FilePath
  link_file k = render (elements t k)

  pub link_formed :
      (k : PathSpec) {path : Option FilePath} → IsLink k path → path ≡ some (link_file k)
  link_formed k l = l.formed ∙ path_for-elements t p k l.proper

  -- No link lies below the data of a blob.
  pub link_apart :
      (k : PathSpec) {path : Option FilePath} (d : Digest)
      → IsLink k path
      → IsValid t d
      → is_below (data_file d) (link_file k) ≡ false
  link_apart k d l hd = elim (Bool-cases (is_below (data_file d) (link_file k))) [
    | inr apart ↦ apart
    | inl below ↦
        let (r, same) =
          below-elements (elements t (blob_data d)) (elements t k)
            (elements-IsElement t p (blob_data d) hd) (elements-IsElement t p k l.proper) below in
        let heads : some (codes "repositories") ≡ some (codes "blobs") =
          sym l.among ∙ ap (λ es. get_elem? es 3) same in
        absurd (omega (arith, ap text_length heads))
  ]

  pub link_blob-one :
      (f : LinkPath) (name : Bytes) (d : Digest) (path : FilePath) (s : v.Disk)
      → f name d ≡ some path
      → link_blob t p v f name d [] s ≡ then_write (link t p v path d s) (λ s. (none, s))
  unfolding link_blob link_each contains
  link_blob-one f name d path s e = rw e refl

  pub one_write : (w : Written v.Disk) → then_write w (λ s. (none, s)) ≡ w
  one_write (none, s) = refl
  one_write (some e, s) = refl

  pub link_put-ok :
      (f : LinkPath) (name : Bytes) (w : Result StoreError Descriptor × v.Disk) (desc : Descriptor)
      → (link_put t p v f name w).0 ≡ ok desc
      → (w.0 ≡ ok desc)
        × ((link_blob t p v f name desc.digest [] w.1).0 ≡ none)
        × ((link_put t p v f name w).1 ≡ (link_blob t p v f name desc.digest [] w.1).1)
  link_put-ok f name (err e, s) desc h = cc h
  link_put-ok f name (ok x, s) desc h =
      let (linked, same, after) = link_done-ok x (link_blob t p v f name x.digest [] s) h in
      (
        ap ok same,
        ap (λ (y : Descriptor). (link_blob t p v f name y.digest [] s).0) (sym same) ∙ linked,
        after ∙ ap (λ (y : Descriptor). (link_blob t p v f name y.digest [] s).1) same,
      )

  -- Behind the link of a described blob, the repository describes it.
  linked-stat :
      (f : LinkPath) (fs : List LinkPath) (k : PathSpec) (name : Bytes) (d : Digest) (s : v.Disk)
      (desc : Descriptor)
      → IsLink k (f name d)
      → IsValid t d
      → stat_blob t p v d s ≡ ok desc
      → (link t p v (link_file k) d s).0 ≡ none
      → stat_linked t p v (f ∷ fs) name d (link t p v (link_file k) d s).1 ≡ ok desc
  unfolding stat_linked find_target readlink link
  linked-stat f fs k name d s desc l hd known h =
      let path = link_file k in
      let after = (v.put_content path (codes d) s).1 in
      let wrote = fault_of-none (v.put_content path (codes d) s).0 h in
      let kept : stat_blob t p v d after ≡ ok desc =
        stat_blob-file d after hd
        ∙ (ap (λ r. no_blob r >>= describe t p v d)
              (v.stat-put_other path (data_file d) (codes d) s wrote (link_apart k d l hd))
            ∙ (sym (stat_blob-file d s hd) ∙ known)) in
      rw (link_formed k l, v.get-put path (codes d) s wrote, p.parse-codes d hd) kept

  -- What is put behind a link is described by it, under the digest of the content, as the call
  -- answered.
  pub put_linked-described :
      (f : LinkPath) (fs : List LinkPath) (k : PathSpec) (name : Bytes) (c : Bytes) (s : v.Disk)
      (desc : Descriptor)
      → IsLink k (f name (p.from_bytes c))
      → (put_linked t p v f name c s).0 ≡ ok desc
      → (desc.digest ≡ p.from_bytes c)
        × (stat_linked t p v (f ∷ fs) name (p.from_bytes c) (put_linked t p v f name c s).1
            ≡ ok desc)
  unfolding put_linked
  put_linked-described f fs k name c s desc l h =
      let d = p.from_bytes c in
      let hd = p.from_bytes-valid c in
      let stored = put_blob t p v c s in
      let (put, linked, after) = link_put-ok f name stored desc h in
      let (same, known) = put_blob-stat c s desc put in
      let one : link_blob t p v f name desc.digest [] stored.1
          ≡ link t p v (link_file k) d stored.1 =
        ap (λ x. link_blob t p v f name x [] stored.1) same
        ∙ (link_blob-one f name d (link_file k) stored.1 (link_formed k l)
            ∙ one_write (link t p v (link_file k) d stored.1)) in
      (
        same,
        ap (stat_linked t p v (f ∷ fs) name d) (after ∙ ap (λ (w : Written v.Disk). w.1) one)
            ∙ linked-stat f fs k name d stored.1 desc l hd known
                (ap (λ (w : Written v.Disk). w.0) (sym one) ∙ linked),
      )

  -- Content that is put into a repository without an error is described there, under its digest, as
  -- the call answered.
  pub put_linked-stat :
      (name : Bytes) (c : Bytes) (s : v.Disk) (desc : Descriptor)
      → IsName name
      → (put_linked t p v (blob_link_path t p v) name c s).0 ≡ ok desc
      → stat_linked t p v
          (blob_link_path t p v ∷ [])
          name
          (p.from_bytes c)
          (put_linked t p v (blob_link_path t p v) name c s).1
        ≡ ok desc
  put_linked-stat name c s desc hn h =
      let k = layer_link name (p.from_bytes c) in
      (put_linked-described (blob_link_path t p v) [] k name c s desc
        (record { proper = (hn, p.from_bytes-valid c); formed = refl; among = refl }) h).1
