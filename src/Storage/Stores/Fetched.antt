-- ===== src/Storage/Stores/Fetched.antt =====
-- What is put into a repository is got back from it.
use container_registry.Prelude.{
  true, Result, ok, err, List, ◌∷◌, [], Option, some, none, ◌≡◌, ◌≢◌, ◌⊎◌, inl, inr, refl, sym, ap,
  ◌∙◌, false≢true,
}
use container_registry.Prelude.Bytes.{Bytes, codes, bytes_eq, bytes_beq_iff}
use container_registry.Offline.Tags.{Digest}
use container_registry.Vacuum.{DigestText, FilePath}
use container_registry.Storage.Paths.{DigestParts, PathSpec, blob_data}
use container_registry.Storage.Paths.Proper.{IsValid}
use container_registry.Storage.Paths.Elements.{path_for-elements}
use container_registry.Storage.Driver.{Driver, is_below}
use container_registry.Storage.Stores.{
  Descriptor, StoreError, driver_error, blob_unknown, invalid_digest, repository_unknown,
  tag_unknown, unsupported, over_limit, Written, LinkPath, limited, link, stat_blob, get_blob,
  get_linked, put_at, new_descriptor, put_unless, put_blob, link_blob, put_linked,
}
use container_registry.Storage.Tags.Changes.{fault_of-none}
use container_registry.Storage.Stores.Stored.{
  data_file, link_file, IsLink, link_formed, link_apart, put_done-ok, link_put-ok, link_blob-one,
  one_write, put_linked-described,
}

module _ (t : DigestText) (p : DigestParts t) (v : Driver) where
  -- The blob of a digest is not there, or it has the content.
  abbrev pub IsHeld : Digest → Bytes → v.Disk → Type 0
  IsHeld d c s =
      (stat_blob t p v d s ≡ err blob_unknown) ⊎ (v.get_content (data_file t p v d) s ≡ ok c)

  put_unless-get :
      (r : Result StoreError Descriptor) (d : Digest) (c : Bytes) (s : v.Disk) (desc : Descriptor)
      → IsValid t d
      → stat_blob t p v d s ≡ r
      → IsHeld d c s
      → (put_unless t p v r d c s).0 ≡ ok desc
      → v.get_content (data_file t p v d) (put_unless t p v r d c s).1 ≡ ok c
  put_unless-get (ok x) d c s desc hd e (inl absent) h = cc (e, absent)
  put_unless-get (ok x) d c s desc hd e (inr kept) h = kept
  put_unless-get (err blob_unknown) d c s desc hd e held h =
      let path = path_for-elements t p (blob_data d) hd in
      let put : (put_at t p v (some (data_file t p v d)) d c s).0 ≡ ok desc =
        ap (λ o. (put_at t p v o d c s).0) (sym path) ∙ h in
      let (wrote, same, after) =
        put_done-ok t p v (new_descriptor t p v d c) (v.put_content (data_file t p v d) c s) put in
      ap (λ o. v.get_content (data_file t p v d) (put_at t p v o d c s).1) path
      ∙ (ap (v.get_content (data_file t p v d)) after ∙ v.get-put (data_file t p v d) c s wrote)
  put_unless-get (err (driver_error x)) d c s desc hd e held h = cc h
  put_unless-get (err invalid_digest) d c s desc hd e held h = cc h
  put_unless-get (err repository_unknown) d c s desc hd e held h = cc h
  put_unless-get (err tag_unknown) d c s desc hd e held h = cc h
  put_unless-get (err unsupported) d c s desc hd e held h = cc h
  put_unless-get (err over_limit) d c s desc hd e held h = cc h

  data_apart :
      (k : PathSpec) {path : Option FilePath} (d : Digest)
      → IsLink t p v k path
      → IsValid t d
      → data_file t p v d ≢ link_file t p v k
  data_apart k d l hd e =
      let file = data_file t p v d in
      let self : is_below file file ≡ true = rw ((bytes_beq_iff file file).1 refl) refl in
      false≢true (sym (link_apart t p v k d l hd) ∙ (ap (is_below file) (sym e) ∙ self))

  linked-get :
      (k : PathSpec) {path : Option FilePath} (d : Digest) (c : Bytes) (s : v.Disk)
      → IsLink t p v k path
      → IsValid t d
      → v.get_content (data_file t p v d) s ≡ ok c
      → (link t p v (link_file t p v k) d s).0 ≡ none
      → v.get_content (data_file t p v d) (link t p v (link_file t p v k) d s).1 ≡ ok c
  unfolding link
  linked-get k d c s l hd kept h =
      let file = link_file t p v k in
      let wrote = fault_of-none (v.put_content file (codes d) s).0 h in
      v.get-put_other file (data_file t p v d) (codes d) s wrote (data_apart k d l hd) ∙ kept

  -- Content that is put behind a link is got back by its digest, if the blob was not there or has
  -- this content, and the content is within the limit of reading.
  pub put_linked-get :
      (f : LinkPath) (fs : List LinkPath) (k : PathSpec) (name : Bytes) (c : Bytes) (s : v.Disk)
      (desc : Descriptor)
      → IsLink t p v k (f name (p.from_bytes c))
      → IsHeld (p.from_bytes c) c s
      → limited c ≡ ok c
      → (put_linked t p v f name c s).0 ≡ ok desc
      → get_linked t p v (f ∷ fs) name (p.from_bytes c) (put_linked t p v f name c s).1 ≡ ok c
  unfolding get_linked get_blob put_linked put_blob
  put_linked-get f fs k name c s desc l held small h =
      let d = p.from_bytes c in
      let hd = p.from_bytes-valid c in
      let stored = put_blob t p v c s in
      let (named, known) = put_linked-described t p v f fs k name c s desc l h in
      let (put, linked, after) = link_put-ok t p v f name stored desc h in
      let one : link_blob t p v f name desc.digest [] stored.1
          ≡ link t p v (link_file t p v k) d stored.1 =
        ap (λ x. link_blob t p v f name x [] stored.1) named
        ∙ (link_blob-one t p v f name d (link_file t p v k) stored.1 (link_formed t p v k l)
            ∙ one_write t p v (link t p v (link_file t p v k) d stored.1)) in
      let there = put_unless-get (stat_blob t p v d s) d c s desc hd refl held put in
      let kept =
        linked-get k d c stored.1 l hd there
          (ap (λ (w : Written v.Disk). w.0) (sym one) ∙ linked) in
      let here : v.get_content (data_file t p v d) (put_linked t p v f name c s).1 ≡ ok c =
        ap (v.get_content (data_file t p v d)) (after ∙ ap (λ (w : Written v.Disk). w.1) one)
        ∙ kept in
      rw (known, named, path_for-elements t p (blob_data d) hd, here) small
