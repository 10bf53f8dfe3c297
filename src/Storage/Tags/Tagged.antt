-- ===== src/Storage/Tags/Tagged.antt =====
-- What `Tag` comes to.
use container_registry.Prelude.{
  ◌==◌, ◌&&◌, ok, none, ◌≡◌, ◌≢◌, refl, sym, ap, ◌∙◌, arith, Bool-cases, inl, inr,
}
use container_registry.Prelude.Bytes.{Bytes, codes, bytes_eq, bytes_beq_iff}
use container_registry.Prelude.Sets.{contains}
use container_registry.Offline.Tags.{Digest}
use container_registry.Vacuum.{DigestText, FilePath}
use container_registry.Storage.Join.Laws.{IsElement}
use container_registry.Storage.Paths.{
  manifest_tag_current, manifest_tag_index_entry_link, DigestParts,
}
use container_registry.Storage.Paths.Plain.{IsName}
use container_registry.Storage.Paths.Proper.{IsValid}
use container_registry.Storage.Paths.Elements.{path_for-elements}
use container_registry.Storage.Driver.{Driver}
use container_registry.Storage.Stores.{Written, then_write, link, link_blob, link_each}
use container_registry.Storage.Tags.{tag, get}
use container_registry.Storage.Tags.Changes.{
  tags, map_change, file, current, seen, get-seen, seen-codes, then_write-none, fault_of-none,
  current-injective, current-index,
}

module _ (t : DigestText) (p : DigestParts t) (v : Driver) where
  -- One link that is written.
  link-none :
      (path q : FilePath) (d : Digest) (s : v.Disk)
      → (link t p v path d s).0 ≡ none
      → (v.get_content path (link t p v path d s).1 ≡ ok (codes d))
        × (q ≢ path → v.get_content q (link t p v path d s).1 ≡ v.get_content q s)
  unfolding link
  link-none path q d s h =
      let wrote = fault_of-none (v.put_content path (codes d) s).0 h in
      (v.get-put path (codes d) s wrote, λ n. v.get-put_other path q (codes d) s wrote n)

  tag-writes :
      (n x : Bytes) (d : Digest) (s : v.Disk)
      → IsName n
      → IsElement x
      → IsValid t d
      → tag t p v n x d s
        ≡ then_write
            (then_write
              (link t p v (file t p v (manifest_tag_index_entry_link n x d)) d s)
              (λ s. (none, s)))
            (link t p v (current t p v n x) d)
  unfolding tag link_blob link_each contains
  tag-writes n x d s hn hx hd =
      rw
        (
          path_for-elements t p (manifest_tag_current n x) (hn, hx),
          path_for-elements t p (manifest_tag_index_entry_link n x d) (hn, hx, hd),
        )
        refl

  -- A tag that is written is seen, and no other changes.
  pub tag-get :
      (n x : Bytes) (d : Digest) (s : v.Disk) (m y : Bytes)
      → IsName n
      → IsElement x
      → IsValid t d
      → IsName m
      → IsElement y
      → (tag t p v n x d s).0 ≡ none
      → get t p v m y (tag t p v n x d s).1
        ≡ map_change t p v (tags n x d) (λ a b. get t p v a b s) m y
  tag-get n x d s m y hn hx hd hm hy h =
      let index = file t p v (manifest_tag_index_entry_link n x d) in
      let first = link t p v index d s in
      let written : tag t p v n x d s
          ≡ then_write (then_write first (λ s. (none, s))) (link t p v (current t p v n x) d) =
        tag-writes n x d s hn hx hd in
      let outer =
        then_write-none (then_write first (λ s. (none, s))) (link t p v (current t p v n x) d)
          (ap (λ (w : Written v.Disk). w.0) (sym written) ∙ h) in
      let inner = then_write-none first (λ s. (none, s)) outer.0 in
      let middle : (then_write first (λ s. (none, s))).1 ≡ first.1 =
        ap (λ (w : Written v.Disk). w.1) inner.1 in
      let last : tag t p v n x d s ≡ link t p v (current t p v n x) d first.1 =
        written ∙ (outer.1 ∙ ap (link t p v (current t p v n x) d) middle) in
      let ended : (link t p v (current t p v n x) d first.1).0 ≡ none =
        ap (λ (w : Written v.Disk). w.0) (sym last) ∙ h in
      let one = link-none index (current t p v m y) d s inner.0 in
      let two = link-none (current t p v n x) (current t p v m y) d first.1 ended in
      let kept = one.1 (current-index t p v m y n x d hm hy hn hx hd) in
      get-seen t p v m y (tag t p v n x d s).1 hm hy
      ∙ (ap (λ (w : Written v.Disk). seen t p v (v.get_content (current t p v m y) w.1)) last
          ∙ (elim (Bool-cases (n == m && x == y)) [
            | inl same ↦
                let names : n ≡ m = ground (arith, same, bytes_beq_iff n m) in
                let texts : x ≡ y = ground (arith, same, bytes_beq_iff x y) in
                rw same (
                  ap
                    (λ q. seen t p v (v.get_content q (link t p v (current t p v n x) d first.1).1))
                    (ap (λ m. current t p v m y) (sym names) ∙ ap (current t p v n) (sym texts))
                  ∙ (ap (seen t p v) two.0 ∙ seen-codes t p v d hd))
            | inr other ↦
                let differ : current t p v m y ≢ current t p v n x = λ e.
                  let both = current-injective t p v m y n x hm hy hn hx e in
                  ground (arith, other, both.0, both.1, bytes_beq_iff n m, bytes_beq_iff x y) in
                rw other (ap (seen t p v) (two.1 differ ∙ kept) ∙ sym (get-seen t p v m y s hm hy))
          ]))
