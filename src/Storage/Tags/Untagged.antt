-- ===== src/Storage/Tags/Untagged.antt =====
-- What `Untag` comes to.
use container_registry.Prelude.{
  ◌==◌, Bool, true, false, ◌&&◌, Result, ok, err, ◌∷◌, [], ◌++◌, none, ◌≡◌, refl, sym, ap, ◌∙◌,
  append_assoc, arith, Bool-cases, inl, inr,
}
use container_registry.Prelude.Bytes.{Bytes, codes, bytes_eq, bytes_beq_iff}
use container_registry.Vacuum.{DigestText}
use container_registry.Storage.Join.{parts}
use container_registry.Storage.Join.Laws.{IsElement, render}
use container_registry.Storage.Paths.{
  manifest_tag, manifest_tag_current, repository_root, DigestParts,
}
use container_registry.Storage.Paths.Plain.{IsName, repo}
use container_registry.Storage.Paths.Proper.{elements}
use container_registry.Storage.Paths.Elements.{path_for-elements, elements-IsElement}
use container_registry.Storage.Paths.Distinct.{low_split}
use container_registry.Storage.Paths.Below.{below-elements, below-append, repo-injective}
use container_registry.Storage.Driver.{Driver, is_below}
use container_registry.Storage.Stores.{StoreError, Written, at_path, exists}
use container_registry.Storage.Tags.{get, untag, untag_if, delete_path}
use container_registry.Storage.Tags.Changes.{
  untags, map_change, file, current, seen, get-seen, fault_of-none,
}

module _ (t : DigestText) (p : DigestParts t) (v : Driver) where
  untag_if-none :
      (n x : Bytes) (r : Result StoreError Bool) (s : v.Disk)
      → IsName n
      → IsElement x
      → (untag_if t p v n r x s).0 ≡ none
      → (untag_if t p v n r x s ≡ delete_path t p v n (file t p v (manifest_tag n x)) s)
        × ((v.delete (file t p v (manifest_tag n x)) s).0 ≡ none)
  untag_if-none n x (err e) s hn hx h = cc h
  untag_if-none n x (ok false) s hn hx h = cc h
  untag_if-none n x (ok true) s hn hx h =
      let path = path_for-elements t p (manifest_tag n x) (hn, hx) in
      let deleted : untag_if t p v n (ok true) x s
          ≡ delete_path t p v n (file t p v (manifest_tag n x)) s =
        ap (λ o. at_path o (delete_path t p v n) s) path in
      (
        deleted,
        fault_of-none (v.delete (file t p v (manifest_tag n x)) s).0
            (ap (λ (w : Written v.Disk). w.0) (sym deleted) ∙ h),
      )

  below_current :
      (n x m y : Bytes)
      → IsName n
      → IsElement x
      → IsName m
      → IsElement y
      → is_below (file t p v (manifest_tag n x)) (current t p v m y) ≡ true
      → (n ≡ m) × (x ≡ y)
  unfolding low_split
  below_current n x m y hn hx hm hy h =
      let (r, e) =
        below-elements (elements t (manifest_tag n x)) (elements t (manifest_tag_current m y))
          (elements-IsElement t p (manifest_tag n x) (hn, hx))
          (elements-IsElement t p (manifest_tag_current m y) (hm, hy)) h in
      let whole : repo m
            (codes "_manifests" ∷ codes "tags" ∷ y ∷ codes "current" ∷ codes "link" ∷ [])
          ≡ repo n (codes "_manifests" ∷ codes "tags" ∷ x ∷ r) =
        e
        ∙ ap (λ cs. codes "docker" ∷ codes "registry" ∷ codes "v2" ∷ codes "repositories" ∷ cs)
            (append_assoc (parts n) (codes "_manifests" ∷ codes "tags" ∷ x ∷ []) r) in
      let both =
        repo-injective m n
          (codes "_manifests" ∷ codes "tags" ∷ y ∷ codes "current" ∷ codes "link" ∷ [])
          (codes "_manifests" ∷ codes "tags" ∷ x ∷ r) hm hn refl refl whole in
      let rests = both.1 in (sym both.0, cc rests)

  current_below :
      (n x : Bytes) → is_below (file t p v (manifest_tag n x)) (current t p v n x) ≡ true
  current_below n x =
      let front =
        codes "registry"
        ∷ codes "v2"
        ∷ codes "repositories"
        ∷ (parts n ++ codes "_manifests" ∷ codes "tags" ∷ x ∷ []) in
      ap
        (λ cs.
          is_below (file t p v (manifest_tag n x))
            (render (codes "docker" ∷ codes "registry" ∷ codes "v2" ∷ codes "repositories" ∷ cs)))
        (sym (
          append_assoc (parts n) (codes "_manifests" ∷ codes "tags" ∷ x ∷ [])
            (codes "current" ∷ codes "link" ∷ [])))
      ∙ below-append (codes "docker") front (codes "current") (codes "link" ∷ [])

  -- A tag that is removed is unknown, and no other changes.
  pub untag-get :
      (n x : Bytes) (s : v.Disk) (m y : Bytes)
      → IsName n
      → IsElement x
      → IsName m
      → IsElement y
      → (untag t p v n x s).0 ≡ none
      → get t p v m y (untag t p v n x s).1
        ≡ map_change t p v (untags n x) (λ a b. get t p v a b s) m y
  unfolding untag
  untag-get n x s m y hn hx hm hy h =
      let root = file t p v (repository_root n) in
      let formed : untag t p v n x s ≡ untag_if t p v n (exists t p v root s) x s =
        ap (λ o. at_path o (λ path s. untag_if t p v n (exists t p v path s) x s) s)
          (path_for-elements t p (repository_root n) hn) in
      let done =
        untag_if-none n x (exists t p v root s) s hn hx
          (ap (λ (w : Written v.Disk). w.0) (sym formed) ∙ h) in
      let dir = file t p v (manifest_tag n x) in
      get-seen t p v m y (untag t p v n x s).1 hm hy
      ∙ (ap (λ (w : Written v.Disk). seen t p v (v.get_content (current t p v m y) w.1))
            (formed ∙ done.0)
          ∙ (elim (Bool-cases (n == m && x == y)) [
            | inl same ↦
                let names : n ≡ m = ground (arith, same, bytes_beq_iff n m) in
                let texts : x ≡ y = ground (arith, same, bytes_beq_iff x y) in
                let below : is_below dir (current t p v m y) ≡ true =
                  ap (is_below dir)
                    (ap (λ m. current t p v m y) (sym names) ∙ ap (current t p v n) (sym texts))
                  ∙ current_below n x in
                rw same (ap (seen t p v) (v.get-delete dir (current t p v m y) s done.1 below))
            | inr other ↦
                let apart : is_below dir (current t p v m y) ≡ false =
                  elim (Bool-cases (is_below dir (current t p v m y))) [
                    | inr outside ↦ outside
                    | inl inside ↦
                        let both = below_current n x m y hn hx hm hy inside in
                        ground (arith, other, both.0, both.1, bytes_beq_iff n m, bytes_beq_iff x y)
                  ] in
                rw other (
                  ap (seen t p v) (v.get-delete_other dir (current t p v m y) s done.1 apart)
                  ∙ sym (get-seen t p v m y s hm hy))
          ]))
