-- ===== src/Storage/Stores/Cleared.antt =====
-- What `Clear` and `Delete` of a repository's blobs come to: no link is left.
use container_registry.Prelude.{
  Bool, true, false, ok, err, List, ◌∷◌, [], Option, some, none, ◌≡◌, refl, sym, ap, subst, ◌∙◌,
  All, Bool-cases, inl, inr, Result-cases,
}
use container_registry.Prelude.Bytes.{Bytes, bytes_eq, bytes_beq_iff}
use container_registry.Offline.Tags.{Digest}
use container_registry.Vacuum.{DigestText, FilePath}
use container_registry.Storage.Paths.{DigestParts}
use container_registry.Storage.Driver.{Fault, path_not_found, other_fault, Driver, is_below}
use container_registry.Storage.Stores.{
  Descriptor, blob_unknown, Written, at_path, LinkPath, readlink, find_target, stat_linked, clear,
  delete_link, delete_linked,
}
use container_registry.Storage.Tags.Changes.{then_write-none}

module _ (t : DigestText) (p : DigestParts t) (v : Driver) where
  -- What one deletion without an error leaves.
  deleted :
      (path q : FilePath) (s : v.Disk)
      → (delete_link t p v path s).0 ≡ none
      → (v.get_content path (delete_link t p v path s).1 ≡ err path_not_found)
        × (v.get_content q s ≡ err path_not_found
            → v.get_content q (delete_link t p v path s).1 ≡ err path_not_found)
  deleted path q s h = by_fault (v.delete path s).0 refl
    where
      by_fault :
          (e : Option Fault)
          → (v.delete path s).0 ≡ e
          → (v.get_content path (v.delete path s).1 ≡ err path_not_found)
            × (v.get_content q s ≡ err path_not_found
                → v.get_content q (v.delete path s).1 ≡ err path_not_found)
      by_fault none e = (
        v.get-delete path path s e (rw ((bytes_beq_iff path path).1 refl) refl),
        λ absent. elim (Bool-cases (is_below path q)) [
          | inl below ↦ v.get-delete path q s e below
          | inr apart ↦ v.get-delete_other path q s e apart ∙ absent
        ],
      )
      by_fault (some path_not_found) e =
          let (same, absent) = v.delete-absent path s e in
          (ap (v.get_content path) same ∙ absent, λ before. ap (v.get_content q) same ∙ before)
      by_fault (some other_fault) e = cc (h, e)

  -- The link has no content.
  abbrev IsGone : Bytes → Digest → v.Disk → LinkPath → Type 0
  IsGone name d s f =
      (path : FilePath) × (f name d ≡ some path) × (v.get_content path s ≡ err path_not_found)

  formed :
      (o : Option FilePath) (s : v.Disk)
      → (at_path o (delete_link t p v) s).0 ≡ none
      → (path : FilePath) × (o ≡ some path)
  formed none s h = cc h
  formed (some path) s h = (path, refl)

  clear-keeps :
      (fs : List LinkPath) (name : Bytes) (d : Digest) (s : v.Disk) (q : FilePath)
      → (clear t p v fs name d s).0 ≡ none
      → v.get_content q s ≡ err path_not_found
      → v.get_content q (clear t p v fs name d s).1 ≡ err path_not_found
  unfolding clear
  clear-keeps [] name d s q h absent = absent
  clear-keeps (f ∷ fs) name d s q h absent =
      let step = at_path (f name d) (delete_link t p v) s in
      let (first, rest) = then_write-none step (λ s. clear t p v fs name d s) h in
      let (path, e) = formed (f name d) s first in
      let same : step ≡ delete_link t p v path s = ap (λ o. at_path o (delete_link t p v) s) e in
      let one = deleted path q s (ap (λ (w : Written v.Disk). w.0) (sym same) ∙ first) in
      ap (λ (w : Written v.Disk). v.get_content q w.1) rest
      ∙ clear-keeps fs name d step.1 q (ap (λ (w : Written v.Disk). w.0) (sym rest) ∙ h)
          (ap (λ (w : Written v.Disk). v.get_content q w.1) same ∙ one.1 absent)

  clear-IsGone :
      (fs : List LinkPath) (name : Bytes) (d : Digest) (s : v.Disk)
      → (clear t p v fs name d s).0 ≡ none
      → All (IsGone name d (clear t p v fs name d s).1) fs
  unfolding clear
  clear-IsGone [] name d s h = tt
  clear-IsGone (f ∷ fs) name d s h =
      let step = at_path (f name d) (delete_link t p v) s in
      let (first, rest) = then_write-none step (λ s. clear t p v fs name d s) h in
      let (path, e) = formed (f name d) s first in
      let same : step ≡ delete_link t p v path s = ap (λ o. at_path o (delete_link t p v) s) e in
      let one = deleted path path s (ap (λ (w : Written v.Disk). w.0) (sym same) ∙ first) in
      let after : (clear t p v fs name d step.1).0 ≡ none =
        ap (λ (w : Written v.Disk). w.0) (sym rest) ∙ h in
      let gone : v.get_content path step.1 ≡ err path_not_found =
        ap (λ (w : Written v.Disk). v.get_content path w.1) same ∙ one.0 in
      subst (λ (w : Written v.Disk). All (IsGone name d w.1) (f ∷ fs)) (sym rest)
        (
          (path, e, clear-keeps fs name d step.1 path after gone),
          clear-IsGone fs name d step.1 after,
        )

  gone-unknown :
      (fs : List LinkPath) (name : Bytes) (d : Digest) (s : v.Disk)
      → All (IsGone name d s) fs
      → find_target t p v name d s fs ≡ err blob_unknown
  unfolding find_target readlink
  gone-unknown [] name d s h = refl
  gone-unknown (f ∷ fs) name d s h =
      let (path, e, absent) = h.0 in rw (e, absent) (gone-unknown fs name d s h.1)

  -- Once `Clear` has succeeded, the repository does not know the digest, by any of the links.
  pub clear-stat :
      (fs : List LinkPath) (name : Bytes) (d : Digest) (s : v.Disk)
      → (clear t p v fs name d s).0 ≡ none
      → stat_linked t p v fs name d (clear t p v fs name d s).1 ≡ err blob_unknown
  unfolding stat_linked
  clear-stat fs name d s h =
      rw (gone-unknown fs name d (clear t p v fs name d s).1 (clear-IsGone fs name d s h)) refl

  -- A digest that was deleted from a repository without an error was to be deleted there and was
  -- described before, and the repository does not know it any more, by any of its links.
  pub delete_linked-stat :
      (enabled : Bool) (fs : List LinkPath) (name : Bytes) (d : Digest) (s : v.Disk)
      → (delete_linked t p v enabled fs name d s).0 ≡ none
      → (enabled ≡ true)
        × ((desc : Descriptor) × (stat_linked t p v fs name d s ≡ ok desc))
        × (stat_linked t p v fs name d (delete_linked t p v enabled fs name d s).1
            ≡ err blob_unknown)
  unfolding delete_linked
  delete_linked-stat false fs name d s h = cc h
  delete_linked-stat true fs name d s h = elim (Result-cases (stat_linked t p v fs name d s)) [
    | inr (e, known) ↦ cc (h, known)
    | inl (desc, known) ↦
        let same : delete_linked t p v true fs name d s ≡ clear t p v fs name d s = rw known refl in
        (
          refl,
          (desc, known),
          ap (λ (w : Written v.Disk). stat_linked t p v fs name d w.1) same
              ∙ clear-stat fs name d s (ap (λ (w : Written v.Disk). w.0) (sym same) ∙ h),
        )
  ]
