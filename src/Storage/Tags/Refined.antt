-- ===== src/Storage/Tags/Refined.antt =====
-- The tags of all repositories on one disk against a map from names and tags to digests.
use container_registry.Prelude.{
  ◌==◌, ◌&&◌, if◌then◌else◌, ok, err, List, ◌∷◌, [], none, ◌≡◌, refl, sym, ap, ◌∙◌, All,
}
use container_registry.Prelude.Bytes.{Bytes, bytes_eq}
use container_registry.Vacuum.{DigestText}
use container_registry.Storage.Join.Laws.{IsElement}
use container_registry.Storage.Paths.{DigestParts}
use container_registry.Storage.Paths.Plain.{IsName}
use container_registry.Storage.Driver.{Driver}
use container_registry.Storage.Stores.{tag_unknown, Written}
use container_registry.Storage.Tags.{get}
use container_registry.Storage.Tags.Changes.{
  TagChange, tags, untags, IsProperChange, tag_change, tag_changes, TagMap, map_change, map_changes,
  then_write-none,
}
use container_registry.Storage.Tags.Tagged.{tag-get}
use container_registry.Storage.Tags.Untagged.{untag-get}

module _ (t : DigestText) (p : DigestParts t) (v : Driver) where
  change-get :
      (c : TagChange t p v) (s : v.Disk) (m y : Bytes)
      → IsProperChange t p v c
      → IsName m
      → IsElement y
      → (tag_change t p v c s).0 ≡ none
      → get t p v m y (tag_change t p v c s).1 ≡ map_change t p v c (λ a b. get t p v a b s) m y
  change-get (tags n x d) s m y (hn, hx, hd) hm hy h = tag-get t p v n x d s m y hn hx hd hm hy h
  change-get (untags n x) s m y (hn, hx) hm hy h = untag-get t p v n x s m y hn hx hm hy h

  map_change-cong :
      (c : TagChange t p v) (f g : TagMap t p v) (m y : Bytes)
      → f m y ≡ g m y
      → map_change t p v c f m y ≡ map_change t p v c g m y
  map_change-cong (tags n x d) f g m y e = ap (λ r. if n == m && x == y then ok d else r) e
  map_change-cong (untags n x) f g m y e =
      ap (λ r. if n == m && x == y then err tag_unknown else r) e

  map_changes-cong :
      (cs : List (TagChange t p v)) (f g : TagMap t p v) (m y : Bytes)
      → f m y ≡ g m y
      → map_changes t p v cs f m y ≡ map_changes t p v cs g m y
  unfolding map_changes
  map_changes-cong [] f g m y e = e
  map_changes-cong (c ∷ cs) f g m y e =
      map_changes-cong cs (map_change t p v c f) (map_change t p v c g) m y
        (map_change-cong c f g m y e)

  -- After changes with proper names and tags and valid digests that all succeed, each tag of each
  -- repository is got as from a map with the same changes, whatever else is on the disk.
  pub tag_changes-refine :
      (cs : List (TagChange t p v)) (s : v.Disk) (m y : Bytes)
      → All (IsProperChange t p v) cs
      → (tag_changes t p v cs s).0 ≡ none
      → IsName m
      → IsElement y
      → get t p v m y (tag_changes t p v cs s).1 ≡ map_changes t p v cs (λ a b. get t p v a b s) m y
  unfolding tag_changes map_changes
  tag_changes-refine [] s m y hs h hm hy = refl
  tag_changes-refine (c ∷ cs) s m y hs h hm hy =
      let steps = then_write-none (tag_change t p v c s) (tag_changes t p v cs) h in
      let rest_none : (tag_changes t p v cs (tag_change t p v c s).1).0 ≡ none =
        ap (λ (w : Written v.Disk). w.0) (sym steps.1) ∙ h in
      ap (λ (w : Written v.Disk). get t p v m y w.1) steps.1
      ∙ (tag_changes-refine cs (tag_change t p v c s).1 m y hs.1 rest_none hm hy
          ∙ map_changes-cong cs (λ a b. get t p v a b (tag_change t p v c s).1)
              (map_change t p v c (λ a b. get t p v a b s)) m y
              (change-get c s m y hs.0 hm hy steps.0))
