-- ===== src/Storage/Paths/Pieces.antt =====
-- The pieces that paths are joined of.
use container_registry.Prelude.{
  ℕ, ◌≤◌, Bool, false, if◌then◌else◌, List, [], ◌∷◌, ◌++◌, some, ◌≡◌, ◌≢◌, refl, ap, ◌∙◌, All,
  append_assoc, arith, length, take, suc,
}
use container_registry.Prelude.Bytes.{Bytes, codes}
use container_registry.Offline.Tags.{Digest}
use container_registry.Vacuum.{DigestText}
use container_registry.Vacuum.Paths.{replace_plain, take-Lacks}
use container_registry.Storage.Join.{parts, path_join}
use container_registry.Storage.Join.Laws.{
  IsElement, parts_all, parts_all-elements, path_join-elements, parts-join, render,
}
use container_registry.Storage.Paths.{
  manifest_revision, DigestParts, repo_prefix, digest_path_components, tags_path, tag_path,
  index_path, revision_path, join_digest, join_link, index_entry,
}
use container_registry.Storage.Paths.Plain.{
  IsName, repo, is_element-IsElement, dotless-IsElement, repo-elements, join-behind, join-repo,
  join-in_repo,
}
use container_registry.Storage.Paths.Proper.{IsValid, short, long, elements}

pub link_element : All IsElement (codes "link" ∷ [])
link_element = (is_element-IsElement (codes "link") refl, tt)

pub revisions_elements : All IsElement (codes "_manifests" ∷ codes "revisions" ∷ [])
revisions_elements = (
  is_element-IsElement (codes "_manifests") refl,
  (is_element-IsElement (codes "revisions") refl, tt),
)

pub tags_elements : All IsElement (codes "_manifests" ∷ codes "tags" ∷ [])
tags_elements =
    (is_element-IsElement (codes "_manifests") refl, (is_element-IsElement (codes "tags") refl, tt))

pub tag-elements :
    (tag : Bytes) → IsElement tag → All IsElement (codes "_manifests" ∷ codes "tags" ∷ tag ∷ [])
tag-elements tag e = (tags_elements.0, (tags_elements.1.0, (e, tt)))

pub index-elements :
    (tag : Bytes)
    → IsElement tag
    → All IsElement (codes "_manifests" ∷ codes "tags" ∷ tag ∷ codes "index" ∷ [])
index-elements tag e =
    (tags_elements.0, (tags_elements.1.0, (e, (is_element-IsElement (codes "index") refl, tt))))

pub current_elements : All IsElement (codes "current" ∷ codes "link" ∷ [])
current_elements = (is_element-IsElement (codes "current") refl, link_element)

pub tags_path-elements :
    (name : Bytes)
    → IsName name
    → tags_path name ≡ render (repo name (codes "_manifests" ∷ codes "tags" ∷ []))
tags_path-elements name n = join-repo name (codes "_manifests" ∷ codes "tags" ∷ []) n tags_elements

pub tag_path-elements :
    (name tag : Bytes)
    → IsName name
    → IsElement tag
    → tag_path name tag ≡ render (repo name (codes "_manifests" ∷ codes "tags" ∷ tag ∷ []))
tag_path-elements name tag n e =
    ap (λ root. path_join (root ∷ tag ∷ [])) (tags_path-elements name n)
    ∙ join-in_repo name (codes "_manifests" ∷ codes "tags" ∷ []) (tag ∷ []) n tags_elements (e, tt)

pub index_path-elements :
    (name tag : Bytes)
    → IsName name
    → IsElement tag
    → index_path name tag
      ≡ render (repo name (codes "_manifests" ∷ codes "tags" ∷ tag ∷ codes "index" ∷ []))
index_path-elements name tag n e =
    ap (λ root. path_join (root ∷ codes "index" ∷ [])) (tag_path-elements name tag n e)
    ∙ join-in_repo name (codes "_manifests" ∷ codes "tags" ∷ tag ∷ []) (codes "index" ∷ []) n
        (tag-elements tag e) (is_element-IsElement (codes "index") refl, tt)

module _ (t : DigestText) (p : DigestParts t) where
  pub algorithm-IsElement : (d : Digest) → IsValid t d → IsElement (t.algorithm d)
  algorithm-IsElement d v =
      let (slash, plus, full, semi) = t.plain_algorithm d v in
      dotless-IsElement (t.algorithm d) slash full (t.named d v)

  pub nonempty_of : (n : ℕ) (s : Bytes) → suc n ≤ length s → s ≢ []
  nonempty_of n [] h e = omega (arith, h)
  nonempty_of n (c ∷ s) h e = cc e

  pub take-nonempty : (n : ℕ) (s : Bytes) → suc n ≤ length s → take (suc n) s ≢ []
  take-nonempty n [] h e = omega (arith, h)
  take-nonempty n (c ∷ s) h e = cc e

  pub hex-IsElement : (d : Digest) → IsValid t d → IsElement (t.hex d)
  hex-IsElement d v =
      dotless-IsElement (t.hex d) (t.plain_hex d v) (p.dotless_hex d v)
        (nonempty_of 1 (t.hex d) (p.long_hex d v))

  pub two-IsElement : (d : Digest) → IsValid t d → IsElement (take 2 (t.hex d))
  two-IsElement d v =
      dotless-IsElement (take 2 (t.hex d)) (take-Lacks b'/' 2 (t.hex d) (t.plain_hex d v))
        (take-Lacks b'.' 2 (t.hex d) (p.dotless_hex d v))
        (take-nonempty 1 (t.hex d) (p.long_hex d v))

  pub components-valid :
      (d : Digest) (multilevel : Bool)
      → IsValid t d
      → digest_path_components t d multilevel ≡ some (if multilevel then long t d else short t d)
  unfolding digest_path_components
  components-valid d multilevel v =
      let (slash, plus, full, semi) = t.plain_algorithm d v in
      let same = replace_plain (t.algorithm d) plus full semi in ground (arith, v, same)

  pub short-elements : (d : Digest) → IsValid t d → All IsElement (short t d)
  short-elements d v = (algorithm-IsElement d v, (hex-IsElement d v, tt))

  pub long-elements : (d : Digest) → IsValid t d → All IsElement (long t d)
  long-elements d v = (algorithm-IsElement d v, (two-IsElement d v, (hex-IsElement d v, tt)))

  pub revision_elements :
      (d : Digest)
      → IsValid t d
      → All IsElement (codes "_manifests" ∷ codes "revisions" ∷ short t d)
  revision_elements d v = (revisions_elements.0, (revisions_elements.1.0, short-elements d v))

  pub revision_path-elements :
      (name : Bytes) (d : Digest)
      → IsName name
      → IsValid t d
      → revision_path t name d ≡ some (render (elements t (manifest_revision name d)))
  revision_path-elements name d n v = rw (components-valid d false v) (
      ap some (
        join-repo name (codes "_manifests" ∷ codes "revisions" ∷ short t d) n
          (revision_elements d v)))

  pub join-link :
      (name : Bytes) (cs : List Bytes)
      → IsName name
      → All IsElement cs
      → join_link (some (render (repo name cs)))
        ≡ some (render (repo name (cs ++ codes "link" ∷ [])))
  join-link name cs n h = ap some (join-in_repo name cs (codes "link" ∷ []) n h link_element)

  pub layer_elements : (d : Digest) → IsValid t d → All IsElement (codes "_layers" ∷ short t d)
  layer_elements d v = (is_element-IsElement (codes "_layers") refl, short-elements d v)

  pub layer_path-elements :
      (name : Bytes) (d : Digest)
      → IsName name
      → IsValid t d
      → join_digest
          (repo_prefix ++ name ∷ codes "_layers" ∷ [])
          (digest_path_components t d false)
          []
        ≡ some (render (repo name (codes "_layers" ∷ short t d)))
  layer_path-elements name d n v =
      rw (components-valid d false v)
        (ap some (join-repo name (codes "_layers" ∷ short t d) n (layer_elements d v)))

  abbrev pub entry : Bytes → Digest → List Bytes
  entry tag d = codes "_manifests" ∷ codes "tags" ∷ tag ∷ codes "index" ∷ short t d

  pub entry-elements :
      (tag : Bytes) (d : Digest) → IsElement tag → IsValid t d → All IsElement (entry tag d)
  entry-elements tag d e v =
      let h = index-elements tag e in (h.0, (h.1.0, (e, (h.1.1.1.0, short-elements d v))))

  pub short_parts : (d : Digest) → IsValid t d → parts_all (path_join (short t d) ∷ []) ≡ short t d
  unfolding parts_all
  short_parts d v =
      let h = short-elements d v in
      rw (path_join-elements (t.algorithm d) (t.hex d ∷ []) h)
        (rw (parts-join (short t d)) (rw (parts_all-elements (short t d) h) refl))

  pub entry_path-elements :
      (name tag : Bytes) (d : Digest)
      → IsName name
      → IsElement tag
      → IsValid t d
      → index_entry (index_path name tag) (digest_path_components t d false)
        ≡ some (render (repo name (entry tag d)))
  entry_path-elements name tag d n e v =
      let index = codes "_manifests" ∷ codes "tags" ∷ tag ∷ codes "index" ∷ [] in
      let same = short_parts d v in
      rw (components-valid d false v, index_path-elements name tag n e)
        (ap some (
          join-behind (repo name index) (path_join (short t d) ∷ [])
            (repo-elements name index n (index-elements tag e)) (rw same (short-elements d v))
          ∙ rw (same, append_assoc (parts name) index (short t d)) refl))

  pub upload_elements :
      (id last : Bytes)
      → IsElement id
      → IsElement last
      → All IsElement (codes "_uploads" ∷ id ∷ last ∷ [])
  upload_elements id last i l = (is_element-IsElement (codes "_uploads") refl, (i, (l, tt)))
