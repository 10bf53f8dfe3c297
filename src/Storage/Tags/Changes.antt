-- ===== src/Storage/Tags/Changes.antt =====
-- Changes of the tags of all repositories on one disk, and the map that they change.
use container_registry.Prelude.{
  ◌==◌, ◌&&◌, if◌then◌else◌, Result, ok, err, ◌>>=◌, List, ◌∷◌, [], Option, some, none, ◌≡◌, ◌≢◌,
  refl, sym, ap, ◌∙◌,
}
use container_registry.Prelude.Bytes.{Bytes, codes, bytes_eq}
use container_registry.Offline.Tags.{Digest}
use container_registry.Vacuum.{DigestText, FilePath}
use container_registry.Storage.Join.Laws.{IsElement, render}
use container_registry.Storage.Paths.{
  PathSpec, manifest_tag_current, manifest_tag_index_entry_link, DigestParts,
}
use container_registry.Storage.Paths.Plain.{IsName}
use container_registry.Storage.Paths.Proper.{IsValid, IsProper, elements}
use container_registry.Storage.Paths.Elements.{path_for-elements}
use container_registry.Storage.Paths.Distinct.{path_for-injective}
use container_registry.Storage.Driver.{Fault, Driver}
use container_registry.Storage.Stores.{
  StoreError, tag_unknown, from_driver, Written, then_write, fault_of, readlink, parsed,
}
use container_registry.Storage.Tags.{tag, get, untag, or_unknown}

pub then_write-none :
    {Disk : Type 0} (w : Written Disk) (f : Disk → Written Disk)
    → (then_write w f).0 ≡ none
    → (w.0 ≡ none) × (then_write w f ≡ f w.1)
then_write-none (none, s) f h = (refl, refl)
then_write-none (some e, s) f h = cc h

pub fault_of-none : (e : Option Fault) → fault_of e ≡ none → e ≡ none
fault_of-none none h = refl
fault_of-none (some f) h = cc h

module _ (t : DigestText) (p : DigestParts t) (v : Driver) where
  -- What a change of tags asks for.
  pub data TagChange : Type 0 where
    tags : (name : Bytes) → (text : Bytes) → (d : Digest) → TagChange
    untags : (name : Bytes) → (text : Bytes) → TagChange

  abbrev pub IsProperChange : TagChange → Type 0
  IsProperChange (tags name text d) = IsName name × IsElement text × IsValid t d
  IsProperChange (untags name text) = IsName name × IsElement text

  abbrev pub tag_change : TagChange → v.Disk → Written v.Disk
  tag_change (tags name text d) s = tag t p v name text d s
  tag_change (untags name text) s = untag t p v name text s

  -- The changes one after another, up to the first error.
  unfoldable pub tag_changes : List TagChange → v.Disk → Written v.Disk
  tag_changes [] s = (none, s)
  tag_changes (c ∷ cs) s = then_write (tag_change c s) (tag_changes cs)

  abbrev pub TagMap : Type 0
  TagMap = Bytes → Bytes → Result StoreError Digest

  abbrev pub map_change : TagChange → TagMap → TagMap
  map_change (tags name text d) f n x = if name == n && text == x then ok d else f n x
  map_change (untags name text) f n x = if name == n && text == x then err tag_unknown else f n x

  unfoldable pub map_changes : List TagChange → TagMap → TagMap
  map_changes [] f n x = f n x
  map_changes (c ∷ cs) f n x = map_changes cs (map_change c f) n x

  -- the file of a proper specification
  abbrev pub file : PathSpec → FilePath
  file s = render (elements t s)

  pub file-injective : (a b : PathSpec) → IsProper t a → IsProper t b → file a ≡ file b → a ≡ b
  file-injective a b ha hb e =
      path_for-injective t p a b ha hb
        (path_for-elements t p a ha ∙ (ap some e ∙ sym (path_for-elements t p b hb)))

  abbrev pub current : Bytes → Bytes → FilePath
  current n x = file (manifest_tag_current n x)

  -- What a tag is, by what its current link reads.
  abbrev pub seen : Result Fault Bytes → Result StoreError Digest
  seen r = or_unknown t p v [] (from_driver r >>= λ content. parsed t p v (p.parse content))

  pub get-seen :
      (n x : Bytes) (s : v.Disk)
      → IsName n
      → IsElement x
      → get t p v n x s ≡ seen (v.get_content (current n x) s)
  unfolding get readlink
  get-seen n x s hn hx = rw (path_for-elements t p (manifest_tag_current n x) (hn, hx)) refl

  pub seen-codes : (d : Digest) → IsValid t d → seen (ok (codes d)) ≡ ok d
  seen-codes d h = rw (p.parse-codes d h) refl

  pub current-injective :
      (n x m y : Bytes)
      → IsName n
      → IsElement x
      → IsName m
      → IsElement y
      → current n x ≡ current m y
      → (n ≡ m) × (x ≡ y)
  current-injective n x m y hn hx hm hy e =
      let same : manifest_tag_current n x ≡ manifest_tag_current m y =
        file-injective (manifest_tag_current n x) (manifest_tag_current m y) (hn, hx) (hm, hy) e in
      (cc same, cc same)

  pub current-index :
      (n x m y : Bytes) (d : Digest)
      → IsName n
      → IsElement x
      → IsName m
      → IsElement y
      → IsValid t d
      → current n x ≢ file (manifest_tag_index_entry_link m y d)
  current-index n x m y d hn hx hm hy hd e =
      let same : manifest_tag_current n x ≡ manifest_tag_index_entry_link m y d =
        file-injective (manifest_tag_current n x) (manifest_tag_index_entry_link m y d) (hn, hx)
          (hm, hy, hd) e in
      cc same
