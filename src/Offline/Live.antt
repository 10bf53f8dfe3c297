-- ===== src/Offline/Live.antt =====
-- What offline garbage collection has to keep, read off the repository alone: no sets, no cache.
pub mod Marked
pub mod Planned
pub mod Swept
pub mod Collected
use container_registry.Prelude.{Bool, true, false, List, ◌≡◌, In}
use container_registry.Offline.Tags.{Digest}
use container_registry.Offline.Tags.Loaded.{IsTagged}
use container_registry.Offline.Mark.{Repository}
use container_registry.Offline.Mark.Marking.{Refers, Layer, Entry}

-- An enumerated manifest to which a tag points.
pub record IsRoot (r : Repository) (d : Digest) : Type 0 where
  pub enumerated : In d r.manifests.items
  pub tagged : IsTagged r.tags d

-- A blob that garbage collection keeps for this repository. Without the removal of untagged
-- manifests: every enumerated manifest and what it refers to. With it: every tagged manifest, the
-- layers of tagged images, the entries of tagged lists, and what those entries refer to.
pub data Live (remove : Bool) (r : Repository) (x : Digest) : Type 0 where
  manifest : remove ≡ false → In x r.manifests.items → Live remove r x
  reference :
      (d : Digest) → remove ≡ false → In d r.manifests.items → Refers r.get d x → Live remove r x
  tagged : remove ≡ true → IsRoot r x → Live remove r x
  tagged_layer : (d : Digest) → remove ≡ true → IsRoot r d → Layer r.get d x → Live remove r x
  listed : (d : Digest) → remove ≡ true → IsRoot r d → Entry r.get d x → Live remove r x
  listed_reference :
      (d c : Digest)
      → remove ≡ true
      → IsRoot r d
      → Entry r.get d c
      → Refers r.get c x
      → Live remove r x
