-- ===== src/Tests/Offline.antt =====
-- Offline garbage collection on a small registry: a tagged manifest list with one image, and an
-- old image that no tag points to.
use container_registry.Prelude.{
  true, false, ok, List, [], ◌∷◌, none, some, ◌≡◌, refl, ◌↔◌, In, here, there, if◌then◌else◌, ◌==◌,
  string_eq, length, All, ◌<◌, ◌≤◌,
}
use container_registry.Prelude.Bytes.{codes}
use container_registry.Prelude.Sets.{contains, insert, insert_all, put}
use container_registry.Offline.Errors.{Res}
use container_registry.Offline.Tags.{Digest, TagSource, target, absent, lookup, all}
use container_registry.Offline.Mark.{
  Repository, Manifest, manifest_list, image, ManifestDel, visit_all, tolerate, mark_tagged,
  mark_all_tagged, select_untagged, mark_referenced, mark_all_referenced, prime_tags,
  delete_untagged, mark_by_tags, mark_rest, mark_found, mark_repository,
}
use container_registry.Offline.Mark.Marking.{entry}
use container_registry.Offline.Live.{listed, IsRoot}
use container_registry.Offline.Live.Planned.{LiveIn, keeps, plan_exact}
use container_registry.Offline.Live.Collected.{mark_and_sweep-removes}
use container_registry.Offline.Live.Swept.{mark_and_sweep-keeps}
use container_registry.Offline.Plan.{done, Namespace, Options, Plan, plan, mark_and_sweep}
use container_registry.Vacuum.{
  remove_manifests, all_links, tag_links, manifest_link, tag_link, link_tail, remove_batches,
  remove_manifests_batch, delete_links, remove_blobs, blob_data_paths, FilePath, blob_data_path,
  batches, max_batch_size,
}
use container_registry.Vacuum.Batches.{flatten, batches_partition}
use container_registry.Tests.Storage.{sha256, disk}

abbrev tags : TagSource
tags = record {
  all_tags = ok ("latest" ∷ "gone" ∷ []);
  current = λ t. if t == "latest" then target "list" else absent;
}

abbrev get_manifest : Digest → Res Manifest
get_manifest d =
    if d == "list"
    then ok (manifest_list ("img" ∷ []))
    else if d == "img"
    then ok (image ("layer" ∷ []))
    else ok (image ("dead" ∷ []))

abbrev app : Repository
app = record {
  tags = tags;
  manifests = record { items = "img" ∷ "list" ∷ "old" ∷ []; ending = none };
  get = get_manifest;
}

abbrev registry : Namespace
registry = record {
  repositories = "app" ∷ [];
  ending = none;
  open_repository = λ n. ok app;
  blobs = record { items = "dead" ∷ "img" ∷ "layer" ∷ "list" ∷ "old" ∷ []; ending = none };
}

abbrev remove_all : Options
remove_all = record { dry_run = false; remove_untagged = true }

abbrev old_manifest : ManifestDel
old_manifest = record { name = "app"; digest = "old"; tags = "latest" ∷ [] }

abbrev planned : Plan
planned = record { deletions = old_manifest ∷ []; blobs = "old" ∷ "dead" ∷ [] }

plan-registry : plan remove_all registry ≡ ok planned
unfolding plan mark_repository mark_found mark_rest mark_by_tags delete_untagged select_untagged
    mark_all_tagged mark_tagged mark_all_referenced mark_referenced visit_all tolerate prime_tags
    lookup all contains insert insert_all put
plan-registry = refl

plan_exact_example :
    In "dead" planned.blobs
    ↔ (In "dead" registry.blobs.items × ¬ LiveIn true registry registry.repositories "dead")
plan_exact_example = plan_exact remove_all registry planned plan-registry "dead"

list-IsRoot : IsRoot app "list"
list-IsRoot = record {
  enumerated = there here;
  tagged = record {
    names = "latest" ∷ "gone" ∷ [];
    listed = refl;
    tag = "latest";
    is_name = here;
    points = refl;
  };
}

abbrev files : List FilePath
files =
    codes "/docker/registry/v2/blobs/sha256/im/img/data"
    ∷ codes "/docker/registry/v2/blobs/sha256/ol/old/data"
    ∷ []

img_path : blob_data_path sha256 "img" ≡ some (codes "/docker/registry/v2/blobs/sha256/im/img/data")
unfolding blob_data_path
img_path = refl

mark_and_sweep-keeps_example :
    disk.has
      (codes "/docker/registry/v2/blobs/sha256/im/img/data")
      (mark_and_sweep sha256 disk remove_all registry files).1
    ≡ disk.has (codes "/docker/registry/v2/blobs/sha256/im/img/data") files
mark_and_sweep-keeps_example =
    mark_and_sweep-keeps sha256 disk "img" (codes "/docker/registry/v2/blobs/sha256/im/img/data")
      img_path remove_all registry files
      (keeps "app" app here refl (listed "list" refl list-IsRoot (entry ("img" ∷ []) refl here)))

batches_partition_example :
    (flatten (batches (old_manifest ∷ [])) ≡ old_manifest ∷ [])
    × All (λ b. (0 < length b) × (length b ≤ max_batch_size)) (batches (old_manifest ∷ []))
batches_partition_example = batches_partition (old_manifest ∷ [])

abbrev img : Digest
img = "img"

dead_path :
    blob_data_path sha256 "dead" ≡ some (codes "/docker/registry/v2/blobs/sha256/de/dead/data")
unfolding blob_data_path
dead_path = refl

abbrev stored : List FilePath
stored = codes "/docker/registry/v2/blobs/sha256/de/dead/data" ∷ files

run_done : (mark_and_sweep sha256 disk remove_all registry stored).0 ≡ done
unfolding mark_and_sweep plan mark_repository mark_found mark_rest mark_by_tags delete_untagged
    select_untagged mark_all_tagged mark_tagged mark_all_referenced mark_referenced visit_all
    tolerate prime_tags lookup all contains insert insert_all put remove_manifests all_links
    tag_links manifest_link tag_link link_tail remove_batches remove_manifests_batch delete_links
    batches remove_blobs blob_data_paths blob_data_path
run_done = refl

mark_and_sweep-removes_example :
    disk.has
      (codes "/docker/registry/v2/blobs/sha256/de/dead/data")
      (mark_and_sweep sha256 disk remove_all registry stored).1
    ≡ false
mark_and_sweep-removes_example =
    mark_and_sweep-removes sha256 disk "dead"
      (codes "/docker/registry/v2/blobs/sha256/de/dead/data") dead_path remove_all registry stored
      refl run_done here
      ((plan_exact remove_all registry planned plan-registry "dead").0 (there here)).1
