-- ===== src/Tests/Stores.antt =====
-- Paths, blobs and tags of two repositories on a small disk.
use container_registry.Prelude.{
  map, true, false, ok, err, List, [], ◌∷◌, some, none, ◌≡◌, refl, All,
}
use container_registry.Prelude.Bytes.{Bytes, codes, is_prefix}
use container_registry.Prelude.Sets.{contains}
use container_registry.Prelude.Int.{pos}
use container_registry.Offline.Mark.{ManifestDel}
use container_registry.Vacuum.{FilePath, blob_data_path, manifest_link, tag_link}
use container_registry.Storage.Join.{
  path_split, split, parts, resolve, join_slash, clean, path_join,
}
use container_registry.Storage.Join.Laws.{IsElement}
use container_registry.Storage.Paths.{
  manifest_tag_current, manifest_revision_link, manifest_tag_index_entry_link, blob_data,
  upload_hash_state, path_for, digest_path_components, decimal, digits, digest_from_path,
}
use container_registry.Storage.Paths.Plain.{IsName, is_element-IsElement}
use container_registry.Storage.Paths.Distinct.{path_for-injective}
use container_registry.Storage.Paths.Back.{digest_from_path-blob_data}
use container_registry.Storage.Paths.Agreed.{path_for-vacuum}
use container_registry.Storage.Stores.{
  Descriptor, blob_unknown, link, readlink, exists, stat_blob, put_blob, link_each, link_blob,
  find_target, stat_linked, clear, put_linked, delete_linked, blob_link_path,
}
use container_registry.Storage.Stores.Stored.{put_linked-stat}
use container_registry.Storage.Stores.Cleared.{delete_linked-stat}
use container_registry.Storage.Tags.{tag, get, untag}
use container_registry.Storage.Tags.Changes.{
  TagChange, tags, untags, IsProperChange, tag_changes, map_changes,
}
use container_registry.Storage.Tags.Refined.{tag_changes-refine}
use container_registry.Storage.Removal.{remove_repository}
use container_registry.Storage.Driver.{FileInfo}
use container_registry.Storage.Enumerate.{enumerate}
use container_registry.Storage.Enumerate.Whole.{
  Walked, stored, other, IsWalked, file_of, digests_of, enumerate-digests,
}
use container_registry.Tests.Registry.{first, second, known, known_parts, files}

abbrev pub app : Bytes
app = codes "lib/app"

pub app-IsName : IsName app
unfolding parts split join_slash
app-IsName = record {
  joined = refl;
  elements =
      (is_element-IsElement (codes "lib") refl, (is_element-IsElement (codes "app") refl, tt));
  named = λ e. cc e;
  high = (refl, (refl, tt));
}

latest-IsElement : IsElement (codes "latest")
latest-IsElement = is_element-IsElement (codes "latest") refl

path_for-injective_example :
    manifest_tag_current app (codes "latest") ≡ manifest_tag_current app (codes "latest")
path_for-injective_example =
    path_for-injective known known_parts (manifest_tag_current app (codes "latest"))
      (manifest_tag_current app (codes "latest")) (app-IsName, latest-IsElement)
      (app-IsName, latest-IsElement) refl

current_path :
    path_for known (manifest_tag_current app (codes "latest"))
    ≡ some (codes "/docker/registry/v2/repositories/lib/app/_manifests/tags/latest/current/link")
unfolding path_for path_join clean resolve parts split join_slash
current_path = refl

first_path :
    path_for known (blob_data first) ≡ some (codes "/docker/registry/v2/blobs/sha256/ab/ab12/data")
unfolding path_for path_join clean resolve parts split join_slash digest_path_components
first_path = refl

-- Names are cleaned: a name that steps up leaves the repositories.
stepping_up :
    path_join (codes "/docker/registry/" ∷ codes "v2" ∷ codes "../../a" ∷ []) ≡ codes "/docker/a"
unfolding path_join clean resolve parts split join_slash
stepping_up = refl

digest_back :
    digest_from_path known known_parts (codes "/docker/registry/v2/blobs/sha256/ab/ab12/data")
    ≡ some (first, false)
digest_back =
    digest_from_path-blob_data known known_parts first refl
      (codes "/docker/registry/v2/blobs/sha256/ab/ab12/data") first_path

abbrev unused : ManifestDel
unused = record { name = "lib/app"; digest = first; tags = "latest" ∷ [] }

path_for-vacuum_example :
    (path_for known (blob_data first) ≡ blob_data_path known first)
    × (path_for known (manifest_revision_link app first) ≡ some (manifest_link known unused))
    × (path_for known (manifest_tag_index_entry_link app (codes "latest") first)
        ≡ some (tag_link known unused "latest"))
path_for-vacuum_example =
    path_for-vacuum known known_parts unused "latest" app-IsName latest-IsElement refl

abbrev edits : List (TagChange known known_parts files)
edits =
    tags app (codes "latest") first
    ∷ tags app (codes "old") first
    ∷ tags app (codes "latest") second
    ∷ untags app (codes "old")
    ∷ []

old-IsElement : IsElement (codes "old")
old-IsElement = is_element-IsElement (codes "old") refl

edits-IsProper : All (IsProperChange known known_parts files) edits
edits-IsProper = (
  (app-IsName, latest-IsElement, refl),
  (
    (app-IsName, old-IsElement, refl),
    ((app-IsName, latest-IsElement, refl), ((app-IsName, old-IsElement), tt)),
  ),
)

edits_done : (tag_changes known known_parts files edits []).0 ≡ none
unfolding tag_changes tag untag link_blob link_each link exists contains path_for path_join clean
    resolve parts split join_slash digest_path_components is_prefix
edits_done = refl

tag_changes-refine_example :
    get known known_parts files app
      (codes "latest")
      (tag_changes known known_parts files edits []).1
    ≡ map_changes known known_parts files edits
        (λ a b. get known known_parts files a b [])
        app
        (codes "latest")
tag_changes-refine_example =
    tag_changes-refine known known_parts files edits [] app (codes "latest") edits-IsProper
      edits_done app-IsName latest-IsElement

latest_second :
    map_changes known known_parts files edits
      (λ a b. get known known_parts files a b [])
      app
      (codes "latest")
    ≡ ok second
unfolding map_changes
latest_second = refl

abbrev one_byte : Descriptor
one_byte = record { size = 1; media_type = codes "application/octet-stream"; digest = first }

put_done_here :
    (put_linked known known_parts files
      (blob_link_path known known_parts files)
      app
      (codes "x")
      []).0
    ≡ ok one_byte
unfolding put_linked put_blob stat_blob link_blob link_each link contains path_for path_join clean
    resolve parts split join_slash digest_path_components is_prefix
put_done_here = refl

abbrev pub kept : List (FilePath × Bytes)
kept =
    (put_linked known known_parts files (blob_link_path known known_parts files) app (codes "x")
      []).1

put_linked-stat_example :
    stat_linked known known_parts files (blob_link_path known known_parts files ∷ []) app first kept
    ≡ ok one_byte
put_linked-stat_example =
    put_linked-stat known known_parts files app (codes "x") [] one_byte app-IsName put_done_here

delete_done :
    (delete_linked known known_parts files true
      (blob_link_path known known_parts files ∷ [])
      app
      first
      kept).0
    ≡ none
unfolding delete_linked clear stat_linked find_target readlink put_linked put_blob stat_blob
    link_blob link_each link contains path_for path_join clean resolve parts split join_slash
    digest_path_components is_prefix
delete_done = refl

delete_linked-stat_example :
    (true ≡ true)
    × ((desc : Descriptor) × (stat_linked known known_parts files
            (blob_link_path known known_parts files ∷ [])
            app
            first
            kept
          ≡ ok desc))
    × (stat_linked known known_parts files
          (blob_link_path known known_parts files ∷ [])
          app
          first
          (delete_linked known known_parts files true
            (blob_link_path known known_parts files ∷ [])
            app
            first
            kept).1
        ≡ err blob_unknown)
delete_linked-stat_example =
    delete_linked-stat known known_parts files true (blob_link_path known known_parts files ∷ [])
      app first kept delete_done

hash_state :
    path_for known (upload_hash_state app (codes "u") (codes "sha256") (pos 120) false)
    ≡ some (codes "/docker/registry/v2/repositories/lib/app/_uploads/u/hashstates/sha256/120")
unfolding path_for path_join clean resolve parts split join_slash decimal digits
hash_state = refl

abbrev plain : FileInfo
plain = record { is_dir = false; size = 1 }

abbrev walk : List (Walked known known_parts (λ desc. true))
walk =
    other (codes "/docker/registry/v2/blobs/sha256/ab") (record { is_dir = true; size = 0 })
    ∷ stored first (codes "/docker/registry/v2/blobs/sha256/ab/ab12/data") plain
    ∷ other (codes "/docker/registry/v2/blobs/sha256/ab/ab12/startedat") plain
    ∷ []

walk-IsWalked : All (IsWalked known known_parts (λ desc. true)) walk
unfolding path_split
walk-IsWalked = (refl, ((refl, first_path, refl, refl), (refl, tt)))

enumerate-digests_example :
    enumerate known known_parts (λ desc. true) (map (file_of known known_parts (λ desc. true)) walk)
    ≡ ok (digests_of known known_parts (λ desc. true) walk)
enumerate-digests_example = enumerate-digests known known_parts (λ desc. true) walk walk-IsWalked

found_first : digests_of known known_parts (λ desc. true) walk ≡ first ∷ []
unfolding digests_of
found_first = refl

-- Removing `lib` removes `lib/app` too.
removed_below :
    (remove_repository known files (codes "lib") kept).1
    ≡ (codes "/docker/registry/v2/blobs/sha256/ab/ab12/data", codes "x") ∷ []
unfolding remove_repository path_for path_join clean resolve parts split join_slash is_prefix
    put_linked put_blob stat_blob link_blob link_each link contains digest_path_components
removed_below = refl
