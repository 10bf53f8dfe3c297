-- ===== src/Offline/Mark.antt =====
-- The mark stage of registry/storage/garbagecollect.go, one repository at a time.
-- A set is a list without repetitions, and a loop over its members goes through the list. The
-- source goes through a set in any order and in goroutines; all they do to shared state is to add
-- to sets, and an error of one of them ends the run before anything is deleted.
pub mod Adds
pub mod Enumerated
pub mod Marking
use container_registry.Prelude.{
  Bool, true, false, ◌&&◌, if◌then◌else◌, Result, ok, err, ◌>>=◌, ◌>>◌, List, [], ◌∷◌, ◌++◌, Option,
  none, some, String, ◌≡◌, string_eq,
}
use container_registry.Prelude.Sets.{contains, insert, insert_all}
use container_registry.Offline.Errors.{
  Cause, path_not_found, repository_unknown, other, Error, single, multi, wrapped, wrap, Res,
}
use container_registry.Offline.Tags.{Digest, TagSource, TagCache, new_cache}
use container_registry.Offline.Tags

-- What `Enumerate` hands to its callback, in order, and the error it ends with, if any.
pub record Listing : Type 0 where
  pub items : List Digest
  pub ending : Option Error

-- A manifest by its `References()`: `*manifestlist.DeserializedManifestList`, or any other type.
pub data Manifest : Type 0 where
  manifest_list : List Digest → Manifest
  image : List Digest → Manifest

abbrev pub references : Manifest → List Digest
references (manifest_list ds) = ds
references (image ds) = ds

pub record Repository : Type 0 where
  pub tags : TagSource
  pub manifests : Listing
  pub get : Digest → Res Manifest

pub record ManifestDel : Type 0 where
  pub name : String
  pub digest : Digest
  pub tags : List String

-- The sets that the first enumeration fills, and the tag cache that it uses.
pub record Found : Type 0 where
  pub tagged : List Digest
  pub untagged : List Digest
  pub referenced : List Digest
  pub cache : TagCache

place : Digest → Res (List String) × TagCache → Found → Option Error × Found
place d (ok [], c) f = (none, record f { untagged = insert d f.untagged; cache = c })
place d (ok (t ∷ ts), c) f = (none, record f { tagged = insert d f.tagged; cache = c })
place d (err e, c) f = (some wrapped, record f { cache = c })

-- The callback that is given to `manifestEnumerator.Enumerate`.
visit : Bool → TagSource → Digest → Found → Option Error × Found
visit true src d f = place d (Tags.lookup src d f.cache) f
visit false src d f = (none, record f { referenced = insert d f.referenced })

unfoldable pub visit_all :
    Bool → TagSource → List Digest → Option Error → Found → Option Error × Found
unfolding visit place
visit_all remove src [] ending f = (ending, f)
visit_all remove src (d ∷ ds) ending f =
    let (failed, f') = visit remove src d f in
    elim failed [ none ↦ visit_all remove src ds ending f' | some e ↦ (some e, f') ]

all_path_not_found : List Cause → Bool
all_path_not_found [] = true
all_path_not_found (path_not_found ∷ cs) = all_path_not_found cs
all_path_not_found (_ ∷ cs) = false

-- The error switch after the enumeration: `none` goes on.
unfoldable pub tolerate : Option Error → Option Error
unfolding all_path_not_found
tolerate none = none
tolerate (some (multi cs)) = if all_path_not_found cs then none else some (multi cs)
tolerate (some (single path_not_found)) = none
tolerate (some e) = some e

-- Priming the tag cache; a missing tags folder is no error.
abbrev tolerate_unknown : Res (List String) → Res (List String)
tolerate_unknown (err (single repository_unknown)) = ok []
tolerate_unknown (err e) = err wrapped
tolerate_unknown r = r

unfoldable pub prime_tags : Bool → TagSource → Res TagCache
prime_tags true src =
    let (names, c) = Tags.all src new_cache in tolerate_unknown names >>= λ _. ok c
prime_tags false src = ok new_cache

-- The marked digests, and the manifests that only a manifest list refers to.
pub record TagMarks : Type 0 where
  pub marked : List Digest
  pub referenced : List Digest

abbrev pub note_references : Manifest → TagMarks → TagMarks
note_references (manifest_list ds) s = record s { referenced = insert_all ds s.referenced }
note_references (image ds) s = record s { marked = insert_all ds s.marked }

abbrev pub GetManifest : Type 0
GetManifest = Digest → Res Manifest

-- One goroutine of the loop over `taggedManifests`.
unfoldable pub mark_tagged : GetManifest → Digest → TagMarks → Res TagMarks
mark_tagged get d s = do
  m ← wrap (get d)
  ok (note_references m (record s { marked = insert d s.marked }))

unfoldable pub mark_all_tagged : GetManifest → List Digest → TagMarks → Res TagMarks
mark_all_tagged get [] s = ok s
mark_all_tagged get (d ∷ ds) s = do s' ← mark_tagged get d s; mark_all_tagged get ds s'

-- The loop over `unTaggedManifests`.
unfoldable pub select_untagged :
    TagSource
    → String
    → List Digest
    → List Digest
    → TagCache
    → List ManifestDel
    → Res (List ManifestDel)
select_untagged src name referenced [] c dels = ok dels
select_untagged src name referenced (d ∷ ds) c dels = do
  let (names, c') = Tags.all src c
  dels' ←
      (if contains referenced d then ok dels else (do
        ts ← tolerate_unknown names
        ok (dels ++ record { name = name; digest = d; tags = ts } ∷ [])))
  select_untagged src name referenced ds (if contains referenced d then c else c') dels'

-- One goroutine of the loop over `referencedManifests`.
unfoldable pub mark_referenced : GetManifest → Digest → List Digest → Res (List Digest)
mark_referenced get d marked = do m ← wrap (get d); ok (insert_all (references m) (insert d marked))

unfoldable pub mark_all_referenced : GetManifest → List Digest → List Digest → Res (List Digest)
mark_all_referenced get [] marked = ok marked
mark_all_referenced get (d ∷ ds) marked = do
  marked' ← mark_referenced get d marked
  mark_all_referenced get ds marked'

pub record Marks : Type 0 where
  pub marked : List Digest
  pub deletions : List ManifestDel

abbrev pub no_error : Option Error → Res Unit
no_error none = ok tt
no_error (some e) = err e

-- The manifests to delete, once the tagged ones are marked.
unfoldable pub delete_untagged :
    String → Repository → Found → List ManifestDel → TagMarks → Res (TagMarks × List ManifestDel)
delete_untagged name r f dels t = do
  dels' ← select_untagged r.tags name t.referenced f.untagged f.cache dels
  ok (t, dels')

-- `opts.RemoveUntagged`: what is done between the two loops over the manifests of a repository.
unfoldable pub mark_by_tags :
    Bool → String → Repository → Marks → Found → Res (TagMarks × List ManifestDel)
mark_by_tags false name r m f =
    ok (record { marked = m.marked; referenced = f.referenced }, m.deletions)
mark_by_tags true name r m f = do
  t ←
      wrap
        (mark_all_tagged r.get f.tagged (record { marked = m.marked; referenced = f.referenced }))
  delete_untagged name r f m.deletions t

unfoldable pub mark_rest : Repository → TagMarks × List ManifestDel → Res Marks
mark_rest r (t, dels) = do
  marked ← wrap (mark_all_referenced r.get t.referenced t.marked)
  ok (record { marked = marked; deletions = dels })

-- The part behind the enumeration of the manifests.
unfoldable pub mark_found : Bool → String → Repository → Marks → Option Error × Found → Res Marks
mark_found remove name r m (failed, f) = do
  no_error (tolerate failed)
  found ← mark_by_tags remove name r m f
  mark_rest r found

unfoldable pub enumerate_manifests : Bool → Repository → TagCache → Option Error × Found
enumerate_manifests remove r cache =
    visit_all remove r.tags r.manifests.items r.manifests.ending
      (record { tagged = []; untagged = []; referenced = []; cache = cache })

-- The callback that is given to `repositoryEnumerator.Enumerate`, on a repository that was opened.
unfoldable pub mark_repository : Bool → String → Repository → Marks → Res Marks
unfolding enumerate_manifests
mark_repository remove name r m = do
  cache ← prime_tags remove r.tags
  mark_found remove name r m (enumerate_manifests remove r cache)
