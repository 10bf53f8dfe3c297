-- ===== src/Offline/Plan.antt =====
-- `MarkAndSweep` of registry/storage/garbagecollect.go: the mark stage over all repositories, the
-- blobs that nothing marks, and the sweep.
use container_registry.Prelude.{
  Bool, if◌then◌else◌, ok, err, ◌>>=◌, List, [], ◌∷◌, Option, none, some, String, string_eq,
}
use container_registry.Prelude.Sets.{contains, insert}
use container_registry.Offline.Errors.{Error, wrap, Res}
use container_registry.Offline.Tags.{Digest}
use container_registry.Offline.Mark.{Listing, Repository, ManifestDel, Marks, mark_repository}
use container_registry.Vacuum.{
  DigestText, Deleter, Answer, succeeded, failed, panicked, remove_manifests, remove_blobs,
}

-- `repositories` are the names that the enumerator hands out, and `open` is all that the callback
-- does before it has the services of a repository.
pub record Namespace : Type 0 where
  pub repositories : List String
  pub ending : Option Error
  pub open_repository : String → Res Repository
  pub blobs : Listing

pub record Options : Type 0 where
  pub dry_run : Bool
  pub remove_untagged : Bool

unfoldable pub mark_named : Bool → Namespace → String → Marks → Res Marks
mark_named remove ns name m = do r ← wrap (ns.open_repository name); mark_repository remove name r m

unfoldable pub mark_repositories : Bool → Namespace → List String → Marks → Res Marks
unfolding mark_named
mark_repositories remove ns [] m = ok m
mark_repositories remove ns (n ∷ names) m = do
  m' ← mark_named remove ns n m
  mark_repositories remove ns names m'

abbrev pub or_fail : {A : Type 0} → Option Error → A → Res A
or_fail none a = ok a
or_fail (some e) a = err e

abbrev pub no_marks : Marks
no_marks = record { marked = []; deletions = [] }

unfoldable pub mark : Options → Namespace → Res Marks
unfolding mark_repositories
mark o ns =
    wrap
      (do m ← mark_repositories o.remove_untagged ns ns.repositories no_marks; or_fail ns.ending m)

-- The callback that is given to `blobService.Enumerate`, over all blobs.
unfoldable pub unmarked : List Digest → List Digest → List Digest → List Digest
unmarked marked [] acc = acc
unmarked marked (d ∷ ds) acc = unmarked marked ds (if contains marked d then acc else insert d acc)

pub record Plan : Type 0 where
  pub deletions : List ManifestDel
  pub blobs : List Digest

unfoldable pub plan : Options → Namespace → Res Plan
unfolding mark unmarked
plan o ns = do
  m ← mark o ns
  blobs ← wrap (or_fail ns.blobs.ending (unmarked m.marked ns.blobs.items []))
  ok (record { deletions = m.deletions; blobs = blobs })

-- How a run ends: with a nil error, with an error, or in a panic of the driver.
pub data Outcome : Type 0 where
  done error crashed : Outcome

abbrev outcome : Answer → Outcome
outcome succeeded = done
outcome failed = error
outcome panicked = crashed

module _ (t : DigestText) (v : Deleter) where
  open v use {Disk}

  unfoldable pub sweep_manifests : List ManifestDel → Disk → Answer × Disk
  sweep_manifests [] s = (succeeded, s)
  sweep_manifests (m ∷ mm) s = remove_manifests t v (m ∷ mm) s

  unfoldable pub sweep_blobs : List Digest → Disk → Answer × Disk
  sweep_blobs [] s = (succeeded, s)
  sweep_blobs (d ∷ ds) s = remove_blobs t v (d ∷ ds) s

  unfoldable pub sweep : Plan → Disk → Answer × Disk
  unfolding sweep_manifests sweep_blobs
  sweep p s =
      let (a, s') = sweep_manifests p.deletions s in
      elim a [
        | succeeded ↦ sweep_blobs p.blobs s'
        | failed ↦ (failed, s')
        | panicked ↦ (panicked, s')
      ]

  unfoldable pub mark_and_sweep : Options → Namespace → Disk → Outcome × Disk
  unfolding plan sweep
  mark_and_sweep o ns s = elim (plan o ns) [
    | err e ↦ (error, s)
    | ok p ↦ let (a, s') = sweep p s in if o.dry_run then (done, s) else (outcome a, s')
  ]
