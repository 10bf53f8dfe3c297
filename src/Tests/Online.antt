-- ===== src/Tests/Online.antt =====
-- Runs of the online workers, and a backoff.
use container_registry.Prelude.{true, false, none, some, ok, ◌≡◌, refl, ◌⊎◌}
use container_registry.Prelude.Int.{pos}
use container_registry.Online.Trace.{
  path_not_found, unknown, calls_of, result_of, is_delete, is_commit, is_task_update, any_call,
  before_commit,
}
use container_registry.Online.BlobWorker
use container_registry.Online.BlobWorker.{BlobAnswers}
use container_registry.Online.BlobWorker.Safety.{
  is_delete_task, is_delete_blob, before_delete_blob, deletes_only_dangling, database_after_storage,
  commits_update_task, success_deletes_task,
}
use container_registry.Online.ManifestWorker
use container_registry.Online.ManifestWorker.{ManifestAnswers}
use container_registry.Online.ManifestWorker.Safety.{is_deleted_task, manifest_deleted_dangling}

-- A dangling blob, whose file is gone already.
abbrev gone_blob : BlobAnswers
gone_blob = record {
  begin = none;
  next = ok (some (pos 3));
  dangling = ok true;
  removed = some path_not_found;
  find = ok true;
  deleted = none;
  task_deleted = none;
  postponed = none;
  committed = none;
  rolled_back = none;
}

-- A dangling blob that cannot be removed.
abbrev stuck_blob : BlobAnswers
stuck_blob = record gone_blob { removed = some unknown }

abbrev dangling_manifest : ManifestAnswers
dangling_manifest = record {
  begin = none;
  next = ok (some (pos 0));
  dangling = ok true;
  deleted = ok true;
  task_deleted = none;
  postponed = none;
  committed = none;
  rolled_back = none;
}

runs_gone : any_call is_delete (calls_of (BlobWorker.process_task gone_blob)) ≡ true
unfolding BlobWorker.process_task BlobWorker.delete_dangling
runs_gone = refl

deletes_only_dangling_example : gone_blob.dangling ≡ ok true
deletes_only_dangling_example = deletes_only_dangling gone_blob runs_gone

row_deleted : any_call is_delete_blob (calls_of (BlobWorker.process_task gone_blob)) ≡ true
unfolding BlobWorker.process_task BlobWorker.delete_dangling
row_deleted = refl

database_after_storage_example :
    ((gone_blob.removed ≡ none) ⊎ (gone_blob.removed ≡ some path_not_found))
    × (any_call is_delete (before_delete_blob (calls_of (BlobWorker.process_task gone_blob)))
        ≡ true)
database_after_storage_example = database_after_storage gone_blob row_deleted

stuck_commits : any_call is_commit (calls_of (BlobWorker.process_task stuck_blob)) ≡ true
unfolding BlobWorker.process_task BlobWorker.delete_dangling BlobWorker.postpone_task_and_commit
stuck_commits = refl

commits_update_task_example :
    (any_call is_task_update (before_commit (calls_of (BlobWorker.process_task stuck_blob))) ≡ true)
    × ((stuck_blob.task_deleted ≡ none) ⊎ (stuck_blob.postponed ≡ none))
commits_update_task_example = commits_update_task stuck_blob stuck_commits

gone_succeeds : result_of (BlobWorker.process_task gone_blob) ≡ (true, none)
unfolding BlobWorker.process_task BlobWorker.delete_dangling
gone_succeeds = refl

success_deletes_task_example :
    (any_call is_delete_task (before_commit (calls_of (BlobWorker.process_task gone_blob))) ≡ true)
    × (gone_blob.task_deleted ≡ none)
    × (any_call is_commit (calls_of (BlobWorker.process_task gone_blob)) ≡ true)
    × (gone_blob.committed ≡ none)
success_deletes_task_example = success_deletes_task gone_blob gone_succeeds

manifest_goes : any_call is_delete (calls_of (ManifestWorker.process_task dangling_manifest)) ≡ true
unfolding ManifestWorker.process_task ManifestWorker.delete_dangling
manifest_goes = refl

manifest_deleted_dangling_example :
    (dangling_manifest.dangling ≡ ok true)
    × (any_call is_deleted_task (calls_of (ManifestWorker.process_task dangling_manifest)) ≡ false)
manifest_deleted_dangling_example = manifest_deleted_dangling dangling_manifest manifest_goes

manifest_commits :
    any_call is_commit (calls_of (ManifestWorker.process_task dangling_manifest)) ≡ true
unfolding ManifestWorker.process_task ManifestWorker.delete_dangling
manifest_commits = refl
