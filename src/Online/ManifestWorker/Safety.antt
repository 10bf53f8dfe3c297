-- ===== src/Online/ManifestWorker/Safety.antt =====
-- When the manifest worker deletes, and what it commits.
use container_registry.Prelude.{Bool, true, false, ◌||◌, ok, ◌≡◌, arith}
use container_registry.Online.Trace.{
  Call, delete_task, calls_of, is_delete, is_commit, is_task_update, any_call, before_commit,
}
use container_registry.Online.ManifestWorker.{ManifestAnswers, process_task}

abbrev pub is_update : Call → Bool
is_update c = is_delete c || is_task_update c

abbrev pub is_deleted_task : Call → Bool
is_deleted_task delete_task = true
is_deleted_task _ = false

-- A manifest is only deleted if it was found to be dangling, and then its task is not deleted by
-- the same run.
pub manifest_deleted_dangling :
    (env : ManifestAnswers)
    → any_call is_delete (calls_of (process_task env)) ≡ true
    → (env.dangling ≡ ok true) × (any_call is_deleted_task (calls_of (process_task env)) ≡ false)
unfolding process_task
manifest_deleted_dangling env h = ground arith

-- Every committed run has deleted the manifest, or deleted or postponed the task, before.
pub manifest_commits_update :
    (env : ManifestAnswers)
    → any_call is_commit (calls_of (process_task env)) ≡ true
    → any_call is_update (before_commit (calls_of (process_task env))) ≡ true
unfolding process_task
manifest_commits_update env h = ground arith
