-- ===== src/Online/BlobWorker/Safety.antt =====
-- When the blob worker deletes, and what it commits.
use container_registry.Prelude.{Bool, true, false, none, some, List, [], ◌∷◌, ok, ◌≡◌, ◌⊎◌, arith}
use container_registry.Online.Trace.{
  path_not_found, Call, delete_blob, delete_task, calls_of, result_of, is_delete, is_commit,
  is_task_update, any_call, before_commit,
}
use container_registry.Online.BlobWorker.{BlobAnswers, process_task}

-- Storage and database are only deleted from if the blob was found to be dangling.
pub deletes_only_dangling :
    (env : BlobAnswers)
    → any_call is_delete (calls_of (process_task env)) ≡ true
    → env.dangling ≡ ok true
unfolding process_task
deletes_only_dangling env h = ground arith

abbrev pub is_delete_blob : Call → Bool
is_delete_blob delete_blob = true
is_delete_blob _ = false

-- The calls in front of the first deletion from the database.
abbrev pub before_delete_blob : List Call → List Call
before_delete_blob [] = []
before_delete_blob (delete_blob ∷ cs) = []
before_delete_blob (c ∷ cs) = c ∷ before_delete_blob cs

-- The database row is only deleted behind the removal from storage, which succeeded or found the
-- blob gone.
pub database_after_storage :
    (env : BlobAnswers)
    → any_call is_delete_blob (calls_of (process_task env)) ≡ true
    → ((env.removed ≡ none) ⊎ (env.removed ≡ some path_not_found))
      × (any_call is_delete (before_delete_blob (calls_of (process_task env))) ≡ true)
unfolding process_task
database_after_storage env h = ground arith

-- Every run that is committed has deleted the task or postponed it first, and that call was answered
-- without an error.
pub commits_update_task :
    (env : BlobAnswers)
    → any_call is_commit (calls_of (process_task env)) ≡ true
    → (any_call is_task_update (before_commit (calls_of (process_task env))) ≡ true)
      × ((env.task_deleted ≡ none) ⊎ (env.postponed ≡ none))
unfolding process_task
commits_update_task env h = ground arith

abbrev pub is_delete_task : Call → Bool
is_delete_task delete_task = true
is_delete_task _ = false

-- A run that has found a task and reports no error has deleted the task and has committed behind that,
-- both without an error.
pub success_deletes_task :
    (env : BlobAnswers)
    → result_of (process_task env) ≡ (true, none)
    → (any_call is_delete_task (before_commit (calls_of (process_task env))) ≡ true)
      × (env.task_deleted ≡ none)
      × (any_call is_commit (calls_of (process_task env)) ≡ true)
      × (env.committed ≡ none)
unfolding process_task
success_deletes_task env h = ground arith
