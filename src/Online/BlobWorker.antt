-- ===== src/Online/BlobWorker.antt =====
-- registry/gc/worker/blobworker.go, with `rollbackOnExit` of worker.go.
pub mod Safety
use container_registry.Prelude.{
  Bool, true, false, Option, none, some, List, [], ◌∷◌, Result, ok, err, if◌then◌else◌,
}
use container_registry.Prelude.Int.{ℤ}
use container_registry.Online.Backoff.{exponential_backoff}
use container_registry.Online.Trace.{
  Fault, deadline, not_found, path_not_found, unknown, Call, remove_from_storage, delete_blob,
  delete_task, postpone, commit, rollback, RunError, one, both, Run, pure, call, ◌>>=◌, ◌>>◌,
}

-- What the calls of one run answer. A task is its review count; `find` tells whether the blob's row
-- was found.
pub record BlobAnswers : Type 0 where
  pub begin : Option Fault
  pub next : Result Fault (Option ℤ)
  pub dangling : Result Fault Bool
  pub removed : Option Fault
  pub find : Result Fault Bool
  pub deleted : Option Fault
  pub task_deleted : Option Fault
  pub postponed : Option Fault
  pub committed : Option Fault
  pub rolled_back : Option Fault

module _ (env : BlobAnswers) where
  abbrev commit_if : Option Fault → Run (Option Fault)
  commit_if none = call commit env.committed
  commit_if (some e) = pure (some e)

  -- `postponeTaskAndCommit`
  unfoldable pub postpone_task_and_commit : ℤ → Run (Option Fault)
  postpone_task_and_commit count = do
    e ← call (postpone (exponential_backoff count)) env.postponed
    commit_if e

  abbrev pub append : Fault → Option Fault → RunError
  append e none = one e
  append e (some inner) = both e inner

  -- the default branches: postpone the review, and return the error
  abbrev give_up : ℤ → Fault → Run (Option RunError)
  give_up count e = do inner ← postpone_task_and_commit count; pure (some (append e inner))

  abbrev after_database : ℤ → Option Fault → Run (Option RunError)
  after_database count none = pure none
  after_database count (some not_found) = pure none
  after_database count (some deadline) = pure (some (one deadline))
  after_database count (some e) = give_up count e

  abbrev delete_from_database : ℤ → Run (Option RunError)
  delete_from_database count = do e ← call delete_blob env.deleted; after_database count e

  -- behind a successful removal from storage; only here is the row looked up, for the metrics
  abbrev after_find : ℤ → Result Fault Bool → Run (Option RunError)
  after_find count (err e) = delete_from_database count
  after_find count (ok true) = delete_from_database count
  after_find count (ok false) = pure none

  abbrev after_storage : ℤ → Option Fault → Run (Option RunError)
  after_storage count none = after_find count env.find
  after_storage count (some path_not_found) = delete_from_database count
  after_storage count (some e) = give_up count e

  -- `deleteBlob`
  unfoldable pub delete_dangling : ℤ → Run (Option RunError)
  unfolding postpone_task_and_commit
  delete_dangling count = do e ← call remove_from_storage env.removed; after_storage count e

  abbrev after_commit : Option Fault → Run (Bool × Option RunError)
  after_commit none = pure (true, none)
  after_commit (some e) = pure (true, some (one e))

  abbrev after_task : Option Fault → Run (Bool × Option RunError)
  after_task none = do e ← call commit env.committed; after_commit e
  after_task (some e) = pure (true, some (one e))

  abbrev finish_task : Option RunError → Run (Bool × Option RunError)
  finish_task none = do e ← call delete_task env.task_deleted; after_task e
  finish_task (some e) = pure (true, some e)

  abbrev review : ℤ → Result Fault Bool → Run (Bool × Option RunError)
  review count (err deadline) = pure (true, some (one deadline))
  review count (err e) = do failed ← give_up count e; pure (true, failed)
  review count (ok dangling) = do
    failed ← (if dangling then delete_dangling count else pure none)
    finish_task failed

  abbrev take_task : Result Fault (Option ℤ) → Run (Bool × Option RunError)
  take_task (err e) = pure (false, some (one e))
  take_task (ok none) = pure (false, none)
  take_task (ok (some count)) = review count env.dangling

  abbrev in_transaction : Option Fault → Run (Bool × Option RunError)
  in_transaction (some e) = pure (false, some (one e))
  in_transaction none = do r ← take_task env.next; call rollback env.rolled_back; pure r

  -- `processTask`, its deferred rollback included
  unfoldable pub process_task : Run (Bool × Option RunError)
  unfolding delete_dangling
  process_task = in_transaction env.begin
