-- ===== src/Online/ManifestWorker.antt =====
-- registry/gc/worker/manifestworker.go.
pub mod Safety
use container_registry.Prelude.{
  Bool, true, false, Option, none, some, List, [], ◌∷◌, Result, ok, err,
}
use container_registry.Prelude.Int.{ℤ}
use container_registry.Online.Backoff.{exponential_backoff}
use container_registry.Online.Trace.{
  Fault, deadline, Call, delete_manifest, delete_task, postpone, commit, rollback, RunError, one,
  both, Run, pure, call, ◌>>=◌, ◌>>◌,
}

-- `deleted` tells whether the manifest's row was found; the source only logs it.
pub record ManifestAnswers : Type 0 where
  pub begin : Option Fault
  pub next : Result Fault (Option ℤ)
  pub dangling : Result Fault Bool
  pub deleted : Result Fault Bool
  pub task_deleted : Option Fault
  pub postponed : Option Fault
  pub committed : Option Fault
  pub rolled_back : Option Fault

module _ (env : ManifestAnswers) where
  abbrev commit_if : Option Fault → Run (Option Fault)
  commit_if none = call commit env.committed
  commit_if (some e) = pure (some e)

  -- `postponeTaskAndCommit`
  unfoldable pub postpone_task_and_commit : ℤ → Run (Option Fault)
  postpone_task_and_commit count = do
    e ← call (postpone (exponential_backoff count)) env.postponed
    commit_if e

  abbrev append : Fault → Option Fault → RunError
  append e none = one e
  append e (some inner) = both e inner

  -- what both error switches do
  abbrev fail_or_postpone : ℤ → Fault → Run (Option RunError)
  fail_or_postpone count deadline = pure (some (one deadline))
  fail_or_postpone count e = do inner ← postpone_task_and_commit count; pure (some (append e inner))

  abbrev after_delete : ℤ → Result Fault Bool → Run (Option RunError)
  after_delete count (err e) = fail_or_postpone count e
  after_delete count (ok found) = pure none

  -- `deleteManifest`
  unfoldable pub delete_dangling : ℤ → Run (Option RunError)
  unfolding postpone_task_and_commit
  delete_dangling count = do r ← call delete_manifest env.deleted; after_delete count r

  abbrev after_commit : Option Fault → Run (Bool × Option RunError)
  after_commit none = pure (true, none)
  after_commit (some e) = pure (true, some (one e))

  abbrev commit_unless : Option RunError → Run (Bool × Option RunError)
  commit_unless none = do e ← call commit env.committed; after_commit e
  commit_unless (some e) = pure (true, some e)

  abbrev as_error : Option Fault → Option RunError
  as_error none = none
  as_error (some e) = some (one e)

  -- deleting a manifest cascades to its task, so the task is only deleted if nothing else is
  abbrev delete_one : ℤ → Bool → Run (Option RunError)
  delete_one count true = delete_dangling count
  delete_one count false = do e ← call delete_task env.task_deleted; pure (as_error e)

  abbrev review : ℤ → Result Fault Bool → Run (Bool × Option RunError)
  review count (err e) = do failed ← fail_or_postpone count e; pure (true, failed)
  review count (ok dangling) = do failed ← delete_one count dangling; commit_unless failed

  abbrev take_task : Result Fault (Option ℤ) → Run (Bool × Option RunError)
  take_task (err e) = pure (false, some (one e))
  take_task (ok none) = pure (false, none)
  take_task (ok (some count)) = review count env.dangling

  abbrev in_transaction : Option Fault → Run (Bool × Option RunError)
  in_transaction (some e) = pure (false, some (one e))
  in_transaction none = do r ← take_task env.next; call rollback env.rolled_back; pure r

  -- `processTask`, its deferred rollback included
  unfoldable pub process_task : Run (Bool × Option RunError)
  unfolding delete_dangling
  process_task = in_transaction env.begin
