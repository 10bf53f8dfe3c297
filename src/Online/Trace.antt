-- ===== src/Online/Trace.antt =====
-- The calls that the online workers make, in order. The database and the storage backend are not
-- modelled: what each call answers is given, and a run is the list of the calls that it made.
use container_registry.Prelude.{Bool, true, false, ◌||◌, List, [], ◌∷◌, ◌++◌}
use container_registry.Prelude.Int.{ℤ}

-- Errors by what the workers ask of them: `context.DeadlineExceeded`, `datastore.ErrNotFound`,
-- `driver.PathNotFoundError`, or none of these.
pub data Fault : Type 0 where
  deadline not_found path_not_found unknown : Fault

-- A call that changes the database or the storage backend. Calls that only read are left out.
pub data Call : Type 0 where
  remove_from_storage delete_blob delete_manifest delete_task : Call
  postpone : ℤ → Call
  commit rollback : Call

-- An error result of a run: one error, or an error and one that postponing raised.
pub data RunError : Type 0 where
  one : Fault → RunError
  both : Fault → Fault → RunError

abbrev pub Run : Type 0 → Type 0
Run A = List Call → A × List Call

module _ {A : Type 0} where
  abbrev pub pure : A → Run A
  pure a calls = (a, calls)

  -- Make a call and take its answer.
  abbrev pub call : Call → A → Run A
  call c a calls = (a, calls ++ c ∷ [])

module _ {A B : Type 0} where
  infixl 5 ◌>>=◌ ◌>>◌
  abbrev pub ◌>>=◌ : Run A → (A → Run B) → Run B
  ◌>>=◌ m f calls = let (a, calls') = m calls in f a calls'

  abbrev pub ◌>>◌ : Run A → Run B → Run B
  m >> k = m >>= λ _. k

-- The calls of a run that starts with none.
abbrev pub calls_of : {A : Type 0} → Run A → List Call
calls_of m = (m []).1

abbrev pub result_of : {A : Type 0} → Run A → A
result_of m = (m []).0

abbrev pub is_delete : Call → Bool
is_delete remove_from_storage = true
is_delete delete_blob = true
is_delete delete_manifest = true
is_delete _ = false

abbrev pub is_commit : Call → Bool
is_commit commit = true
is_commit _ = false

abbrev pub is_task_update : Call → Bool
is_task_update delete_task = true
is_task_update (postpone d) = true
is_task_update _ = false

abbrev pub any_call : (Call → Bool) → List Call → Bool
any_call p [] = false
any_call p (c ∷ cs) = p c || any_call p cs

-- The committed part of a run: what was called up to a commit. Without one, nothing is kept.
abbrev pub before_commit : List Call → List Call
before_commit [] = []
before_commit (commit ∷ cs) = []
before_commit (c ∷ cs) = c ∷ before_commit cs
