-- ===== src/Offline/Errors.antt =====
-- The errors that garbagecollect.go tells apart. A wrapped error (`fmt.Errorf("...: %w")`) fails
-- every type switch of that file, so wrapping makes any error an `other` one.
use container_registry.Prelude.{Result, ok, err, List}

-- `driver.PathNotFoundError`, `distribution.ErrRepositoryUnknown`, and everything else.
pub data Cause : Type 0 where
  path_not_found repository_unknown other : Cause

-- A plain error, or a `*multierror.Error` with its underlying errors.
pub data Error : Type 0 where
  single : Cause → Error
  multi : List Cause → Error

abbrev pub wrapped : Error
wrapped = single other

abbrev pub Res : Type 0 → Type 0
Res = Result Error

abbrev pub wrap : {A : Type 0} → Res A → Res A
wrap (ok a) = ok a
wrap (err e) = err wrapped
