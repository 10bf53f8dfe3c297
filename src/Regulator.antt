-- ===== src/Regulator.antt =====
-- registry/storage/driver/base/regulator.go: a storage driver that lets in a limited number of
-- calls at a time. A step is a part of a method that runs under the condition's mutex, or the end
-- of a call. A goroutine that `Signal` has woken tests the condition again once it has the mutex;
-- other goroutines may come in between.
pub mod Limits
use container_registry.Prelude.{
  ℕ, zero, suc, ◌+◌, ltb, Bool, true, false, if◌then◌else◌, Result, ok, err, Option, none, some,
  ◌≡◌,
}
use container_registry.Prelude.Int.{ℤ, pos, negsuc}

-- The methods of `StorageDriver`.
pub data Method : Type 0 where
  name get_content put_content reader writer stat list move delete url_for : Method
  delete_files walk walk_parallel transfer_to : Method

-- The methods that `Regulator` defines; the others are those of the embedded driver.
abbrev pub is_regulated : Method → Bool
is_regulated delete_files = false
is_regulated walk = false
is_regulated walk_parallel = false
is_regulated transfer_to = false
is_regulated _ = true

-- `available`, and where the goroutines are: inside a call of the driver that was let in, inside one
-- that went past the regulator, asleep in `Wait`, or woken and about to test the condition.
pub record Regulator : Type 0 where
  pub available : ℕ
  pub inside : ℕ
  pub unregulated : ℕ
  pub waiting : ℕ
  pub woken : ℕ

abbrev pub new_regulator : ℕ → Regulator
new_regulator limit = record {
  available = limit;
  inside = 0;
  unregulated = 0;
  waiting = 0;
  woken = 0;
}

-- The test of `enter` and what follows it.
abbrev pub enter_if : ℕ → Regulator → Regulator
enter_if zero r = record r { waiting = r.waiting + 1 }
enter_if (suc n) r = record r { available = n; inside = r.inside + 1 }

unfoldable pub enter : Regulator → Regulator
enter r = enter_if r.available r

-- A call of a method begins.
unfoldable pub begin : Method → Regulator → Regulator
unfolding enter
begin m r = if is_regulated m then enter r else record r { unregulated = r.unregulated + 1 }

abbrev pub retest_if : ℕ → Regulator → Option Regulator
retest_if zero r = none
retest_if (suc n) r = some (enter (record r { woken = n }))

-- A woken goroutine goes round the loop of `enter`; none if there is none.
unfoldable pub retest : Regulator → Option Regulator
unfolding enter
retest r = retest_if r.woken r

abbrev pub signal_if : ℕ → Regulator → Regulator
signal_if zero r = r
signal_if (suc n) r = record r { waiting = n; woken = r.woken + 1 }

abbrev pub exit_if : ℕ → Regulator → Option Regulator
exit_if zero r = none
exit_if (suc n) r =
    some (signal_if r.waiting (record r { available = r.available + 1; inside = n }))

-- `exit`, at the end of a call that was let in; none if there is none.
unfoldable pub exit : Regulator → Option Regulator
exit r = exit_if r.inside r

pub data Step (r q : Regulator) : Type 0 where
  begins : (m : Method) → q ≡ begin m r → Step r q
  retests : retest r ≡ some q → Step r q
  exits : exit r ≡ some q → Step r q

pub data Reach (r : Regulator) : Regulator → Type 0 where
  start : Reach r r
  step : {q u : Regulator} → Reach r q → Step q u → Reach r u

-- A parameter as it comes from the configuration, by its Go type. A text is what `ParseUint` makes
-- of it: a number, or an error and the number that comes with it.
pub data Param : Type 0 where
  text : Result ℕ ℕ → Param
  unsigned64 : ℕ → Param
  signed : ℤ → Param
  unsigned : ℕ → Param
  nil other : Param

abbrev pub at_least : ℕ → ℕ → Result ℕ ℕ
at_least min limit = if ltb limit min then ok min else ok limit

-- `GetLimitFromParameter`; an error comes with the number that is returned beside it.
unfoldable pub get_limit : Param → ℕ → ℕ → Result ℕ ℕ
get_limit (text (err n)) min def = err n
get_limit (text (ok n)) min def = at_least min n
get_limit (unsigned64 n) min def = at_least min n
get_limit (signed (pos zero)) min def = at_least min min
get_limit (signed (pos (suc n))) min def = at_least min (suc n)
get_limit (signed (negsuc n)) min def = at_least min min
get_limit (unsigned n) min def = at_least min n
get_limit nil min def = at_least min def
get_limit other min def = err 0
