-- ===== src/Notifications/Retrying.antt =====
-- `retryingSink` of notifications/sinks.go: a write is tried until it succeeds or the sink is
-- closed, behind a circuit breaker.
pub mod Breaker
use container_registry.Prelude.{
  ℕ, zero, suc, ◌+◌, ltb, Bool, true, false, ◌||◌, List, [], ◌∷◌, Option, none, some, if◌then◌else◌,
}

-- Times and durations count from the zero time, in nanoseconds.
pub record RetryingSink : Type 0 where
  pub closed : Bool
  pub threshold : ℕ
  pub recent : ℕ
  pub last : ℕ
  pub backoff : ℕ

unfoldable pub new_retrying_sink : ℕ → ℕ → RetryingSink
new_retrying_sink threshold backoff = record {
  closed = false;
  threshold = threshold;
  recent = 0;
  last = 0;
  backoff = backoff;
}

abbrev pub reset : RetryingSink → RetryingSink
reset rs = record rs { recent = 0; last = 0 }

abbrev pub failure : ℕ → RetryingSink → RetryingSink
failure now rs = record rs { recent = rs.recent + 1; last = now }

unfoldable pub proceed : ℕ → RetryingSink → Bool
proceed now rs = ltb rs.recent rs.threshold || ltb (rs.last + rs.backoff) now

-- What the wrapped sink answers: nil, `ErrSinkClosed`, or another error.
pub data Answer : Type 0 where
  written sink_closed broken : Answer

-- One round of the `retry` loop, as the surroundings decide it: whether another goroutine closed the
-- sink since the last round (it can while the mutex is free in `wait`), the time at `proceed`, the
-- answer of the wrapped sink if it is asked, and the time when a failure is noted.
pub record Round : Type 0 where
  pub closed_now : Bool
  pub now : ℕ
  pub answer : Answer
  pub failed_at : ℕ

-- How `Write` ends: nil, or `ErrSinkClosed`. Without an end it is still in the loop.
pub data Ending : Type 0 where
  sent refused unfinished : Ending

-- the calls of the wrapped sink, the state behind them, and the ending
pub record Progress : Type 0 where
  pub calls : ℕ
  pub sink : RetryingSink
  pub ending : Ending

abbrev counted : Progress → Progress
counted p = record p { calls = p.calls + 1 }

abbrev stop_at : RetryingSink → Ending → Progress
stop_at rs e = record { calls = 0; sink = rs; ending = e }

abbrev closed_by : Round → RetryingSink → RetryingSink
closed_by r rs = record rs { closed = rs.closed || r.closed_now }

-- `write` and the tests of its error; `again` is the way back to `retry`
abbrev pub attempt : Answer → ℕ → RetryingSink → (RetryingSink → Progress) → Progress
attempt written now rs again = counted (stop_at (reset rs) sent)
attempt sink_closed now rs again = counted (stop_at (failure now rs) refused)
attempt broken now rs again = counted (again (failure now rs))

-- one round, from the label `retry`
abbrev pub round : Bool → Bool → Round → RetryingSink → (RetryingSink → Progress) → Progress
round true goes r rs again = stop_at rs refused
round false false r rs again = again rs
round false true r rs again = attempt r.answer r.failed_at rs again

-- `Write`, over the rounds that there are
unfoldable pub write : List Round → RetryingSink → Progress
unfolding proceed
write [] rs = stop_at rs unfinished
write (r ∷ rounds) rs =
    let now = closed_by r rs in round now.closed (proceed r.now now) r now (write rounds)

-- `Close`: the new state, and whether it returns an error.
unfoldable pub close : RetryingSink → RetryingSink × Bool
close rs = if rs.closed then (rs, true) else (record rs { closed = true }, false)
