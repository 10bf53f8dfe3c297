-- ===== src/Notifications/Retrying/Breaker.antt =====
-- What the circuit breaker bounds, and when a write ends.
use container_registry.Prelude.{
  ℕ, ◌+◌, ◌-◌, ◌≤◌, ◌<◌, List, [], ◌∷◌, ◌++◌, ◌≡◌, ◌≢◌, ◌⊎◌, arith, All,
}
use container_registry.Notifications.Retrying.{
  closed_by, failure, RetryingSink, written, Round, unfinished, write,
}

-- Within the backoff of any failure so far: the check comes no later than `backoff` behind `start`,
-- and failures are noted no earlier than `start`.
abbrev pub Within : ℕ → ℕ → Round → Type 0
Within start backoff r = (r.now ≤ start + backoff) × (start ≤ r.failed_at)

-- While no check comes later than the backoff behind the failures, the wrapped sink is called no
-- more often than the threshold leaves, whatever it answers and however often the loop goes round.
pub calls-le-threshold :
    (rounds : List Round) (rs : RetryingSink) (start : ℕ)
    → All (Within start rs.backoff) rounds
    → (start ≤ rs.last) ⊎ (rs.recent < rs.threshold)
    → (write rounds rs).calls ≤ rs.threshold - rs.recent
unfolding write
calls-le-threshold [] rs start h k = omega arith
calls-le-threshold (r ∷ rounds) rs start h k =
    let now = closed_by r rs in
    ground (
      arith,
      calls-le-threshold rounds now start h.1 k,
      calls-le-threshold rounds (failure r.failed_at now) start h.1,
    )

-- A round that is checked later than the backoff behind every failure, and that the wrapped sink
-- answers with success, ends the write if nothing has ended it before.
pub write_ends :
    (rounds : List Round) (last : Round) (rs : RetryingSink)
    → All (λ r. r.failed_at + rs.backoff < last.now) rounds
    → rs.last + rs.backoff < last.now
    → last.answer ≡ written
    → (write (rounds ++ last ∷ []) rs).ending ≢ unfinished
unfolding write
write_ends [] last rs h k a e = ground arith
write_ends (r ∷ rounds) last rs h k a e =
    let now = closed_by r rs in
    ground (
      arith,
      write_ends rounds last now h.1 k a,
      write_ends rounds last (failure r.failed_at now) h.1 h.0 a,
    )
