-- ===== src/Notifications/Queue.antt =====
-- `eventQueue` of notifications/sinks.go: any number of writers, the goroutine of `run`, and
-- `Close`. A step is a part of a method that runs under the mutex, or one call of the sink.
-- Closing waits on the condition, which only the last `next` broadcasts: a `Write` behind it
-- returns before it signals. A block is not nil: every caller of `Write` passes an event.
pub mod Order
pub mod Drain
use container_registry.Prelude.{
  Bool, true, false, List, [], ◌∷◌, ◌++◌, Option, none, some, ◌≡◌, ℕ, zero, suc,
}

module _ (Block : Type 0) where
  -- Where the goroutine of `run` is: about to call `next`, holding a block, or returned.
  pub data Runner : Type 0 where
    idle : Runner
    holding : Block → Runner
    returned : Runner

  -- Where a call of `Close` is: none was made, it waits for the last flush, or it closed the sink.
  pub data Closing : Type 0 where
    not_closed waiting sink_closed : Closing

  -- `accepted` and `delivered` are no fields of the source: they record what `Write` took and what
  -- the sink was given, in order.
  pub record State : Type 0 where
    pub events : List Block
    pub closed : Bool
    pub runner : Runner
    pub closing : Closing
    pub accepted : List Block
    pub delivered : List Block

  abbrev pub new_event_queue : State
  new_event_queue = record {
    events = [];
    closed = false;
    runner = idle;
    closing = not_closed;
    accepted = [];
    delivered = [];
  }

  abbrev pub write_if : Bool → Block → State → State × Bool
  write_if true b s = (s, true)
  write_if false b s =
      (record s { events = s.events ++ b ∷ []; accepted = s.accepted ++ b ∷ [] }, false)

  -- `Write`: the new state, and whether `ErrSinkClosed` is returned.
  unfoldable pub write : Block → State → State × Bool
  write b s = write_if s.closed b s

  abbrev pub next_if : List Block → Bool → State → Option State
  next_if (b ∷ rest) closed s = some (record s { events = rest; runner = holding b })
  next_if [] true s = some (record s { runner = returned })
  next_if [] false s = none

  abbrev pub next_of : Runner → State → Option State
  next_of idle s = next_if s.events s.closed s
  next_of _ s = none

  -- `next`, called by `run`: none while it waits on the condition. A nil block makes `run` return.
  unfoldable pub next : State → Option State
  next s = next_of s.runner s

  abbrev pub deliver_of : Runner → State → Option State
  deliver_of (holding b) s = some (record s { runner = idle; delivered = s.delivered ++ b ∷ [] })
  deliver_of _ s = none

  -- `sink.Write(block...)` in `run`; an error of the sink is only logged.
  unfoldable pub deliver : State → Option State
  deliver s = deliver_of s.runner s

  abbrev pub close_if : Bool → State → State × Bool
  close_if true s = (s, true)
  close_if false s = (record s { closed = true; closing = waiting }, false)

  -- `Close` up to its `Wait`: the new state, and whether it returns an error at once.
  unfoldable pub close : State → State × Bool
  close s = close_if s.closed s

  abbrev pub flush_of : Runner → Closing → State → Option State
  flush_of returned waiting s = some (record s { closing = sink_closed })
  flush_of _ _ s = none

  -- The rest of `Close`, once `next` has broadcast: it closes the wrapped sink.
  unfoldable pub flush : State → Option State
  flush s = flush_of s.runner s.closing s

  -- What any of the goroutines may do next.
  pub data Step (s t : State) : Type 0 where
    writes : (b : Block) → t ≡ (write b s).0 → Step s t
    takes : next s ≡ some t → Step s t
    delivers : deliver s ≡ some t → Step s t
    closes : t ≡ (close s).0 → Step s t
    flushes : flush s ≡ some t → Step s t

  pub data Reach (s : State) : State → Type 0 where
    here : Reach s s
    then : {t u : State} → Reach s t → Step t u → Reach s u

  abbrev pub deliver_or_stay : Option State → State → State
  deliver_or_stay none s = s
  deliver_or_stay (some t) s = t

  -- The loop of `run` alone, with fuel: it takes a block and writes it, until there is none.
  unfoldable pub run : ℕ → State → State
  unfolding next deliver
  run zero s = s
  run (suc fuel) s = elim (next s) [ none ↦ s | some t ↦ run fuel (deliver_or_stay (deliver t) t) ]
