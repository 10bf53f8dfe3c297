-- ===== src/Scheduler.antt =====
-- registry/proxy/scheduler/scheduler.go: entries with a time to live, and the timers that expire
-- them. A timer's function runs in a goroutine of its own and waits for the scheduler's mutex, so
-- between the moment when a timer fires and its function there may be other calls; a step here is
-- what happens under the mutex, or a timer that fires.
pub mod Timers
pub mod Steps
pub mod Started
pub mod Faults
use container_registry.Prelude.{
  ℕ, zero, suc, ◌+◌, ◌-◌, Bool, true, false, List, [], ◌∷◌, ◌++◌, Option, none, some, String,
  if◌then◌else◌, Result, ok, err, length, get_elem?, string_eq, not,
}
use container_registry.Prelude.Sets.{lookup, put, remove}

pub data EntryType : Type 0 where
  blob manifest : EntryType

-- A timer is named by its place in the list of all timers that were started.
pub record Entry : Type 0 where
  pub expiry : ℕ
  pub kind : EntryType
  pub timer : Option ℕ

-- A timer is armed, its function waits for the mutex, or it was stopped or is through.
pub data Phase : Type 0 where
  armed fired over : Phase

-- What `startTimer`'s closure captures, and where the timer is.
pub record Timer : Type 0 where
  pub key : String
  pub kind : EntryType
  pub phase : Phase

-- `done_closed` tells whether `doneChan` was closed. `expired` records the calls of `onBlobExpire` and `onManifestExpire`. An entry's key always parses.
pub record Scheduler : Type 0 where
  pub entries : List (String × Entry)
  pub timers : List Timer
  pub stopped : Bool
  pub index_dirty : Bool
  pub done_closed : Bool
  pub expired : List (String × EntryType)

abbrev pub new_scheduler : Scheduler
new_scheduler = record {
  entries = [];
  timers = [];
  stopped = true;
  index_dirty = false;
  done_closed = false;
  expired = [];
}

abbrev pub stop_phase : Phase → Phase
stop_phase armed = over
stop_phase p = p

abbrev pub fire_phase : Phase → Phase
fire_phase armed = fired
fire_phase p = p

-- Change the phase of one timer.
unfoldable pub on_timer : (Phase → Phase) → ℕ → List Timer → List Timer
on_timer f i [] = []
on_timer f zero (t ∷ ts) = record t { phase = f t.phase } ∷ ts
on_timer f (suc i) (t ∷ ts) = t ∷ on_timer f i ts

-- `oldEntry.timer.Stop()`, if there is an old entry with a timer
abbrev pub stop_old : Option Entry → List Timer → List Timer
stop_old none ts = ts
stop_old (some e) ts = elim (e.timer) [ none ↦ ts | some i ↦ on_timer stop_phase i ts ]

-- `add`
unfoldable pub add : String → ℕ → EntryType → ℕ → Scheduler → Scheduler
add key ttl kind now s =
    let stopped_old = stop_old (lookup key s.entries) s.timers in
    record s {
      entries =
          put key (record { expiry = now + ttl; kind = kind; timer = some (length stopped_old) })
            s.entries;
      timers = stopped_old ++ record { key = key; kind = kind; phase = armed } ∷ [];
      index_dirty = true;
    }

-- `AddBlob` and `AddManifest`: the new state, and whether "scheduler not started" is returned.
unfoldable pub add_entry : String → ℕ → EntryType → ℕ → Scheduler → Scheduler × Bool
unfolding add
add_entry key ttl kind now s = if s.stopped then (s, true) else (add key ttl kind now s, false)

-- A timer fires: its function starts and waits for the mutex.
unfoldable pub fire : ℕ → Scheduler → Scheduler
fire i s = record s { timers = on_timer fire_phase i s.timers }

abbrev pub expire_timer : ℕ → Option Timer → Scheduler → Scheduler
expire_timer i none s = s
expire_timer i (some t) s = elim (t.phase) [
  | fired ↦ record s {
    entries = remove t.key s.entries;
    timers = on_timer (λ p. over) i s.timers;
    index_dirty = true;
    expired = s.expired ++ (t.key, t.kind) ∷ [];
  }
  | armed ↦ s
  | over ↦ s
]

-- The function of timer `i`, with the mutex: the callback, and the removal of its key.
unfoldable pub expire : ℕ → Scheduler → Scheduler
expire i s = expire_timer i (get_elem? s.timers i) s

-- `writeState`'s result on a storage that accepts it, and the tick of `saveTimer`.
unfoldable pub save : Bool → Scheduler → Scheduler
save written s =
    if s.index_dirty then (if written then record s { index_dirty = false } else s) else s

-- Stop the timers of all entries. An entry without one makes `entry.timer.Stop()` panic.
unfoldable pub stop_all : List (String × Entry) → List Timer → Option (List Timer)
stop_all [] ts = some ts
stop_all ((k, e) ∷ es) ts = elim (e.timer) [
  | none ↦ none
  | some i ↦ stop_all es (on_timer stop_phase i ts)
]

abbrev pub stop_with : Option (List Timer) → Bool → Scheduler → Option Scheduler
stop_with none closed s = none
stop_with (some ts) true s = none
stop_with (some ts) false s = some (record s { timers = ts; stopped = true; done_closed = true })

-- `Stop`; none if it panics: on an entry without a timer, or on closing `doneChan` again. Nothing
-- looks at whether its `writeState` succeeds.
unfoldable pub stop : Scheduler → Option Scheduler
unfolding stop_all
stop s = stop_with (stop_all s.entries s.timers) s.done_closed s

-- `json.Unmarshal` into the map: each saved entry replaces the one of its key, without a timer.
unfoldable pub read_state : List (String × Entry) → List (String × Entry) → List (String × Entry)
read_state [] es = es
read_state ((k, e) ∷ saved) es = read_state saved (put k (record e { timer = none }) es)

-- The loop over the entries that starts their timers.
unfoldable pub start_timers :
    List (String × Entry) → List Timer → List (String × Entry) × List Timer
start_timers [] ts = ([], ts)
start_timers ((k, e) ∷ es) ts =
    let (es', ts') =
      start_timers es (ts ++ record { key = k; kind = e.kind; phase = armed } ∷ []) in
    ((k, record e { timer = some (length ts) }) ∷ es', ts')

-- `Start`, with what the state file holds, or none if it cannot be read: the new state, and
-- whether an error is returned. The state is read before `stopped` is tested.
unfoldable pub start : Option (List (String × Entry)) → Scheduler → Scheduler × Bool
unfolding read_state start_timers
start none s = (s, true)
start (some saved) s =
    let es = read_state saved s.entries in
    if not s.stopped
    then (record s { entries = es }, true)
    else (let (es', ts') = start_timers es s.timers in
        (record s { entries = es'; timers = ts'; stopped = false }, false))
