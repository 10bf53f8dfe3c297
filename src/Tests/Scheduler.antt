-- ===== src/Tests/Scheduler.antt =====
-- Small runs of the scheduler.
use container_registry.Prelude.{true, false, List, [], ◌∷◌, none, some, ◌≡◌, refl, string_eq}
use container_registry.Prelude.Sets.{lookup}
use container_registry.Scheduler.{
  blob, manifest, Entry, fired, Scheduler, new_scheduler, stop, stop_all, start,
}
use container_registry.Scheduler.Timers.{IsTimed}
use container_registry.Scheduler.Steps.{Event, added, fires, expires, steps}
use container_registry.Scheduler.Started.{start-steps-IsTimed}

abbrev running : Scheduler
running = record new_scheduler { stopped = false }

-- A blob is added, its timer fires, the blob is added again, and the old timer's function runs.
abbrev events : List Event
events = added "a" 5 blob 0 ∷ added "b" 9 manifest 1 ∷ fires 0 ∷ added "a" 5 blob 5 ∷ expires 0 ∷ []

abbrev saved_entry : Entry
saved_entry = record { expiry = 5; kind = blob; timer = none }

starts : (start (some (("c", saved_entry) ∷ [])) new_scheduler).1 ≡ false
unfolding start
starts = refl

start-steps-IsTimed_example :
    IsTimed (steps events (start (some (("c", saved_entry) ∷ [])) new_scheduler).0)
start-steps-IsTimed_example =
    start-steps-IsTimed (some (("c", saved_entry) ∷ [])) new_scheduler events starts

abbrev timed_entry : Entry
timed_entry = record { expiry = 5; kind = blob; timer = some 0 }

-- The timer of the only entry has fired.
abbrev expiring : Scheduler
expiring = record running {
  entries = ("a", timed_entry) ∷ [];
  timers = record { key = "a"; kind = blob; phase = fired } ∷ [];
}

expiring_entry : lookup "a" expiring.entries ≡ some timed_entry
unfolding lookup
expiring_entry = refl

abbrev stopped_once : Scheduler
stopped_once = record running { stopped = true; done_closed = true }

stops_once : stop running ≡ some stopped_once
unfolding stop stop_all
stops_once = refl
