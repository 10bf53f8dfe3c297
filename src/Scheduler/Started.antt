-- ===== src/Scheduler/Started.antt =====
-- The scheduler behind `Start`, and runs from there.
use container_registry.Prelude.{
  ℕ, false, List, [], ◌∷◌, ◌++◌, Option, none, some, String, ◌≡◌, refl, inl, inr, length, get_elem?,
  get_elem?-append, get_elem?-length, string_eq, ◌==◌, Bool-cases, arith,
}
use container_registry.Prelude.Sets.{lookup}
use container_registry.Scheduler.{Entry, armed, Timer, Scheduler, read_state, start_timers, start}
use container_registry.Scheduler.Timers.{is_armed, HasTimer, IsTimed}
use container_registry.Scheduler.Steps.{Event, steps, steps-IsTimed}

abbrev new_timer : String → Entry → Timer
new_timer k e = record { key = k; kind = e.kind; phase = armed }

start_timers-get_elem? :
    (es : List (String × Entry)) (ts : List Timer) (i : ℕ) {u : Timer}
    → get_elem? ts i ≡ some u
    → get_elem? (start_timers es ts).1 i ≡ some u
unfolding start_timers
start_timers-get_elem? [] ts i h = h
start_timers-get_elem? ((k, e) ∷ es) ts i h =
    start_timers-get_elem? es (ts ++ new_timer k e ∷ []) i (get_elem?-append ts _ i h)

start_timers-HasTimer :
    (es : List (String × Entry)) (ts : List Timer) (k : String) (e : Entry)
    → lookup k (start_timers es ts).0 ≡ some e
    → HasTimer (start_timers es ts).1 k e
unfolding start_timers lookup
start_timers-HasTimer [] ts k e h = cc h
start_timers-HasTimer ((j, w) ∷ es) ts k e h =
    let more : List Timer = ts ++ new_timer j w ∷ [] in
    elim (Bool-cases (j == k)) [
      | inl same ↦
          let here : some (record w { timer = some (length ts) }) ≡ some e = rw same at h in
          let p : record w { timer = some (length ts) } ≡ e = cc here in
          rw (← p) (record {
            index = length ts;
            timer = new_timer j w;
            of_entry = refl;
            started = start_timers-get_elem? es more (length ts) (get_elem?-length ts _);
            same_key = (string_eq.beq_iff j k).0 same;
            same_kind = refl;
            pending = is_armed;
          })
      | inr other ↦ start_timers-HasTimer es more k e (rw other at h)
    ]

start-IsTimed :
    (saved : Option (List (String × Entry))) (s : Scheduler)
    → (start saved s).1 ≡ false
    → IsTimed (start saved s).0
unfolding start
start-IsTimed none s h = cc h
start-IsTimed (some saved) s h = elim (Bool-cases s.stopped) [
  | inl off ↦
      rw off (record { at_key = start_timers-HasTimer (read_state saved s.entries) s.timers })
  | inr on ↦ ground (arith, on)
]

-- After a start without an error, whatever is added, fires or expires, in any order, every entry
-- keeps a pending timer of its own key and kind.
pub start-steps-IsTimed :
    (saved : Option (List (String × Entry))) (s : Scheduler) (es : List Event)
    → (start saved s).1 ≡ false
    → IsTimed (steps es (start saved s).0)
start-steps-IsTimed saved s es h = steps-IsTimed es (start saved s).0 (start-IsTimed saved s h)
