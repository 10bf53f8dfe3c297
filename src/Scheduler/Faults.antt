-- ===== src/Scheduler/Faults.antt =====
-- The scheduler: orders of calls around `Start`, `Stop` and a renewed entry.
use container_registry.Prelude.{
  ℕ, Bool, true, false, List, [], ◌∷◌, none, some, String, ◌≡◌, ◌∙◌, inl, inr, get_elem?,
  get_elem?-append, string_eq, ==_refl, Option, sym, ap, refl, Option-cases, arith,
}
use container_registry.Prelude.Sets.{lookup, put, remove, lookup-remove}
use container_registry.Scheduler.Timers.{on_timer_self}
use container_registry.Scheduler.{
  EntryType, Entry, fired, Timer, Scheduler, stop_phase, on_timer, stop_old, add, expire,
  expire_timer, stop_all, stop_with, stop, start,
}

stop_all-put :
    (k : String) (e : Entry) (es : List (String × Entry)) (ts : List Timer)
    → e.timer ≡ none
    → stop_all (put k e es) ts ≡ none
unfolding stop_all put
stop_all-put k e [] ts n = ground arith
stop_all-put k e ((j, w) ∷ es) ts n = elim (Option-cases w.timer) [
  | inl q ↦ ground (arith, q)
  | inr (i, q) ↦ ground (arith, q, stop_all-put k e es (on_timer stop_phase i ts))
]

-- Starting a running scheduler returns an error, but has replaced the entries that the state file
-- holds by entries without a timer: stopping it afterwards panics.
pub second_start_panics :
    (k : String) (e : Entry) (s : Scheduler)
    → s.stopped ≡ false
    → ((start (some ((k, e) ∷ [])) s).1 ≡ true) × (stop (start (some ((k, e) ∷ [])) s).0 ≡ none)
unfolding start stop
second_start_panics k e s r =
    (ground arith, ground (arith, stop_all-put k (record e { timer = none }) s.entries s.timers))

start-done_closed :
    (saved : Option (List (String × Entry))) (s : Scheduler)
    → (start saved s).0.done_closed ≡ s.done_closed
unfolding start
start-done_closed none s = refl
start-done_closed (some saved) s = ground arith

stop_with-done_closed :
    (o : Option (List Timer)) (b : Bool) (s : Scheduler) {t : Scheduler}
    → stop_with o b s ≡ some t
    → t.done_closed ≡ true
stop_with-done_closed none b s h = cc h
stop_with-done_closed (some ts) true s h = cc h
stop_with-done_closed (some ts) false s {t} h =
    let same : record s { timers = ts; stopped = true; done_closed = true } ≡ t = cc h in
    sym (ap (λ (x : Scheduler). x.done_closed) same)

stop_with-closed : (o : Option (List Timer)) (s : Scheduler) → stop_with o true s ≡ none
stop_with-closed none s = refl
stop_with-closed (some ts) s = refl

stop-none : (s : Scheduler) → s.done_closed ≡ true → stop s ≡ none
unfolding stop
stop-none s h =
    ap (λ b. stop_with (stop_all s.entries s.timers) b s) h
    ∙ stop_with-closed (stop_all s.entries s.timers) s

-- A scheduler that was stopped is not stopped twice: after a stop that did not panic, and after any
-- start that may follow it, stopping panics.
pub restart_stop_panics :
    (saved : Option (List (String × Entry))) (s t : Scheduler)
    → stop s ≡ some t
    → (stop t ≡ none) × (stop (start saved t).0 ≡ none)
unfolding stop
restart_stop_panics saved s t h =
    let closed = stop_with-done_closed (stop_all s.entries s.timers) s.done_closed s h in
    (stop-none t closed, stop-none (start saved t).0 (start-done_closed saved t ∙ closed))

stop_old-some :
    (e : Entry) (i : ℕ) (ts : List Timer)
    → e.timer ≡ some i
    → stop_old (some e) ts ≡ on_timer stop_phase i ts
stop_old-some e i ts h = rw (h, stop_old)

expire-entries :
    (i : ℕ) (s : Scheduler) (key : String) (kind : EntryType)
    → get_elem? s.timers i ≡ some (record { key = key; kind = kind; phase = fired })
    → (expire i s).entries ≡ remove key s.entries
unfolding expire
expire-entries i s key kind h = rw (h, expire_timer)

-- A timer that has fired is not held back by `Stop`: if its function comes to the mutex behind an
-- `add` that renews its key, it removes the renewed entry.
pub stale_timer_drops_renewal :
    (key : String) (ttl : ℕ) (kind old_kind : EntryType) (now i : ℕ) (e : Entry) (s : Scheduler)
    → lookup key s.entries ≡ some e
    → e.timer ≡ some i
    → get_elem? s.timers i ≡ some (record { key = key; kind = old_kind; phase = fired })
    → lookup key (expire i (add key ttl kind now s)).entries ≡ none
stale_timer_drops_renewal key ttl kind old_kind now i e s found timer g =
    let stays : get_elem? (add key ttl kind now s).timers i
        ≡ some (record { key = key; kind = old_kind; phase = fired }) =
      unfold add in
      rw (found, stop_old-some e i s.timers timer)
        (get_elem?-append (on_timer stop_phase i s.timers) _ i
          (on_timer_self stop_phase i s.timers g)) in
    rw (expire-entries i (add key ttl kind now s) key old_kind stays)
      (lookup-remove key key (add key ttl kind now s).entries ∙ rw (==_refl key))
