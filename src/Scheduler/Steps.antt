-- ===== src/Scheduler/Steps.antt =====
-- Runs of a started scheduler: additions, timers that fire, and their functions, in any order.
use container_registry.Prelude.{
  ℕ, List, [], ◌∷◌, Option, none, some, String, ◌≡◌, refl, sym, ◌∙◌, inl, inr, get_elem?, string_eq,
  ◌==◌, Bool-cases, false≢true, nat_eq,
}
use container_registry.Prelude.Sets.{lookup, remove, lookup-remove}
use container_registry.Scheduler.{
  EntryType, Entry, Phase, armed, fired, over, Timer, Scheduler, fire_phase, on_timer, add_entry,
  fire, expire_timer, expire,
}
use container_registry.Scheduler.Timers.{
  on_timer_self, on_timer_ne, IsPending, is_armed, is_fired, HasTimer, IsTimed, other_timer,
  add_entry-IsTimed,
}

fired-IsPending : {p : Phase} → IsPending p → IsPending (fire_phase p)
fired-IsPending is_armed = is_fired
fired-IsPending is_fired = is_fired

fire_one :
    (i : ℕ) (ts : List Timer) {k : String} {e : Entry}
    → HasTimer ts k e
    → HasTimer (on_timer fire_phase i ts) k e
fire_one i ts h = elim (Bool-cases (i == h.index)) [
  | inl same ↦
      let q : i ≡ h.index = (nat_eq.beq_iff i h.index).0 same in
      rw q (record {
        index = h.index;
        timer = record h.timer { phase = fire_phase h.timer.phase };
        of_entry = h.of_entry;
        started = on_timer_self fire_phase h.index ts h.started;
        same_key = h.same_key;
        same_kind = h.same_kind;
        pending = fired-IsPending h.pending;
      })
  | inr other ↦ record {
    index = h.index;
    timer = h.timer;
    of_entry = h.of_entry;
    started =
        on_timer_ne fire_phase i h.index ts
          (λ q. false≢true (sym other ∙ (nat_eq.beq_iff i h.index).1 q))
        ∙ h.started;
    same_key = h.same_key;
    same_kind = h.same_kind;
    pending = h.pending;
  }
]

pub fire-IsTimed : (i : ℕ) (s : Scheduler) → IsTimed s → IsTimed (fire i s)
unfolding fire
fire-IsTimed i s h = record { at_key = λ k e g. fire_one i s.timers (h.at_key k e g) }

-- The timer's function removes its key, and leaves the entries of other keys with their timers.
expire_fired :
    (i : ℕ) (t : Timer) (s : Scheduler)
    → get_elem? s.timers i ≡ some t
    → IsTimed s
    → (k : String) (e : Entry) → lookup k (remove t.key s.entries) ≡ some e
    → HasTimer (on_timer (λ p. over) i s.timers) k e
expire_fired i t s found h k e g = elim (Bool-cases (t.key == k)) [
  | inl same ↦
      let gone : lookup k (remove t.key s.entries) ≡ none =
        lookup-remove t.key k s.entries ∙ rw same in
      cc (gone, g)
  | inr other ↦
      let old : lookup k s.entries ≡ some e =
        sym (lookup-remove t.key k s.entries ∙ rw other) ∙ g in
      other_timer (λ p. over) i s.timers found
        (λ q. false≢true (sym other ∙ (string_eq.beq_iff t.key k).1 q)) (h.at_key k e old)
]

expire_timer-IsTimed :
    (i : ℕ) (p : Phase) (k : String) (kind : EntryType) (s : Scheduler)
    → get_elem? s.timers i ≡ some (record { key = k; kind = kind; phase = p })
    → IsTimed s
    → IsTimed (expire_timer i (some (record { key = k; kind = kind; phase = p })) s)
expire_timer-IsTimed i armed k kind s g h = h
expire_timer-IsTimed i over k kind s g h = h
expire_timer-IsTimed i fired k kind s g h = record { at_key = expire_fired i _ s g h }

expire_found-IsTimed :
    (i : ℕ) (o : Option Timer) (s : Scheduler)
    → get_elem? s.timers i ≡ o
    → IsTimed s
    → IsTimed (expire_timer i o s)
expire_found-IsTimed i none s g h = h
expire_found-IsTimed i (some t) s g h = expire_timer-IsTimed i t.phase t.key t.kind s g h

pub expire-IsTimed : (i : ℕ) (s : Scheduler) → IsTimed s → IsTimed (expire i s)
unfolding expire
expire-IsTimed i s h = expire_found-IsTimed i (get_elem? s.timers i) s refl h

-- What may happen to a running scheduler.
pub data Event : Type 0 where
  added : String → ℕ → EntryType → ℕ → Event
  fires : ℕ → Event
  expires : ℕ → Event

pub step : Event → Scheduler → Scheduler
step (added key ttl kind now) s = (add_entry key ttl kind now s).0
step (fires i) s = fire i s
step (expires i) s = expire i s

pub steps : List Event → Scheduler → Scheduler
steps [] s = s
steps (e ∷ es) s = steps es (step e s)

-- Whatever is added, fires or expires, in any order, every entry keeps a pending timer of its own
-- key and kind, so that it will be expired.
pub steps-IsTimed : (es : List Event) (s : Scheduler) → IsTimed s → IsTimed (steps es s)
unfolding steps step
steps-IsTimed [] s h = h
steps-IsTimed (added key ttl kind now ∷ es) s h =
    steps-IsTimed es _ (add_entry-IsTimed key ttl kind now s h)
steps-IsTimed (fires i ∷ es) s h = steps-IsTimed es _ (fire-IsTimed i s h)
steps-IsTimed (expires i ∷ es) s h = steps-IsTimed es _ (expire-IsTimed i s h)
