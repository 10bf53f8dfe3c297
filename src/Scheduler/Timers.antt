-- ===== src/Scheduler/Timers.antt =====
-- Which timers the entries have, as entries are added and timers fire and expire.
use container_registry.Prelude.{
  ℕ, zero, suc, ◌+◌, Bool, true, false, List, [], ◌∷◌, ◌++◌, Option, none, some, String,
  if◌then◌else◌, ◌≡◌, ◌≢◌, refl, sym, ap, ◌∙◌, inl, inr, length, get_elem?, get_elem?-append,
  get_elem?-length, string_eq, ◌==◌, Bool-cases, false≢true, nat_eq,
}
use container_registry.Prelude.Sets.{lookup, put, lookup-put}
use container_registry.Scheduler.{
  EntryType, Entry, Phase, armed, fired, Timer, Scheduler, stop_phase, on_timer, stop_old, add,
  add_entry,
}

pub on_timer_self :
    (f : Phase → Phase) (i : ℕ) (ts : List Timer) {u : Timer}
    → get_elem? ts i ≡ some u
    → get_elem? (on_timer f i ts) i ≡ some (record u { phase = f u.phase })
unfolding on_timer
on_timer_self f i [] e = cc e
on_timer_self f zero (t ∷ ts) {u} e =
    let p : t ≡ u = cc e in ap (λ (x : Timer). some (record x { phase = f x.phase })) p
on_timer_self f (suc i) (t ∷ ts) e = on_timer_self f i ts e

pub on_timer_ne :
    (f : Phase → Phase) (i j : ℕ) (ts : List Timer)
    → i ≢ j
    → get_elem? (on_timer f i ts) j ≡ get_elem? ts j
unfolding on_timer
on_timer_ne f i j [] n = refl
on_timer_ne f zero zero (t ∷ ts) n = absurd (n refl)
on_timer_ne f zero (suc j) (t ∷ ts) n = refl
on_timer_ne f (suc i) zero (t ∷ ts) n = refl
on_timer_ne f (suc i) (suc j) (t ∷ ts) n = on_timer_ne f i j ts (λ e. n (ap suc e))

-- A timer that has not been stopped and has not run its function yet.
pub data IsPending : Phase → Type 0 where
  is_armed : IsPending armed
  is_fired : IsPending fired

-- The entry has a pending timer, for its own key and kind.
pub record HasTimer (ts : List Timer) (k : String) (e : Entry) : Type 0 where
  pub index : ℕ
  pub timer : Timer
  pub of_entry : e.timer ≡ some index
  pub started : get_elem? ts index ≡ some timer
  pub same_key : timer.key ≡ k
  pub same_kind : timer.kind ≡ e.kind
  pub pending : IsPending timer.phase

-- Every entry will be expired: it has a pending timer.
pub record IsTimed (s : Scheduler) : Type 0 where
  pub at_key : (k : String) (e : Entry) → lookup k s.entries ≡ some e → HasTimer s.timers k e

-- A change of another key's timer leaves an entry's timer alone.
pub other_timer :
    (f : Phase → Phase) (i : ℕ) (ts : List Timer) {t : Timer} {k : String} {e : Entry}
    → get_elem? ts i ≡ some t
    → t.key ≢ k
    → HasTimer ts k e
    → HasTimer (on_timer f i ts) k e
other_timer f i ts {t} g n h = record {
  index = h.index;
  timer = h.timer;
  of_entry = h.of_entry;
  started =
      on_timer_ne f i h.index ts (λ q.
        let same : t ≡ h.timer = cc (g, ap (get_elem? ts) q, h.started) in
        n (ap (λ (x : Timer). x.key) same ∙ h.same_key))
      ∙ h.started;
  same_key = h.same_key;
  same_kind = h.same_kind;
  pending = h.pending;
}

pub later_timer :
    (ts us : List Timer) {k : String} {e : Entry} → HasTimer ts k e → HasTimer (ts ++ us) k e
later_timer ts us h = record {
  index = h.index;
  timer = h.timer;
  of_entry = h.of_entry;
  started = get_elem?-append ts us h.index h.started;
  same_key = h.same_key;
  same_kind = h.same_kind;
  pending = h.pending;
}

-- Stopping the timer of an old entry of another key.
pub stop_other :
    (o : Option Entry) (ts : List Timer) {key k : String} {e : Entry}
    → ((old : Entry) → o ≡ some old → HasTimer ts key old)
    → key ≢ k
    → HasTimer ts k e
    → HasTimer (stop_old o ts) k e
stop_other none ts old n h = h
stop_other (some o) ts old n h =
    let p = old o refl in
    rw (p.of_entry, stop_old)
      (other_timer stop_phase p.index ts p.started (λ q. n (sym p.same_key ∙ q)) h)

pub either :
    (b : Bool) {s t : Scheduler}
    → IsTimed s
    → IsTimed t
    → IsTimed (if◌then◌else◌ {A = Scheduler × Bool} b (s, true) (t, false)).0
either true h k = h
either false h k = k

module _ (key : String) (ttl : ℕ) (kind : EntryType) (now : ℕ) (s : Scheduler) where
  -- the timers behind the `Stop` of the old one, and the new entry
  abbrev stopped_old : List Timer
  stopped_old = stop_old (lookup key s.entries) s.timers

  abbrev new_entry : Entry
  new_entry = record { expiry = now + ttl; kind = kind; timer = some (length stopped_old) }

  add_at :
      IsTimed s
      → (k : String) (e : Entry) → lookup k (put key new_entry s.entries) ≡ some e
      → HasTimer (stopped_old ++ record { key = key; kind = kind; phase = armed } ∷ []) k e
  add_at h k e g = elim (Bool-cases (key == k)) [
    | inl same ↦
        let here : some new_entry ≡ some e =
          sym (lookup-put key k new_entry s.entries ∙ rw same) ∙ g in
        let p : new_entry ≡ e = cc here in
        rw (← p) (record {
          index = length stopped_old;
          timer = record { key = key; kind = kind; phase = armed };
          of_entry = refl;
          started = get_elem?-length stopped_old _;
          same_key = (string_eq.beq_iff key k).0 same;
          same_kind = refl;
          pending = is_armed;
        })
    | inr other ↦
        let old : lookup k s.entries ≡ some e =
          sym (lookup-put key k new_entry s.entries ∙ rw other) ∙ g in
        later_timer stopped_old _ (
          stop_other (lookup key s.entries) s.timers (λ o q. h.at_key key o q)
            (λ q. false≢true (sym other ∙ (string_eq.beq_iff key k).1 q)) (h.at_key k e old))
  ]

  pub add-IsTimed : IsTimed s → IsTimed (add key ttl kind now s)
  unfolding add
  add-IsTimed h = record { at_key = add_at h }

  pub add_entry-IsTimed : IsTimed s → IsTimed (add_entry key ttl kind now s).0
  unfolding add_entry
  add_entry-IsTimed h = either s.stopped h (add-IsTimed h)
