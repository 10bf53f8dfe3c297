-- ===== src/Notifications/Queue/Drain.antt =====
-- `eventQueue`: the loop of `run` on a closed queue.
use container_registry.Prelude.{
  ℕ, zero, suc, ◌<◌, Bool, true, List, [], ◌∷◌, ◌++◌, ◌≡◌, refl, sym, ◌∙◌, append_assoc, append-nil,
  arith, length, subst,
}
use container_registry.Notifications.Queue.{idle, returned, Closing, State, run}

module _ (Block : Type 0) where
  abbrev draining : List Block → Closing Block → List Block → List Block → State Block
  draining evs k acc del = record {
    events = evs;
    closed = true;
    runner = idle;
    closing = k;
    accepted = acc;
    delivered = del;
  }

  -- Once it has returned, the goroutine does nothing more.
  run-returned :
      (fuel : ℕ) {evs : List Block} {k : Closing Block} {acc del : List Block} {c : Bool}
      → run Block fuel (record {
        events = evs;
        closed = c;
        runner = returned;
        closing = k;
        accepted = acc;
        delivered = del;
      })
        ≡ record {
          events = evs;
          closed = c;
          runner = returned;
          closing = k;
          accepted = acc;
          delivered = del;
        }
  unfolding run
  run-returned zero = refl
  run-returned (suc fuel) = refl

  pub record Drained (s : State Block) (t : State Block) : Type 0 where
    pub has_returned : t.runner ≡ returned
    pub all_delivered : t.delivered ≡ s.delivered ++ s.events
    pub still_closed : t.closed ≡ true

  run-draining :
      (fuel : ℕ) (evs : List Block) (k : Closing Block) (acc del : List Block)
      → length evs < fuel
      → Drained (draining evs k acc del) (run Block fuel (draining evs k acc del))
  unfolding run
  run-draining zero evs k acc del h = elim h [ ]
  run-draining (suc fuel) [] k acc del h =
      rw (run-returned fuel)
        (record { has_returned = refl; all_delivered = sym (append-nil del); still_closed = refl })
  run-draining (suc fuel) (b ∷ rest) k acc del h =
      let d = run-draining fuel rest k acc (del ++ b ∷ []) (omega arith) in
      record {
        has_returned = d.has_returned;
        all_delivered = d.all_delivered ∙ append_assoc del (b ∷ []) rest;
        still_closed = d.still_closed;
      }

  -- From a closed queue, in at most one round more than there are blocks, the goroutine has given
  -- all of them to the sink, in order, and has returned, so that `Close` can go on.
  pub run_drains :
      (fuel : ℕ) (s : State Block)
      → s.closed ≡ true
      → s.runner ≡ idle
      → length s.events < fuel
      → Drained s (run Block fuel s)
  run_drains fuel s c r h =
      let same : s ≡ draining s.events s.closing s.accepted s.delivered = λ i. record {
        events = s.events;
        closed = c i;
        runner = r i;
        closing = s.closing;
        accepted = s.accepted;
        delivered = s.delivered;
      } in
      subst (λ x. Drained x (run Block fuel x)) (sym same)
        (run-draining fuel s.events s.closing s.accepted s.delivered h)
