-- ===== src/Notifications/Queue/Order.antt =====
-- `eventQueue`: the order of delivery, and the closing of the wrapped sink.
use container_registry.Prelude.{
  Bool, true, false, List, [], ◌∷◌, ◌++◌, some, ◌≡◌, refl, ap, sym, ◌∙◌, append_assoc, append-nil,
  ap₂,
}
use container_registry.Notifications.Queue.{
  Runner, idle, holding, returned, Closing, not_closed, waiting, sink_closed, State,
  new_event_queue, write, next, deliver, close, flush, Step, writes, takes, delivers, closes,
  flushes, write_if, next_if, next_of, deliver_of, close_if, flush_of, Reach, here, then,
}

module _ (Block : Type 0) where
  -- The block that the goroutine of `run` holds.
  abbrev pub held : Runner Block → List Block
  held (holding b) = b ∷ []
  held _ = []

  pub record IsOrdered (s : State Block) : Type 0 where
    pub fifo : s.accepted ≡ s.delivered ++ (held s.runner ++ s.events)
    pub returned_empty : s.runner ≡ returned → (s.events ≡ []) × (s.closed ≡ true)
    pub close_waits : s.closing ≡ sink_closed → s.runner ≡ returned
    pub open_unclosed : s.closed ≡ false → s.closing ≡ not_closed

  -- One more block at the end of both sides.
  extend :
      (b : Block) (acc del xs ys : List Block)
      → acc ≡ del ++ (xs ++ ys)
      → acc ++ b ∷ [] ≡ del ++ (xs ++ (ys ++ b ∷ []))
  extend b acc del xs ys h =
      rw h (append_assoc del (xs ++ ys) (b ∷ []) ∙ ap (◌++◌ del) (append_assoc xs ys (b ∷ [])))

  write_if-IsOrdered :
      (c : Bool) (b : Block) (s : State Block)
      → s.closed ≡ c
      → IsOrdered s
      → IsOrdered (write_if Block c b s).0
  write_if-IsOrdered true b s c h = h
  write_if-IsOrdered false b s c h = record {
    fifo = extend b s.accepted s.delivered (held s.runner) s.events h.fifo;
    returned_empty = λ r. cc (c, (h.returned_empty r).1);
    close_waits = h.close_waits;
    open_unclosed = h.open_unclosed;
  }

  next_if-IsOrdered :
      (evs : List Block) (c : Bool) (s : State Block) {t : State Block}
      → s.runner ≡ idle
      → s.events ≡ evs
      → s.closed ≡ c
      → IsOrdered s
      → next_if Block evs c s ≡ some t
      → IsOrdered t
  next_if-IsOrdered (b ∷ rest) c s {t} r v q h e =
      let p : t ≡ record s { events = rest; runner = holding b } = cc e in
      rw p (record {
        fifo = h.fifo ∙ ap₂ (λ x y. s.delivered ++ (held x ++ y)) r v;
        returned_empty = λ x. cc x;
        close_waits = λ x. cc (h.close_waits x, r);
        open_unclosed = h.open_unclosed;
      })
  next_if-IsOrdered [] true s {t} r v q h e =
      let p : t ≡ record s { runner = returned } = cc e in
      rw p (record {
        fifo = h.fifo ∙ ap (λ x. s.delivered ++ (held x ++ s.events)) r;
        returned_empty = λ x. (v, q);
        close_waits = λ x. refl;
        open_unclosed = h.open_unclosed;
      })
  next_if-IsOrdered [] false s r v q h e = cc e

  next_of-IsOrdered :
      (r : Runner Block) (s : State Block) {t : State Block}
      → s.runner ≡ r
      → IsOrdered s
      → next_of Block r s ≡ some t
      → IsOrdered t
  next_of-IsOrdered idle s p h e = next_if-IsOrdered s.events s.closed s p refl refl h e
  next_of-IsOrdered (holding b) s p h e = cc e
  next_of-IsOrdered returned s p h e = cc e

  deliver_of-IsOrdered :
      (r : Runner Block) (s : State Block) {t : State Block}
      → s.runner ≡ r
      → IsOrdered s
      → deliver_of Block r s ≡ some t
      → IsOrdered t
  deliver_of-IsOrdered (holding b) s {t} r h e =
      let p : t ≡ record s { runner = idle; delivered = s.delivered ++ b ∷ [] } = cc e in
      rw p (record {
        fifo =
            h.fifo
            ∙ ap (λ x. s.delivered ++ (held x ++ s.events)) r
            ∙ sym (append_assoc s.delivered (b ∷ []) s.events);
        returned_empty = λ x. cc x;
        close_waits = λ x. cc (h.close_waits x, r);
        open_unclosed = h.open_unclosed;
      })
  deliver_of-IsOrdered idle s p h e = cc e
  deliver_of-IsOrdered returned s p h e = cc e

  close_if-IsOrdered :
      (c : Bool) (s : State Block) → s.closed ≡ c → IsOrdered s → IsOrdered (close_if Block c s).0
  close_if-IsOrdered true s c h = h
  close_if-IsOrdered false s c h = record {
    fifo = h.fifo;
    returned_empty = λ r. cc (c, (h.returned_empty r).1);
    close_waits = λ q. cc q;
    open_unclosed = λ q. cc q;
  }

  flush_of-IsOrdered :
      (r : Runner Block) (k : Closing Block) (s : State Block) {t : State Block}
      → s.runner ≡ r
      → IsOrdered s
      → flush_of Block r k s ≡ some t
      → IsOrdered t
  flush_of-IsOrdered returned waiting s {t} r h e =
      let p : t ≡ record s { closing = sink_closed } = cc e in
      rw p (record {
        fifo = h.fifo;
        returned_empty = h.returned_empty;
        close_waits = λ x. r;
        open_unclosed = λ x. cc (x, (h.returned_empty r).1);
      })
  flush_of-IsOrdered returned not_closed s r h e = cc e
  flush_of-IsOrdered returned sink_closed s r h e = cc e
  flush_of-IsOrdered idle k s r h e = cc e
  flush_of-IsOrdered (holding b) k s r h e = cc e

  Step-IsOrdered : {s t : State Block} → Step Block s t → IsOrdered s → IsOrdered t
  unfolding write next deliver close flush
  Step-IsOrdered {s} (writes b e) h = rw e (write_if-IsOrdered s.closed b s refl h)
  Step-IsOrdered {s} (takes e) h = next_of-IsOrdered s.runner s refl h e
  Step-IsOrdered {s} (delivers e) h = deliver_of-IsOrdered s.runner s refl h e
  Step-IsOrdered {s} (closes e) h = rw e (close_if-IsOrdered s.closed s refl h)
  Step-IsOrdered {s} (flushes e) h = flush_of-IsOrdered s.runner s.closing s refl h e

  Reach-IsOrdered : {s t : State Block} → IsOrdered s → Reach Block s t → IsOrdered t
  Reach-IsOrdered h here = h
  Reach-IsOrdered h (then r st) = Step-IsOrdered st (Reach-IsOrdered h r)

  init-IsOrdered : IsOrdered (new_event_queue Block)
  init-IsOrdered = record {
    fifo = refl;
    returned_empty = λ e. cc e;
    close_waits = λ e. cc e;
    open_unclosed = λ e. refl;
  }

  -- In every state that a new queue reaches, the sink has been given a first part of the accepted
  -- blocks, in order and each once; what is left is held by the goroutine or still queued.
  pub delivered_in_order :
      {s : State Block}
      → Reach Block (new_event_queue Block) s
      → s.accepted ≡ s.delivered ++ (held s.runner ++ s.events)
  delivered_in_order r = (Reach-IsOrdered init-IsOrdered r).fifo

  -- When the wrapped sink is closed, it has been given every block that was accepted.
  pub closed_flushed :
      {s : State Block}
      → Reach Block (new_event_queue Block) s
      → s.closing ≡ sink_closed
      → s.delivered ≡ s.accepted
  closed_flushed {s} r c =
      let h = Reach-IsOrdered init-IsOrdered r in
      let q = h.close_waits c in
      sym (
        h.fifo
        ∙ ap₂ (λ x y. s.delivered ++ (held x ++ y)) q (h.returned_empty q).0
        ∙ append-nil s.delivered)
