-- ===== src/Tests/Notifications.antt =====
-- Small runs of the sinks.
use container_registry.Prelude.{
  ℕ, ◌-◌, ◌≤◌, true, false, [], ◌∷◌, ◌++◌, ◌≡◌, ◌≢◌, refl, inr, arith, string_eq,
}
use container_registry.Prelude.Sets.{contains}
use container_registry.Notifications.Ignored
use container_registry.Notifications.Ignored.{
  Event, Sink, new_ignored_sink, forward, accepted, write-ignoring, ignored_actions_lost,
}
use container_registry.Notifications.Queue
use container_registry.Notifications.Queue.{
  State, new_event_queue, Runner, idle, returned, sink_closed, Reach, here, then, Step, writes,
  takes, delivers, closes, flushes, run,
}
use container_registry.Notifications.Queue.Order.{held, delivered_in_order, closed_flushed}
use container_registry.Notifications.Queue.Drain.{Drained, run_drains}
use container_registry.Notifications.Retrying
use container_registry.Notifications.Retrying.{
  RetryingSink, new_retrying_sink, Round, broken, written, unfinished,
}
use container_registry.Notifications.Retrying.Breaker.{calls-le-threshold, write_ends}

abbrev pull : Event
pull = record { id = "1"; media_type = "image"; action = "pull" }

abbrev push : Event
push = record { id = "2"; media_type = "image"; action = "push" }

write-ignoring_example :
    Ignored.write (new_ignored_sink ("layer" ∷ []) ("pull" ∷ [])) (pull ∷ push ∷ [])
    ≡ forward (accepted ("layer" ∷ []) ("pull" ∷ []) (pull ∷ push ∷ []))
write-ignoring_example = write-ignoring ("layer" ∷ []) ("pull" ∷ []) (pull ∷ push ∷ []) (λ e. cc e)

pull_ignored : contains ("pull" ∷ []) pull.action ≡ true
unfolding contains
pull_ignored = refl

-- A queue that was given one block and is closed.
abbrev closed_queue : State ℕ
closed_queue = record {
  events = 7 ∷ [];
  closed = true;
  runner = idle;
  closing = Queue.waiting;
  accepted = 7 ∷ [];
  delivered = [];
}

run_drains_example : Drained ℕ closed_queue (run ℕ 2 closed_queue)
run_drains_example = run_drains ℕ 2 closed_queue refl refl (omega arith)

abbrev flushed_queue : State ℕ
flushed_queue = record {
  events = [];
  closed = true;
  runner = returned;
  closing = sink_closed;
  accepted = 7 ∷ [];
  delivered = 7 ∷ [];
}

-- One block is written, taken and delivered; the queue is closed and flushed.
flushed-Reach : Reach ℕ (new_event_queue ℕ) flushed_queue
unfolding Queue.write Queue.next Queue.deliver Queue.close Queue.flush
flushed-Reach =
    then
      (then
        (then (then (then (then here (writes 7 refl)) (takes refl)) (delivers refl)) (closes refl))
        (takes refl))
      (flushes refl)

delivered_in_order_example :
    flushed_queue.accepted
    ≡ flushed_queue.delivered ++ (held ℕ flushed_queue.runner ++ flushed_queue.events)
delivered_in_order_example = delivered_in_order ℕ flushed-Reach

closed_flushed_example : flushed_queue.delivered ≡ flushed_queue.accepted
closed_flushed_example = closed_flushed ℕ flushed-Reach refl

abbrev breaking : Round
breaking = record { closed_now = false; now = 10; answer = broken; failed_at = 10 }

abbrev waited : Round
waited = record { closed_now = false; now = 20; answer = written; failed_at = 20 }

calls-le-threshold_example :
    (Retrying.write (breaking ∷ breaking ∷ breaking ∷ []) (new_retrying_sink 2 5)).calls ≤ 2 - 0
unfolding new_retrying_sink
calls-le-threshold_example =
    calls-le-threshold (breaking ∷ breaking ∷ breaking ∷ []) (new_retrying_sink 2 5) 10
      ((omega arith, omega arith), ((omega arith, omega arith), ((omega arith, omega arith), tt)))
      (inr (omega arith))

write_ends_example :
    (Retrying.write ((breaking ∷ []) ++ waited ∷ []) (new_retrying_sink 1 5)).ending ≢ unfinished
unfolding new_retrying_sink
write_ends_example =
    write_ends (breaking ∷ []) waited (new_retrying_sink 1 5) (omega arith, tt) (omega arith) refl
