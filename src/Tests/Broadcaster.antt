-- ===== src/Tests/Broadcaster.antt =====
-- A broadcaster with two sinks, from its first block to the end of `Close`.
use container_registry.Prelude.{ℕ, true, false, List, [], ◌∷◌, ◌++◌, some, ◌≡◌, ◌≢◌, refl}
use container_registry.Notifications.Broadcaster.{
  State, new_broadcaster, selecting, returned, sending, finished, refuse, accept, work, call_close,
  take_close, shut_channel, answer, Reach, here, then, accepts, works, calls_close, takes_close,
  shuts, answers, closed_sink, written,
}
use container_registry.Notifications.Broadcaster.Given.{IsGiven, all_to, all_closed}
use container_registry.Notifications.Broadcaster.Complete.{broadcast_in_order}
use container_registry.Notifications.Broadcaster.Stolen.{stolen_never_finishes}

abbrev sinks : List ℕ
sinks = 1 ∷ 2 ∷ []

abbrev ended : State ℕ ℕ
ended = record {
  shut = true;
  runner = returned;
  closer = finished;
  accepted = 7 ∷ [];
  log = written 1 7 ∷ written 2 7 ∷ closed_sink 1 ∷ closed_sink 2 ∷ [];
}

ended-Reach : Reach ℕ ℕ sinks (new_broadcaster ℕ ℕ) ended
unfolding accept work call_close take_close shut_channel answer
ended-Reach =
    then
      (then
        (then
          (then
            (then
              (then
                (then (then (then (then here (accepts 7 refl)) (calls_close refl)) (works refl))
                  (works refl))
                (works refl))
              (takes_close refl))
            (shuts refl))
          (works refl))
        (works refl))
      (answers refl)

broadcast_in_order_example :
    IsGiven ℕ ℕ sinks ended.runner ended.accepted ended.log
    × (ended.closer ≡ finished
        → ended.log ≡ all_to ℕ ℕ sinks ended.accepted ++ all_closed ℕ ℕ sinks sinks)
broadcast_in_order_example = broadcast_in_order ℕ ℕ sinks ended-Reach

abbrev offering : State ℕ ℕ
offering = record { shut = false; runner = selecting; closer = sending; accepted = []; log = [] }

stolen_never_finishes_example :
    (t : State ℕ ℕ) × (refuse ℕ ℕ offering ≡ some t)
    × ((u : State ℕ ℕ) → Reach ℕ ℕ sinks t u → u.closer ≢ finished)
stolen_never_finishes_example = stolen_never_finishes ℕ ℕ sinks offering refl refl refl
