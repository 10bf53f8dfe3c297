-- ===== src/Notifications/Broadcaster.antt =====
-- `Broadcaster` of notifications/sinks.go: any number of calls of `Write`, the goroutine of `run`,
-- and a call of `Close` at a time. The channels have no buffer, so that a send and its receive are
-- one step; an error of a sink is only logged.
pub mod Given
pub mod Complete
pub mod Stolen
use container_registry.Prelude.{Bool, true, false, List, [], ◌∷◌, ◌++◌, Option, none, some, ◌≡◌}

module _ (Sink Block : Type 0) where
  -- Where `run` is: in its select, writing a block to the sinks that are left, closing those that
  -- are left, or returned. While it closes, it knows whether it has the channel of a call of
  -- `Close`, or the nil that a closed channel gives.
  pub data Runner : Type 0 where
    selecting : Runner
    writing : Block → List Sink → Runner
    closing : List Sink → Bool → Runner
    returned : Runner

  -- Where the call of `Close` is: none, sending its channel, about to close `closed`, receiving, or
  -- returned.
  pub data Closer : Type 0 where
    no_call sending sent receiving finished : Closer

  pub data Delivery : Type 0 where
    written : Sink → Block → Delivery
    closed_sink : Sink → Delivery

  -- `shut` says that the channel `closed` is closed. `accepted` and `log` are no fields of the
  -- source: they record what `Write` took and what the sinks were given, in order.
  pub record State : Type 0 where
    pub shut : Bool
    pub runner : Runner
    pub closer : Closer
    pub accepted : List Block
    pub log : List Delivery

  -- `NewBroadcaster`
  abbrev pub new_broadcaster : State
  new_broadcaster = record {
    shut = false;
    runner = selecting;
    closer = no_call;
    accepted = [];
    log = [];
  }

  -- `Write`: the block goes to `run`, if it is in its select
  abbrev pub accept_of : List Sink → Runner → Block → State → Option State
  accept_of sinks selecting b s =
      some (record s { runner = writing b sinks; accepted = s.accepted ++ b ∷ [] })
  accept_of sinks _ b s = none

  unfoldable pub accept : List Sink → Block → State → Option State
  accept sinks b s = accept_of sinks s.runner b s

  abbrev pub refuse_of : Bool → Closer → State → Option State
  refuse_of true k s = some s
  refuse_of false sending s = some (record s { closer = sent })
  refuse_of false _ s = none

  -- `Write` with `ErrSinkClosed`: it receives from `closed`, which is closed, or to which a call of
  -- `Close` sends its channel
  unfoldable pub refuse : State → Option State
  refuse s = refuse_of s.shut s.closer s

  abbrev pub work_of : Runner → State → Option State
  work_of (writing b (k ∷ ks)) s =
      some (record s { runner = writing b ks; log = s.log ++ written k b ∷ [] })
  work_of (writing b []) s = some (record s { runner = selecting })
  work_of (closing (k ∷ ks) a) s =
      some (record s { runner = closing ks a; log = s.log ++ closed_sink k ∷ [] })
  work_of _ s = none

  -- the loops of `run` over the sinks
  unfoldable pub work : State → Option State
  work s = work_of s.runner s

  abbrev pub call_close_of : Bool → Closer → State → Option State
  call_close_of false no_call s = some (record s { closer = sending })
  call_close_of _ _ s = none

  -- `Close` up to its send: if `closed` is closed, it returns an error and nothing changes
  unfoldable pub call_close : State → Option State
  call_close s = call_close_of s.shut s.closer s

  abbrev pub take_close_of : List Sink → Runner → Bool → Closer → State → Option State
  take_close_of sinks selecting true k s = some (record s { runner = closing sinks false })
  take_close_of sinks selecting false sending s =
      some (record s { runner = closing sinks true; closer = sent })
  take_close_of sinks _ _ _ s = none

  -- `run` receives from `closed`
  unfoldable pub take_close : List Sink → State → Option State
  take_close sinks s = take_close_of sinks s.runner s.shut s.closer s

  abbrev pub shut_channel_of : Closer → State → Option State
  shut_channel_of sent s = some (record s { shut = true; closer = receiving })
  shut_channel_of _ s = none

  -- `close(b.closed)`
  unfoldable pub shut_channel : State → Option State
  shut_channel s = shut_channel_of s.closer s

  abbrev pub answer_of : Runner → Closer → State → Option State
  answer_of (closing [] true) receiving s = some (record s { runner = returned; closer = finished })
  answer_of _ _ s = none

  -- `run` answers the call of `Close`, which returns; a send to nil would never end
  unfoldable pub answer : State → Option State
  answer s = answer_of s.runner s.closer s

  pub data Step (sinks : List Sink) (s t : State) : Type 0 where
    accepts : (b : Block) → accept sinks b s ≡ some t → Step sinks s t
    refuses : refuse s ≡ some t → Step sinks s t
    works : work s ≡ some t → Step sinks s t
    calls_close : call_close s ≡ some t → Step sinks s t
    takes_close : take_close sinks s ≡ some t → Step sinks s t
    shuts : shut_channel s ≡ some t → Step sinks s t
    answers : answer s ≡ some t → Step sinks s t

  pub data Reach (sinks : List Sink) (s : State) : State → Type 0 where
    here : Reach sinks s s
    then : {t u : State} → Reach sinks s t → Step sinks t u → Reach sinks s u
