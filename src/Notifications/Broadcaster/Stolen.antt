-- ===== src/Notifications/Broadcaster/Stolen.antt =====
-- A `Write` that receives the channel which `Close` sends to `run`.
use container_registry.Prelude.{
  Bool, true, false, List, [], ◌∷◌, some, ◌≡◌, ◌≢◌, refl, sym, some-subst, false≢true,
}
use container_registry.Notifications.Broadcaster.{
  Runner, selecting, writing, closing, returned, Closer, no_call, sending, sent, receiving,
  finished, State, accept, accept_of, refuse, refuse_of, work, work_of, call_close, call_close_of,
  take_close, take_close_of, shut_channel, shut_channel_of, answer, answer_of, Step, accepts,
  refuses, works, calls_close, takes_close, shuts, answers, Reach, here, then,
}

module _ (Sink Block : Type 0) where
  -- `run` has no channel of a call of `Close`.
  abbrev IsUncalled : Runner Sink Block → Type 0
  IsUncalled selecting = Unit
  IsUncalled (writing b ks) = Unit
  IsUncalled (closing ks a) = a ≡ false
  IsUncalled returned = true ≡ false

  abbrev IsSent : Closer Sink Block → Type 0
  IsSent sent = Unit
  IsSent receiving = Unit
  IsSent _ = true ≡ false

  -- The channel of the call is sent, and `run` does not have it.
  abbrev IsStolen : State Sink Block → Type 0
  IsStolen s = IsUncalled s.runner × IsSent s.closer

  accept-IsStolen :
      (sinks : List Sink) (r : Runner Sink Block) (b : Block) (s : State Sink Block)
      {t : State Sink Block}
      → accept_of Sink Block sinks r b s ≡ some t
      → IsSent s.closer
      → IsStolen t
  accept-IsStolen sinks selecting b s h c = some-subst IsStolen h (tt, c)
  accept-IsStolen sinks (writing x ks) b s h c = cc h
  accept-IsStolen sinks (closing ks a) b s h c = cc h
  accept-IsStolen sinks returned b s h c = cc h

  refuse-IsStolen :
      (shut : Bool) (k : Closer Sink Block) (s : State Sink Block) {t : State Sink Block}
      → refuse_of Sink Block shut k s ≡ some t
      → IsSent k
      → IsStolen s
      → IsStolen t
  refuse-IsStolen true k s h c p = some-subst IsStolen h p
  refuse-IsStolen false no_call s h c p = cc c
  refuse-IsStolen false sending s h c p = cc c
  refuse-IsStolen false sent s h c p = cc h
  refuse-IsStolen false receiving s h c p = cc h
  refuse-IsStolen false finished s h c p = cc c

  work-IsStolen :
      (r : Runner Sink Block) (s : State Sink Block) {t : State Sink Block}
      → work_of Sink Block r s ≡ some t
      → IsUncalled r
      → IsSent s.closer
      → IsStolen t
  work-IsStolen selecting s h u c = cc h
  work-IsStolen (writing b (k ∷ ks)) s h u c = some-subst IsStolen h (tt, c)
  work-IsStolen (writing b []) s h u c = some-subst IsStolen h (tt, c)
  work-IsStolen (closing (k ∷ ks) a) s h u c = some-subst IsStolen h (u, c)
  work-IsStolen (closing [] a) s h u c = cc h
  work-IsStolen returned s h u c = cc h

  call_close-IsStolen :
      (shut : Bool) (k : Closer Sink Block) (s : State Sink Block) {t : State Sink Block}
      → call_close_of Sink Block shut k s ≡ some t
      → IsSent k
      → IsStolen t
  call_close-IsStolen true k s h c = cc h
  call_close-IsStolen false no_call s h c = cc c
  call_close-IsStolen false sending s h c = cc c
  call_close-IsStolen false sent s h c = cc h
  call_close-IsStolen false receiving s h c = cc h
  call_close-IsStolen false finished s h c = cc c

  take_close-IsStolen :
      (sinks : List Sink) (r : Runner Sink Block) (shut : Bool) (k : Closer Sink Block)
      (s : State Sink Block) {t : State Sink Block}
      → take_close_of Sink Block sinks r shut k s ≡ some t
      → IsSent k
      → IsSent s.closer
      → IsStolen t
  take_close-IsStolen sinks selecting true k s h c c' = some-subst IsStolen h (refl, c')
  take_close-IsStolen sinks selecting false no_call s h c c' = cc c
  take_close-IsStolen sinks selecting false sending s h c c' = cc c
  take_close-IsStolen sinks selecting false sent s h c c' = cc h
  take_close-IsStolen sinks selecting false receiving s h c c' = cc h
  take_close-IsStolen sinks selecting false finished s h c c' = cc c
  take_close-IsStolen sinks (writing b ks) shut k s h c c' = cc h
  take_close-IsStolen sinks (closing ks a) shut k s h c c' = cc h
  take_close-IsStolen sinks returned shut k s h c c' = cc h

  shut_channel-IsStolen :
      (k : Closer Sink Block) (s : State Sink Block) {t : State Sink Block}
      → shut_channel_of Sink Block k s ≡ some t
      → IsUncalled s.runner
      → IsStolen t
  shut_channel-IsStolen sent s h u = some-subst IsStolen h (u, tt)
  shut_channel-IsStolen no_call s h u = cc h
  shut_channel-IsStolen sending s h u = cc h
  shut_channel-IsStolen receiving s h u = cc h
  shut_channel-IsStolen finished s h u = cc h

  never_answered :
      (r : Runner Sink Block) (k : Closer Sink Block) (s : State Sink Block) {t : State Sink Block}
      → answer_of Sink Block r k s ≡ some t
      → IsUncalled r
      → IsStolen t
  never_answered (closing [] true) k s h u = cc u
  never_answered (closing [] false) k s h u = cc h
  never_answered (closing (x ∷ ks) a) k s h u = cc h
  never_answered selecting k s h u = cc h
  never_answered (writing b ks) k s h u = cc h
  never_answered returned k s h u = cc h

  Step-IsStolen :
      (sinks : List Sink) (s t : State Sink Block)
      → Step Sink Block sinks s t
      → IsStolen s
      → IsStolen t
  unfolding accept refuse work call_close take_close shut_channel answer
  Step-IsStolen sinks s t (accepts b e) (u, c) = accept-IsStolen sinks s.runner b s e c
  Step-IsStolen sinks s t (refuses e) (u, c) = refuse-IsStolen s.shut s.closer s e c (u, c)
  Step-IsStolen sinks s t (works e) (u, c) = work-IsStolen s.runner s e u c
  Step-IsStolen sinks s t (calls_close e) (u, c) = call_close-IsStolen s.shut s.closer s e c
  Step-IsStolen sinks s t (takes_close e) (u, c) =
      take_close-IsStolen sinks s.runner s.shut s.closer s e c c
  Step-IsStolen sinks s t (shuts e) (u, c) = shut_channel-IsStolen s.closer s e u
  Step-IsStolen sinks s t (answers e) (u, c) = never_answered s.runner s.closer s e u

  Reach-IsStolen :
      (sinks : List Sink) {s t : State Sink Block}
      → Reach Sink Block sinks s t
      → IsStolen s
      → IsStolen t
  Reach-IsStolen sinks here p = p
  Reach-IsStolen sinks (then {t} {u} r step) p =
      Step-IsStolen sinks t u step (Reach-IsStolen sinks r p)

  sent_unfinished : (k : Closer Sink Block) → IsSent k → k ≢ finished
  sent_unfinished finished c e = absurd (false≢true (sym c))
  sent_unfinished no_call c e = cc e
  sent_unfinished sending c e = cc e
  sent_unfinished sent c e = cc e
  sent_unfinished receiving c e = cc e

  -- While a call of `Close` sends its channel and `run` is in its select, a `Write` can receive the
  -- channel and return `ErrSinkClosed`; then, whatever happens, the call of `Close` never returns.
  pub stolen_never_finishes :
      (sinks : List Sink) (s : State Sink Block)
      → s.shut ≡ false
      → s.closer ≡ sending
      → s.runner ≡ selecting
      → (t : State Sink Block) × (refuse Sink Block s ≡ some t)
        × ((u : State Sink Block) → Reach Sink Block sinks t u → u.closer ≢ finished)
  unfolding refuse
  stolen_never_finishes sinks s unshut calls selects = (
    record s { closer = sent },
    rw (unshut, calls) refl,
    λ u r. sent_unfinished u.closer (Reach-IsStolen sinks r (rw selects tt, tt)).1,
  )
