-- ===== src/Notifications/Broadcaster/Complete.antt =====
-- What the sinks of a `Broadcaster` are given.
use container_registry.Prelude.{
  Bool, true, false, List, [], ◌∷◌, ◌++◌, append_assoc, append-nil, some, ◌≡◌, refl, sym, ap, ◌∙◌,
  subst, some-subst,
}
use container_registry.Notifications.Broadcaster.{
  Runner, selecting, writing, closing, returned, Closer, no_call, sending, sent, receiving,
  finished, written, closed_sink, State, new_broadcaster, accept, accept_of, refuse, refuse_of,
  work, work_of, call_close, call_close_of, take_close, take_close_of, shut_channel,
  shut_channel_of, answer, answer_of, Step, accepts, refuses, works, calls_close, takes_close,
  shuts, answers, Reach, here, then,
}
use container_registry.Notifications.Broadcaster.Given.{
  block_to, all_to, all_closed, block_to-snoc, all_closed-snoc, all_to-snoc, IsGiven,
}

module _ (Sink Block : Type 0) (sinks : List Sink) where
  abbrev IsRight : State Sink Block → Type 0
  IsRight s =
      IsGiven Sink Block sinks s.runner s.accepted s.log
      × (s.closer ≡ finished → s.runner ≡ returned)

  work-IsRight :
      (r : Runner Sink Block) (s : State Sink Block) {t : State Sink Block}
      → work_of Sink Block r s ≡ some t
      → IsGiven Sink Block sinks r s.accepted s.log
      → (s.closer ≡ finished → r ≡ returned)
      → IsRight t
  work-IsRight selecting s h g f = cc h
  work-IsRight (writing b (k ∷ ks)) s h (before, (past, bs, parts, log)) f = some-subst IsRight h (
    (
      before,
      (
        past ++ k ∷ [],
        bs,
        parts ∙ sym (append_assoc past (k ∷ []) ks),
        ap (λ ds. ds ++ written k b ∷ []) log
            ∙ (append_assoc (all_to Sink Block sinks before) (block_to Sink Block sinks past b)
                  (written k b ∷ [])
                ∙ ap (λ ds. all_to Sink Block sinks before ++ ds)
                    (sym (block_to-snoc Sink Block sinks past k b))),
      ),
    ),
    λ e. cc (f e),
  )
  work-IsRight (writing b []) s h (before, (past, bs, parts, log)) f =
      let whole : past ≡ sinks = sym (parts ∙ append-nil past) in
      some-subst IsRight h (
        log
            ∙ (ap (λ ks. all_to Sink Block sinks before ++ block_to Sink Block sinks ks b) whole
                ∙ (sym (all_to-snoc Sink Block sinks before b)
                    ∙ ap (all_to Sink Block sinks) (sym bs))),
        λ e. cc (f e),
      )
  work-IsRight (closing (k ∷ ks) a) s h (past, parts, log) f = some-subst IsRight h (
    (
      past ++ k ∷ [],
      parts ∙ sym (append_assoc past (k ∷ []) ks),
      ap (λ ds. ds ++ closed_sink k ∷ []) log
          ∙ (append_assoc (all_to Sink Block sinks s.accepted) (all_closed Sink Block sinks past)
                (closed_sink k ∷ [])
              ∙ ap (λ ds. all_to Sink Block sinks s.accepted ++ ds)
                  (sym (all_closed-snoc Sink Block sinks past k))),
    ),
    λ e. cc (f e),
  )
  work-IsRight (closing [] a) s h g f = cc h
  work-IsRight returned s h g f = cc h

  accept-IsRight :
      (r : Runner Sink Block) (b : Block) (s : State Sink Block) {t : State Sink Block}
      → accept_of Sink Block sinks r b s ≡ some t
      → IsGiven Sink Block sinks r s.accepted s.log
      → (s.closer ≡ finished → r ≡ returned)
      → IsRight t
  accept-IsRight selecting b s h g f = some-subst IsRight h (
    (s.accepted, ([], refl, refl, g ∙ sym (append-nil (all_to Sink Block sinks s.accepted)))),
    λ e. cc (f e),
  )
  accept-IsRight (writing x ks) b s h g f = cc h
  accept-IsRight (closing ks a) b s h g f = cc h
  accept-IsRight returned b s h g f = cc h

  take_close-IsRight :
      (r : Runner Sink Block) (shut : Bool) (k : Closer Sink Block) (s : State Sink Block)
      {t : State Sink Block}
      → take_close_of Sink Block sinks r shut k s ≡ some t
      → IsGiven Sink Block sinks r s.accepted s.log
      → (s.closer ≡ finished → r ≡ returned)
      → IsRight t
  take_close-IsRight selecting true k s h g f =
      some-subst IsRight h
        (([], refl, g ∙ sym (append-nil (all_to Sink Block sinks s.accepted))), λ e. cc (f e))
  take_close-IsRight selecting false sending s h g f =
      some-subst IsRight h
        (([], refl, g ∙ sym (append-nil (all_to Sink Block sinks s.accepted))), λ e. cc e)
  take_close-IsRight selecting false no_call s h g f = cc h
  take_close-IsRight selecting false sent s h g f = cc h
  take_close-IsRight selecting false receiving s h g f = cc h
  take_close-IsRight selecting false finished s h g f = cc h
  take_close-IsRight (writing b ks) shut k s h g f = cc h
  take_close-IsRight (closing ks a) shut k s h g f = cc h
  take_close-IsRight returned shut k s h g f = cc h

  refuse-IsRight :
      (shut : Bool) (k : Closer Sink Block) (s : State Sink Block) {t : State Sink Block}
      → refuse_of Sink Block shut k s ≡ some t
      → IsRight s
      → IsRight t
  refuse-IsRight true k s h p = some-subst IsRight h p
  refuse-IsRight false sending s h (g, f) = some-subst IsRight h (g, λ e. cc e)
  refuse-IsRight false no_call s h p = cc h
  refuse-IsRight false sent s h p = cc h
  refuse-IsRight false receiving s h p = cc h
  refuse-IsRight false finished s h p = cc h

  call_close-IsRight :
      (shut : Bool) (k : Closer Sink Block) (s : State Sink Block) {t : State Sink Block}
      → call_close_of Sink Block shut k s ≡ some t
      → IsGiven Sink Block sinks s.runner s.accepted s.log
      → IsRight t
  call_close-IsRight true k s h g = cc h
  call_close-IsRight false no_call s h g = some-subst IsRight h (g, λ e. cc e)
  call_close-IsRight false sending s h g = cc h
  call_close-IsRight false sent s h g = cc h
  call_close-IsRight false receiving s h g = cc h
  call_close-IsRight false finished s h g = cc h

  shut_channel-IsRight :
      (k : Closer Sink Block) (s : State Sink Block) {t : State Sink Block}
      → shut_channel_of Sink Block k s ≡ some t
      → IsGiven Sink Block sinks s.runner s.accepted s.log
      → IsRight t
  shut_channel-IsRight sent s h g = some-subst IsRight h (g, λ e. cc e)
  shut_channel-IsRight no_call s h g = cc h
  shut_channel-IsRight sending s h g = cc h
  shut_channel-IsRight receiving s h g = cc h
  shut_channel-IsRight finished s h g = cc h

  answer-IsRight :
      (r : Runner Sink Block) (k : Closer Sink Block) (s : State Sink Block) {t : State Sink Block}
      → answer_of Sink Block r k s ≡ some t
      → IsGiven Sink Block sinks r s.accepted s.log
      → IsRight t
  answer-IsRight (closing [] true) receiving s h (past, parts, log) = some-subst IsRight h (
    log
        ∙ ap (λ ks. all_to Sink Block sinks s.accepted ++ all_closed Sink Block sinks ks)
            (sym (parts ∙ append-nil past)),
    λ e. refl,
  )
  answer-IsRight (closing [] true) no_call s h g = cc h
  answer-IsRight (closing [] true) sending s h g = cc h
  answer-IsRight (closing [] true) sent s h g = cc h
  answer-IsRight (closing [] true) finished s h g = cc h
  answer-IsRight (closing [] false) k s h g = cc h
  answer-IsRight (closing (x ∷ ks) a) k s h g = cc h
  answer-IsRight selecting k s h g = cc h
  answer-IsRight (writing b ks) k s h g = cc h
  answer-IsRight returned k s h g = cc h

  Step-IsRight : (s t : State Sink Block) → Step Sink Block sinks s t → IsRight s → IsRight t
  unfolding accept refuse work call_close take_close shut_channel answer
  Step-IsRight s t (accepts b e) (g, f) = accept-IsRight s.runner b s e g f
  Step-IsRight s t (refuses e) p = refuse-IsRight s.shut s.closer s e p
  Step-IsRight s t (works e) (g, f) = work-IsRight s.runner s e g f
  Step-IsRight s t (calls_close e) (g, f) = call_close-IsRight s.shut s.closer s e g
  Step-IsRight s t (takes_close e) (g, f) = take_close-IsRight s.runner s.shut s.closer s e g f
  Step-IsRight s t (shuts e) (g, f) = shut_channel-IsRight s.closer s e g
  Step-IsRight s t (answers e) (g, f) = answer-IsRight s.runner s.closer s e g

  Reach-IsRight : {s t : State Sink Block} → Reach Sink Block sinks s t → IsRight s → IsRight t
  Reach-IsRight here p = p
  Reach-IsRight (then {t} {u} r step) p = Step-IsRight t u step (Reach-IsRight r p)

  -- In every state that a new broadcaster reaches, each sink was given the accepted blocks in order
  -- and each once, but for the sinks that the last block is still to be written to; they are closed
  -- only behind all blocks, and all are once `Close` has returned without an error.
  pub broadcast_in_order :
      {s : State Sink Block}
      → Reach Sink Block sinks (new_broadcaster Sink Block) s
      → IsGiven Sink Block sinks s.runner s.accepted s.log
        × (s.closer ≡ finished
            → s.log ≡ all_to Sink Block sinks s.accepted ++ all_closed Sink Block sinks sinks)
  broadcast_in_order {s} r =
      let (given, ends) = Reach-IsRight r (refl, λ e. cc e) in
      (given, λ e. subst (λ r. IsGiven Sink Block sinks r s.accepted s.log) (ends e) given)
