-- ===== src/Notifications/Ignored.antt =====
-- `ignoredSink` of notifications/sinks.go: events are dropped by media type and by action.
use container_registry.Prelude.{
  true, not, ◌&&◌, if◌then◌else◌, List, [], ◌∷◌, ◌++◌, String, ◌≡◌, ◌≢◌, refl, sym, ap, arith,
  Bool-cases, inl, inr, append_assoc, append-nil, ◌∙◌, string_eq,
}
use container_registry.Prelude.Sets.{
  contains, insert_all, contains_of_In, In-of_contains, In-insert_all, In-insert_all_new,
}

-- The fields of an event that the sinks look at, and an identity.
pub record Event : Type 0 where
  pub id : String
  pub media_type : String
  pub action : String

-- What `Write` of a sink comes to: it forwards a block to the wrapped sink, or returns nil at once.
pub data Written : Type 0 where
  forwarded : List Event → Written
  dropped : Written

-- A sink that forwards everything, or an `ignoredSink` with its two maps.
pub data Sink : Type 0 where
  plain : Sink
  ignoring : List String → List String → Sink

-- `newIgnoredSink(sink, ignored, ignoreActions)`
unfoldable pub new_ignored_sink : List String → List String → Sink
new_ignored_sink [] actions = plain
new_ignored_sink (m ∷ ms) actions = ignoring (insert_all (m ∷ ms) []) (insert_all actions [])

-- the two filtering loops
unfoldable pub keep_types : List String → List Event → List Event → List Event
keep_types ignored [] kept = kept
keep_types ignored (e ∷ es) kept =
    keep_types ignored es (if not (contains ignored e.media_type) then kept ++ e ∷ [] else kept)

unfoldable pub keep_actions : List String → List Event → List Event → List Event
keep_actions ignored [] kept = kept
keep_actions ignored (e ∷ es) kept =
    keep_actions ignored es (if not (contains ignored e.action) then kept ++ e ∷ [] else kept)

abbrev pub forward : List Event → Written
forward [] = dropped
forward (e ∷ es) = forwarded (e ∷ es)

abbrev write_kept : List String → List Event → Written
write_kept actions [] = dropped
write_kept actions (e ∷ es) = forward (keep_actions actions (e ∷ es) [])

unfoldable pub write : Sink → List Event → Written
write plain events = forwarded events
write (ignoring types actions) events = write_kept actions (keep_types types events [])

-- The events whose media type and action are in neither list, in order.
pub accepted : List String → List String → List Event → List Event
accepted types actions [] = []
accepted types actions (e ∷ es) =
    let rest = accepted types actions es in
    if not (contains types e.media_type) && not (contains actions e.action) then e ∷ rest else rest

by_types : List String → List Event → List Event
by_types ts [] = []
by_types ts (e ∷ es) =
    let rest = by_types ts es in if not (contains ts e.media_type) then e ∷ rest else rest

by_actions : List String → List Event → List Event
by_actions ts [] = []
by_actions ts (e ∷ es) =
    let rest = by_actions ts es in if not (contains ts e.action) then e ∷ rest else rest

keep_types-append :
    (ts : List String) (es kept : List Event) → keep_types ts es kept ≡ kept ++ by_types ts es
unfolding keep_types by_types
keep_types-append ts [] kept = sym (append-nil kept)
keep_types-append ts (e ∷ es) kept = elim (Bool-cases (contains ts e.media_type)) [
  | inl gone ↦ rw gone (keep_types-append ts es kept)
  | inr stays ↦
      rw stays
        (keep_types-append ts es (kept ++ e ∷ []) ∙ append_assoc kept (e ∷ []) (by_types ts es))
]

keep_actions-append :
    (ts : List String) (es kept : List Event) → keep_actions ts es kept ≡ kept ++ by_actions ts es
unfolding keep_actions by_actions
keep_actions-append ts [] kept = sym (append-nil kept)
keep_actions-append ts (e ∷ es) kept = elim (Bool-cases (contains ts e.action)) [
  | inl gone ↦ rw gone (keep_actions-append ts es kept)
  | inr stays ↦
      rw stays
        (keep_actions-append ts es (kept ++ e ∷ []) ∙ append_assoc kept (e ∷ []) (by_actions ts es))
]

contains-insert_all :
    (xs : List String) (x : String) → contains (insert_all xs []) x ≡ contains xs x
contains-insert_all xs x = elim (Bool-cases (contains xs x)) [
  | inl there_it_is ↦
      contains_of_In (In-insert_all_new xs [] (In-of_contains x xs there_it_is)) ∙ sym there_it_is
  | inr not_there ↦ elim (Bool-cases (contains (insert_all xs []) x)) [
    | inl h ↦ elim (In-insert_all xs [] (In-of_contains x (insert_all xs []) h)) [
      | inl i ↦ cc (contains_of_In i)
      | inr n ↦ elim n [ ]
    ]
    | inr h ↦ h ∙ sym not_there
  ]
]

by_both :
    (types actions : List String) (es : List Event)
    → by_actions (insert_all actions []) (by_types (insert_all types []) es)
      ≡ accepted types actions es
unfolding by_actions by_types accepted
by_both types actions [] = refl
by_both types actions (e ∷ es) = ground (
  arith,
  by_both types actions es,
  contains-insert_all types e.media_type,
  contains-insert_all actions e.action,
)

write_kept-forward :
    (actions : List String) (kept : List Event)
    → write_kept actions kept ≡ forward (by_actions actions kept)
write_kept-forward actions [] = unfold by_actions in refl
write_kept-forward actions (e ∷ es) = rw keep_actions-append

-- With at least one ignored media type, exactly the events with neither an ignored media type nor
-- an ignored action are forwarded, in order and in one block, and nothing is if none are left.
pub write-ignoring :
    (types actions : List String) (events : List Event)
    → types ≢ []
    → write (new_ignored_sink types actions) events ≡ forward (accepted types actions events)
unfolding write new_ignored_sink
write-ignoring [] actions events h = absurd (h refl)
write-ignoring (m ∷ ms) actions events h =
    rw (keep_types-append, write_kept-forward) (ap forward (by_both (m ∷ ms) actions events))

-- With no ignored media type the ignored actions are not looked at: a block of one event with an
-- ignored action is not handled as the filter says.
pub ignored_actions_lost :
    (actions : List String) (e : Event)
    → contains actions e.action ≡ true
    → write (new_ignored_sink [] actions) (e ∷ []) ≢ forward (accepted [] actions (e ∷ []))
unfolding write new_ignored_sink accepted contains
ignored_actions_lost actions e h p = ground (arith, h, p)
