-- ===== src/Notifications/Broadcaster/Given.antt =====
-- What the sinks of a `Broadcaster` are to be given, in order.
use container_registry.Prelude.{
  List, [], ◌∷◌, ◌++◌, append_assoc, append-nil, ◌≡◌, refl, sym, ap, ◌∙◌,
}
use container_registry.Notifications.Broadcaster.{
  Runner, selecting, writing, closing, returned, Delivery, written, closed_sink,
}

module _ (Sink Block : Type 0) (sinks : List Sink) where
  -- A block written to some of the sinks, and every block to all of them.
  abbrev pub block_to : List Sink → Block → List (Delivery Sink Block)
  block_to [] b = []
  block_to (k ∷ ks) b = written k b ∷ block_to ks b

  abbrev pub all_to : List Block → List (Delivery Sink Block)
  all_to [] = []
  all_to (b ∷ bs) = block_to sinks b ++ all_to bs

  abbrev pub all_closed : List Sink → List (Delivery Sink Block)
  all_closed [] = []
  all_closed (k ∷ ks) = closed_sink k ∷ all_closed ks

  pub block_to-snoc :
      (ks : List Sink) (k : Sink) (b : Block)
      → block_to (ks ++ k ∷ []) b ≡ block_to ks b ++ written k b ∷ []
  block_to-snoc [] k b = refl
  block_to-snoc (j ∷ ks) k b = ap (λ ds. written j b ∷ ds) (block_to-snoc ks k b)

  pub all_closed-snoc :
      (ks : List Sink) (k : Sink) → all_closed (ks ++ k ∷ []) ≡ all_closed ks ++ closed_sink k ∷ []
  all_closed-snoc [] k = refl
  all_closed-snoc (j ∷ ks) k = ap (λ ds. closed_sink j ∷ ds) (all_closed-snoc ks k)

  pub all_to-snoc :
      (bs : List Block) (b : Block) → all_to (bs ++ b ∷ []) ≡ all_to bs ++ block_to sinks b
  all_to-snoc [] b = append-nil (block_to sinks b)
  all_to-snoc (x ∷ bs) b =
      ap (λ ds. block_to sinks x ++ ds) (all_to-snoc bs b)
      ∙ sym (append_assoc (block_to sinks x) (all_to bs) (block_to sinks b))

  -- Where `run` stands, what the sinks were given: each block that was accepted, to each sink and in
  -- order, of the last one a first part while it is written; the sinks are closed behind all that.
  abbrev pub IsGiven : Runner Sink Block → List Block → List (Delivery Sink Block) → Type 0
  IsGiven selecting bs log = log ≡ all_to bs
  IsGiven (writing b ks) bs log =
      (before : List Block) × ((past : List Sink) × (bs ≡ before ++ b ∷ [])
        × (sinks ≡ past ++ ks)
        × (log ≡ all_to before ++ block_to past b))
  IsGiven (closing ks a) bs log =
      (past : List Sink) × (sinks ≡ past ++ ks) × (log ≡ all_to bs ++ all_closed past)
  IsGiven returned bs log = log ≡ all_to bs ++ all_closed sinks
