-- ===== src/Gateway/Notifications/AtLeastOnce.antt =====
-- What becomes of the pending entries in the batches and the reclaimed pages of
-- `NotificationForwarder`.
use rt_financial_anomaly_det.Prelude.{
  ◌≡◌, ◌⊎◌, inl, inr, Bool, true, false, ◌||◌, List, [], ◌∷◌, ◌++◌, map, ◌==◌, Some,
  Some-append_left, Some-append_right, if◌then◌else◌,
}
use rt_financial_anomaly_det.Shared.Json.{Fields}
use rt_financial_anomaly_det.Shared.Session.{Result, ok, err}
use rt_financial_anomaly_det.Detection.Values.{TextOps}
use rt_financial_anomaly_det.Gateway.Notifications.{Reader, Entry, World, process_stream_message}
use rt_financial_anomaly_det.Gateway.Notifications.Relay.{
  Arrival, entry_of, Claim, failed, claimed, Batch, read, reclaimed, has_data, any_data, is_nil,
  concat, process_messages, process_streams, process_claims, add_pending, process_batch,
  process_batches,
}
use rt_financial_anomaly_det.Gateway.Notifications.Settled.{
  IsPending, IsSettled, Relays, Relays-none, Relays-then, Relays-before, Relays-skip,
  process_stream_message-Relays,
}

module _ (reader : Reader) (ops : TextOps) where
  Relays-choice :
      (a : Arrival) (rest : List Arrival) (stopped wants : Bool) (r : Result (Unit {0}))
      (w w' : World) (continued skipped : Result (Unit {0}) × World)
      → Relays reader ops (a ∷ []) w w'
      → Relays reader ops rest w' continued.1
      → Relays reader ops rest w skipped.1
      → Relays reader ops
          (a ∷ rest)
          w
          (if stopped
            then (ok tt, w)
            else if wants
            then elim r [ ok u ↦ continued | err e ↦ (err e, w') ]
            else skipped).1
  Relays-choice a rest true wants r w w' continued skipped one more past =
      Relays-none reader ops (a ∷ rest) w
  Relays-choice a rest false true (ok u) w w' continued skipped one more past =
      Relays-then reader ops (a ∷ []) rest w w' continued.1 one more
  Relays-choice a rest false true (err e) w w' continued skipped one more past =
      Relays-before reader ops (a ∷ []) rest w w' one
  Relays-choice a rest false false r w w' continued skipped one more past =
      Relays-skip reader ops a rest w skipped.1 past

  process_messages-Relays :
      (wanted : Fields → Bool) (arrivals : List Arrival) (w : World)
      → Relays reader ops arrivals w (process_messages reader ops wanted arrivals w).1
  unfolding process_messages
  process_messages-Relays wanted [] w = Relays-none reader ops [] w
  process_messages-Relays wanted (a ∷ rest) w =
      let (r, w') = process_stream_message reader ops a.now a.replies a.stream a.message w in
      Relays-choice a rest a.shutting_down (wanted a.message.fields) r w w'
        (process_messages reader ops wanted rest w') (process_messages reader ops wanted rest w)
        (process_stream_message-Relays reader ops a w) (process_messages-Relays wanted rest w')
        (process_messages-Relays wanted rest w)

  Relays-result :
      (ds es : List Arrival) (r : Result (Unit {0})) (w w' w'' : World)
      → Relays reader ops ds w w'
      → Relays reader ops es w' w''
      → Relays reader ops (ds ++ es) w (elim r [ ok u ↦ w'' | err e ↦ w' ])
  Relays-result ds es (ok u) w w' w'' one more = Relays-then reader ops ds es w w' w'' one more
  Relays-result ds es (err e) w w' w'' one more = Relays-before reader ops ds es w w' one

  process_streams-Relays :
      (streams : List (List Arrival)) (w : World)
      → Relays reader ops (concat streams) w (process_streams reader ops streams w)
  unfolding process_streams
  process_streams-Relays [] w = Relays-none reader ops [] w
  process_streams-Relays (arrivals ∷ rest) w =
      let (r, w') = process_messages reader ops any_data arrivals w in
      Relays-result arrivals (concat rest) r w w' (process_streams reader ops rest w')
        (process_messages-Relays any_data arrivals w) (process_streams-Relays rest w')

  abbrev pub claim_deliveries : List Claim → List Arrival
  claim_deliveries [] = []
  claim_deliveries (failed ∷ rest) = claim_deliveries rest
  claim_deliveries (claimed next_start_id arrivals ∷ rest) = arrivals ++ claim_deliveries rest

  Relays-last :
      (ds : List Arrival) (last : Bool) (w' w'' : World)
      → Relays reader ops ds w' w''
      → Relays reader ops ds w' (if last then w' else w'')
  Relays-last ds true w' w'' r = Relays-none reader ops ds w'
  Relays-last ds false w' w'' r = r

  process_claims-Relays :
      (claims : List Claim) (w : World)
      → Relays reader ops (claim_deliveries claims) w (process_claims reader ops claims w)
  unfolding process_claims
  process_claims-Relays [] w = Relays-none reader ops [] w
  process_claims-Relays (failed ∷ rest) w = Relays-none reader ops (claim_deliveries rest) w
  process_claims-Relays (claimed next_start_id arrivals ∷ rest) w =
      let (r, w') = process_messages reader ops has_data arrivals w in
      let w'' = process_claims reader ops rest w' in
      let last = next_start_id == 0 || is_nil arrivals in
      Relays-result arrivals (claim_deliveries rest) r w w' (if last then w' else w'')
        (process_messages-Relays has_data arrivals w)
        (Relays-last (claim_deliveries rest) last w' w'' (process_claims-Relays rest w'))

  abbrev pub deliveries : List Batch → List Arrival
  deliveries [] = []
  deliveries (read streams ∷ rest) = concat streams ++ deliveries rest
  deliveries (reclaimed claims ∷ rest) = claim_deliveries claims ++ deliveries rest

  abbrev pub read_entries : List Batch → List Entry
  read_entries [] = []
  read_entries (read streams ∷ rest) = map entry_of (concat streams) ++ read_entries rest
  read_entries (reclaimed claims ∷ rest) = read_entries rest

  -- an entry that is added is pending
  Relays-add :
      (es : List Entry) (ds : List Arrival) (w w' : World)
      → Relays reader ops ds (record w { pending = w.pending ++ es }) w'
      → Relays reader ops ds w w'
  Relays-add es ds w w' (more, keep) = (more, λ k h. keep k (Some-append_left _ w.pending es h))

  process_batches-Relays :
      (bs : List Batch) (w : World)
      → Relays reader ops (deliveries bs) w (process_batches reader ops bs w)
  unfolding process_batches process_batch
  process_batches-Relays [] w = Relays-none reader ops [] w
  process_batches-Relays (read streams ∷ rest) w =
      let w' = process_batch reader ops (read streams) w in
      Relays-then reader ops (concat streams) (deliveries rest) w w'
        (process_batches reader ops rest w')
        (Relays-add (map entry_of (concat streams)) (concat streams) w w'
          (process_streams-Relays streams (add_pending reader ops (concat streams) w)))
        (process_batches-Relays rest w')
  process_batches-Relays (reclaimed claims ∷ rest) w =
      let w' = process_batch reader ops (reclaimed claims) w in
      Relays-then reader ops (claim_deliveries claims) (deliveries rest) w w'
        (process_batches reader ops rest w') (process_claims-Relays claims w)
        (process_batches-Relays rest w')

  Some-split :
      {A : Type 0} (P : A → Type 0) (xs ys : List A) → Some P (xs ++ ys) → Some P xs ⊎ Some P ys
  Some-split P [] ys s = inr s
  Some-split P (x ∷ xs) ys (inl p) = inl (inl p)
  Some-split P (x ∷ xs) ys (inr s) = elim (Some-split P xs ys s) [
    | inl s' ↦ inl (inr s')
    | inr s' ↦ inr s'
  ]

  abbrev pub PendingOrSettled : Entry → List Batch → World → Type 0
  PendingOrSettled k bs w' =
      IsPending k w'.pending
      ⊎ Some (λ (a : Arrival). (entry_of a ≡ k) × IsSettled reader ops a w'.published)
          (deliveries bs)

  read-PendingOrSettled :
      (bs : List Batch) (w : World) (k : Entry)
      → IsPending k (read_entries bs)
      → PendingOrSettled k bs (process_batches reader ops bs w)
  unfolding process_batches process_batch
  read-PendingOrSettled [] w k s = elim s [ ]
  read-PendingOrSettled (read streams ∷ rest) w k s =
      let es = map entry_of (concat streams) in
      let w' = process_batch reader ops (read streams) w in
      elim (Some-split _ es (read_entries rest) s) [
        | inl now ↦
            (Relays-then reader ops (concat streams) (deliveries rest)
                (add_pending reader ops (concat streams) w) w' (process_batches reader ops rest w')
                (process_streams-Relays streams (add_pending reader ops (concat streams) w))
                (process_batches-Relays rest w')).1
              k (Some-append_right _ w.pending es now)
        | inr later ↦ elim (read-PendingOrSettled rest w' k later) [
          | inl h ↦ inl h
          | inr h ↦ inr (Some-append_right _ (concat streams) (deliveries rest) h)
        ]
      ]
  read-PendingOrSettled (reclaimed claims ∷ rest) w k s =
      elim (read-PendingOrSettled rest (process_batch reader ops (reclaimed claims) w) k s) [
        | inl h ↦ inl h
        | inr h ↦ inr (Some-append_right _ (claim_deliveries claims) (deliveries rest) h)
      ]

  -- No event is lost on its way to the channel: whatever batches and reclaimed pages the forwarder
  -- works off, whatever Redis does to each PUBLISH and XACK and wherever a shutdown or an exception
  -- cuts in, an entry that was pending or is read is pending afterwards, or a delivery of it could
  -- not be read as an event or has its notification among the published ones.
  pub process_batches-PendingOrSettled :
      (bs : List Batch) (w : World) (k : Entry)
      → IsPending k w.pending ⊎ IsPending k (read_entries bs)
      → PendingOrSettled k bs (process_batches reader ops bs w)
  process_batches-PendingOrSettled bs w k (inl h) = (process_batches-Relays bs w).1 k h
  process_batches-PendingOrSettled bs w k (inr h) = read-PendingOrSettled bs w k h
