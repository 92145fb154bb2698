-- ===== src/Processor/CompensationConsumer/ExactlyOnce.antt =====
-- What any sequence of batches leaves of the inbox and of the risk profiles.
use rt_financial_anomaly_det.Prelude.{
  ℕ, refl, Bool, true, false, ◌||◌, List, [], ◌∷◌, ◌==◌, if◌then◌else◌,
}
use rt_financial_anomaly_det.Shared.Session.{Result, ok, err}
use rt_financial_anomaly_det.Processor.Messages.{Wire, Consumer, World}
use rt_financial_anomaly_det.Processor.CompensationConsumer.{process_single_message}
use rt_financial_anomaly_det.Processor.CompensationConsumer.Balance.{
  IsConsistent, Balances, Keeps, Keeps-trans, Keeps-same, message-Keeps,
}
use rt_financial_anomaly_det.Processor.CompensationConsumer.Batches.{
  Arrival, Claim, failed, claimed, Batch, read, reclaimed, is_nil, process_messages, process_claims,
  add_pending, process_batch, process_batches,
}

module _ (consumer : Consumer) (wire : Wire) where
  abbrev Changes : World → World → Type 0
  Changes w w' = Keeps consumer.group w.db w'.db

  after_message :
      (r : Result Bool) (w w' : World) (o : Result (Unit {0}) × World)
      → Changes w w'
      → Changes w' o.1
      → Changes w (elim r as (λ x. Result (Unit {0}) × World) [ ok b ↦ o | err e ↦ (err e, w') ]).1
  after_message (ok b) w w' o h k = Keeps-trans consumer.group w.db w'.db o.1.db h k
  after_message (err e) w w' o h k = h

  messages-Keeps :
      (delivery_count : ℕ) (arrivals : List Arrival) (w : World)
      → Changes w (process_messages consumer wire delivery_count arrivals w).1
  unfolding process_messages
  messages-Keeps delivery_count [] w = Keeps-same consumer.group w.db w.db refl refl
  messages-Keeps delivery_count (a ∷ rest) w =
      let (r, w') =
        process_single_message consumer wire a.env a.replies a.message delivery_count w in
      after_message r w w' (process_messages consumer wire delivery_count rest w')
        (message-Keeps consumer wire a.env a.replies a.message delivery_count w)
        (messages-Keeps delivery_count rest w')

  after_page :
      (last : Bool) (r : Result (Unit {0})) (w w' next : World)
      → Changes w w'
      → Changes w' next
      → Changes w (elim r as (λ x. World) [ ok u ↦ if last then w' else next | err e ↦ w' ])
  after_page true (ok u) w w' next h k = h
  after_page false (ok u) w w' next h k = Keeps-trans consumer.group w.db w'.db next.db h k
  after_page last (err e) w w' next h k = h

  claims-Keeps :
      (claims : List Claim) (w : World) → Changes w (process_claims consumer wire claims w)
  unfolding process_claims
  claims-Keeps [] w = Keeps-same consumer.group w.db w.db refl refl
  claims-Keeps (failed ∷ rest) w = Keeps-same consumer.group w.db w.db refl refl
  claims-Keeps (claimed next messages ∷ rest) w =
      let (r, w') = process_messages consumer wire 2 messages w in
      after_page (next == 0 || is_nil messages) r w w' (process_claims consumer wire rest w')
        (messages-Keeps 2 messages w) (claims-Keeps rest w')

  batch-Keeps : (b : Batch) (w : World) → Changes w (process_batch consumer wire b w)
  unfolding process_batch
  batch-Keeps (read arrivals) w = messages-Keeps 1 arrivals (add_pending consumer wire arrivals w)
  batch-Keeps (reclaimed claims) w = claims-Keeps claims w

  -- Whatever the batches of the consumer hold, new messages or reclaimed ones, once or many times,
  -- and whatever fails in between: where a user has one profile at most and an event one row in the
  -- inbox of the group at most, it is so afterwards, and as many false positives were added to the
  -- profiles as rows to the inbox, one for each event that was compensated.
  pub process_batches_once :
      (bs : List Batch) (w : World)
      → IsConsistent consumer.group w.db
      → let db' = (process_batches consumer wire bs w).db in
        IsConsistent consumer.group db' × Balances w.db db'
  unfolding process_batches
  process_batches_once [] w h = Keeps-same consumer.group w.db w.db refl refl h
  process_batches_once (b ∷ rest) w h =
      let w' = process_batch consumer wire b w in
      Keeps-trans consumer.group w.db w'.db (process_batches consumer wire rest w').db
        (batch-Keeps b w) (process_batches_once rest w') h
