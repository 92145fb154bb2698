-- ===== src/Processor/TransactionConsumer/Batches.antt =====
-- The batches of `run_consumer_loop` (XREADGROUP) and `run_autoclaim_loop` (XAUTOCLAIM) of
-- services/processor/consumers/transaction_consumer.py, one after the other. What each message of a
-- batch meets is part of the batch; the waiting between batches is left out.
use rt_financial_anomaly_det.Prelude.{ℕ, ◌≡◌, Bool, List, [], ◌∷◌, ◌++◌, map}
use rt_financial_anomaly_det.Prelude.Keys.{Distinct}
use rt_financial_anomaly_det.Shared.Json.{Fields}
use rt_financial_anomaly_det.Shared.Models.{Alert}
use rt_financial_anomaly_det.Shared.Session.{Env, Result, ok, err}
use rt_financial_anomaly_det.Processor.Pipeline.{Pipeline}
use rt_financial_anomaly_det.Processor.Messages.{Message, Wire, Consumer, World, Replies}
use rt_financial_anomaly_det.Processor.TransactionConsumer.{process_single_message}
use rt_financial_anomaly_det.Processor.TransactionConsumer.Redelivery.{
  process_single_message_one_alert,
}

-- a message with what its processing takes from its surroundings
pub record Arrival : Type 0 where
  pub message : Message
  pub env : Env
  pub carrier : Fields
  pub replies : Replies

-- new messages that XREADGROUP delivers, or pending ones that XAUTOCLAIM hands over
pub data Batch : Type 0 where
  read reclaimed : List Arrival → Batch

module _ (consumer : Consumer) (pipeline : Pipeline) (wire : Wire) where
  -- the loop over a batch, which an exception ends
  unfoldable pub process_messages : ℕ → List Arrival → World → World
  process_messages delivery_count [] w = w
  process_messages delivery_count (a ∷ rest) w =
      let (r, w') =
        process_single_message consumer pipeline wire a.env a.carrier a.replies a.message
          delivery_count w in
      let continued = process_messages delivery_count rest w' in
      elim r [ ok b ↦ continued | err e ↦ w' ]

  abbrev add_pending : List Arrival → World → World
  add_pending arrivals w = record w {
    pending = w.pending ++ map (λ (a : Arrival). a.message.message_id) arrivals;
  }

  unfoldable pub process_batch : Batch → World → World
  unfolding process_messages
  process_batch (read arrivals) w = process_messages 1 arrivals (add_pending arrivals w)
  process_batch (reclaimed arrivals) w = process_messages 2 arrivals w

  unfoldable pub process_batches : List Batch → World → World
  unfolding process_batch
  process_batches [] w = w
  process_batches (b ∷ rest) w = process_batches rest (process_batch b w)

  abbrev pub OneAlert : World → Type 0
  OneAlert w = Distinct (λ (a : Alert). a.transaction_id) w.db.alerts

  one_of_result :
      (r : Result Bool) (w w' : World)
      → OneAlert w
      → OneAlert w'
      → OneAlert (elim r [ ok b ↦ w | err e ↦ w' ])
  one_of_result (ok b) w w' h h' = h
  one_of_result (err e) w w' h h' = h'

  module _ (same : pipeline.consumer_group ≡ consumer.group) where
    process_messages-OneAlert :
        (delivery_count : ℕ) (arrivals : List Arrival) (w : World)
        → OneAlert w
        → OneAlert (process_messages delivery_count arrivals w)
    unfolding process_messages
    process_messages-OneAlert delivery_count [] w h = h
    process_messages-OneAlert delivery_count (a ∷ rest) w h =
        let (r, w') =
          process_single_message consumer pipeline wire a.env a.carrier a.replies a.message
            delivery_count w in
        let one =
          process_single_message_one_alert consumer pipeline wire a.env a.carrier a.replies
            a.message delivery_count w same h in
        one_of_result r (process_messages delivery_count rest w') w'
          (process_messages-OneAlert delivery_count rest w' one) one

    process_batch-OneAlert : (b : Batch) (w : World) → OneAlert w → OneAlert (process_batch b w)
    unfolding process_batch
    process_batch-OneAlert (read arrivals) w h =
        process_messages-OneAlert 1 arrivals (add_pending arrivals w) h
    process_batch-OneAlert (reclaimed arrivals) w h = process_messages-OneAlert 2 arrivals w h

    -- Where the pipeline and the consumer have the same group: whatever messages the batches of a
    -- consumer hold, new or reclaimed, once or many times, and whatever fails in between, there is
    -- at most one alert for each transaction after them if there was before them.
    pub process_batches-OneAlert :
        (bs : List Batch) (w : World) → OneAlert w → OneAlert (process_batches bs w)
    unfolding process_batches
    process_batches-OneAlert [] w h = h
    process_batches-OneAlert (b ∷ rest) w h =
        process_batches-OneAlert rest (process_batch b w) (process_batch-OneAlert b w h)
