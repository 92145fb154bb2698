-- ===== src/Processor/TransactionConsumer.antt =====
-- `TransactionConsumer` of services/processor/consumers/transaction_consumer.py.
pub mod Session
pub mod Acknowledged
pub mod Redelivery
pub mod Batches
use rt_financial_anomaly_det.Prelude.{
  ℕ, ltb, Bool, true, false, Option, none, some, if◌then◌else◌, List, [], ◌∷◌,
}
use rt_financial_anomaly_det.Shared.Json.{Fields}
use rt_financial_anomaly_det.Shared.Models.{Database}
use rt_financial_anomaly_det.Shared.Session.{
  Env, Result, ok, err, Exec, ◌>>=◌, ◌>>◌, pure, in_session,
}
use rt_financial_anomaly_det.Outbox.Publisher.{Delivery}
use rt_financial_anomaly_det.Processor.Pipeline.{Pipeline, Event, process_transaction_event}
use rt_financial_anomaly_det.Processor.Messages.{
  Envelope, Message, Wire, Consumer, World, Replies, parse_event_envelope, acknowledge, identified,
  is_event_processed, handle_dead_letter,
}

abbrev pub event_of : ℕ → Envelope → Event
event_of event_id envelope = record {
  event_id = some event_id;
  correlation_id = envelope.correlation_id;
  payload = envelope.payload;
}

-- the session: the inbox check, and the pipeline for an event that is not in the inbox
unfoldable pub consume_event : Consumer → Pipeline → Env → Fields → ℕ → Envelope → Exec (Unit {0})
consume_event consumer pipeline env carrier event_id envelope = do
  seen ← is_event_processed consumer event_id
  if seen
      then pure tt
      else process_transaction_event pipeline env carrier (event_of event_id envelope) >> pure tt

-- the XACK after the session; every exception is answered by False
unfoldable pub acknowledge_or_keep :
    Delivery → ℕ → World → Result (Unit {0}) × Database → Result Bool × World
unfolding acknowledge
acknowledge_or_keep xack message_id w (err e, db) = (ok false, record w { db = db })
acknowledge_or_keep xack message_id w (ok u, db) =
    let (r, w') = acknowledge xack message_id (record w { db = db }) in
    (elim r [ ok u' ↦ ok true | err e ↦ ok false ], w')

unfoldable pub process_identified :
    Consumer
    → Pipeline
    → Wire
    → Env
    → Fields
    → Replies
    → Message
    → ℕ
    → World
    → Option (ℕ × Envelope)
    → Result Bool × World
process_identified consumer pipeline wire env carrier replies m delivery_count w none =
    handle_dead_letter consumer (parse_event_envelope wire) env replies m
      (wire.corrupt_message m.fields) delivery_count w
process_identified consumer pipeline wire env carrier replies m delivery_count w
      (some (event_id, envelope)) =
    acknowledge_or_keep replies.xack m.message_id w
      (in_session (consume_event consumer pipeline env carrier event_id envelope) w.db)

unfoldable pub process_single_message :
    Consumer → Pipeline → Wire → Env → Fields → Replies → Message → ℕ → World → Result Bool × World
unfolding process_identified
process_single_message consumer pipeline wire env carrier replies m delivery_count w =
    if ltb consumer.max_deliveries delivery_count
    then handle_dead_letter consumer (parse_event_envelope wire) env replies m
        (wire.exceeded_message delivery_count consumer.max_deliveries) delivery_count w
    else process_identified consumer pipeline wire env carrier replies m delivery_count w
        (identified (parse_event_envelope wire m.fields))
