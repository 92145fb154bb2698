-- ===== src/Processor/CompensationConsumer.antt =====
-- `CompensationConsumer` of services/processor/consumers/compensation_consumer.py.
pub mod Effects
pub mod Batches
pub mod Balance
pub mod ExactlyOnce
pub mod Requested
use rt_financial_anomaly_det.Prelude.{
  ℕ, ltb, not, Bool, true, false, Option, none, some, if◌then◌else◌, List, [], ◌∷◌,
}
use rt_financial_anomaly_det.Shared.Errors.{value_error, attribute_error}
use rt_financial_anomaly_det.Shared.Json.{Json, uuid, text, time, object, Fields, get}
use rt_financial_anomaly_det.Shared.Models.{Database}
use rt_financial_anomaly_det.Shared.Session.{
  Env, Result, ok, err, Exec, ◌>>=◌, ◌>>◌, pure, raise, commit, in_session,
}
use rt_financial_anomaly_det.Outbox.Publisher.{Delivery}
use rt_financial_anomaly_det.Detection.Values.{truthy}
use rt_financial_anomaly_det.Processor.Pipeline.{write_inbox}
use rt_financial_anomaly_det.Processor.Compensation.{recalculate_user_risk_profile}
use rt_financial_anomaly_det.Processor.Messages.{
  Envelope, Message, Wire, Consumer, World, Replies, envelope_of, acknowledge, identified,
  is_event_processed, handle_dead_letter, first_of,
}

-- this module's `parse_event_envelope`, which reads a third key
unfoldable pub parse_event_envelope : Wire → Fields → Option Envelope
unfolding envelope_of
parse_event_envelope wire fields = envelope_of wire (
    first_of (get "event" fields) (get "envelope" fields)
      (first_of (get "data" fields) none (object fields)))

-- `uuid.UUID(value)`
unfoldable pub parse_uuid : Option Json → Exec ℕ
parse_uuid (some (uuid n)) = pure n
parse_uuid (some (text s)) = raise value_error
parse_uuid (some (time t)) = raise value_error
parse_uuid other = raise attribute_error

-- `uuid.UUID(alert_id) if alert_id else None`
unfoldable pub parse_alert_id : Option Json → Exec (Option ℕ)
unfolding parse_uuid
parse_alert_id v = if truthy v then (parse_uuid v >>= λ n. pure (some n)) else pure none

-- the writes of one event, up to the commit
unfoldable pub compensate : Consumer → Env → ℕ → Fields → Exec Bool
unfolding parse_alert_id recalculate_user_risk_profile write_inbox
compensate consumer env event_id payload = do
  user_id ← parse_uuid (get "user_id" payload)
  alert_id ← parse_alert_id (get "alert_id" payload)
  recalculate_user_risk_profile env.now user_id
  write_inbox event_id consumer.group env.now
  commit env.accepted
  pure true

-- the `try` block: False for an event without a user, and for every exception
unfoldable pub try_compensate : Consumer → Env → ℕ → Fields → Exec Bool
try_compensate consumer env event_id payload s =
    let (r, s') = compensate consumer env event_id payload s in
    if truthy (get "user_id" payload)
    then elim r [ ok b ↦ (ok b, s') | err e ↦ (ok false, record s' { working = s'.committed }) ]
    else (ok false, s)

-- the session: True where the message is to be acknowledged
unfoldable pub compensate_once : Consumer → Env → ℕ → Fields → Exec Bool
compensate_once consumer env event_id payload = do
  seen ← is_event_processed consumer event_id
  if seen then pure true else try_compensate consumer env event_id payload

-- the XACK; what it raises leaves the method, and so does what the inbox check raises
unfoldable pub acknowledge_true :
    Delivery → ℕ → World → Result Bool × Database → Result Bool × World
unfolding acknowledge
acknowledge_true xack message_id w (err e, db) = (err e, record w { db = db })
acknowledge_true xack message_id w (ok false, db) = (ok false, record w { db = db })
acknowledge_true xack message_id w (ok true, db) =
    let (r, w') = acknowledge xack message_id (record w { db = db }) in
    (elim r [ ok u' ↦ ok true | err e ↦ err e ], w')

unfoldable pub process_identified :
    Consumer
    → Wire
    → Env
    → Replies
    → Message
    → ℕ
    → World
    → Option (ℕ × Envelope)
    → Result Bool × World
unfolding acknowledge_true compensate_once
process_identified consumer wire env replies m delivery_count w none =
    handle_dead_letter consumer (parse_event_envelope wire) env replies m
      (wire.corrupt_message m.fields) delivery_count w
process_identified consumer wire env replies m delivery_count w (some (event_id, envelope)) =
    acknowledge_true replies.xack m.message_id w
      (in_session (compensate_once consumer env event_id envelope.payload) w.db)

unfoldable pub process_single_message :
    Consumer → Wire → Env → Replies → Message → ℕ → World → Result Bool × World
unfolding process_identified
process_single_message consumer wire env replies m delivery_count w =
    if ltb consumer.max_deliveries delivery_count
    then handle_dead_letter consumer (parse_event_envelope wire) env replies m
        (wire.exceeded_message delivery_count consumer.max_deliveries) delivery_count w
    else process_identified consumer wire env replies m delivery_count w
        (identified (parse_event_envelope wire m.fields))
