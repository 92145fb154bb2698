-- ===== src/Processor/Messages.antt =====
-- What the consumers of services/processor/consumers share: the messages of a Redis stream and
-- their envelope, the pending list of a consumer group, the inbox check, and the dead letters.
-- Parsing by pydantic and the texts of errors are the fields of `Wire`.
use rt_financial_anomaly_det.Prelude.{
  ℕ, String, Bool, true, false, not, Option, none, some, List, [], ◌∷◌, ◌++◌, ◌==◌, select,
}
use rt_financial_anomaly_det.Shared.Errors.{redis_error}
use rt_financial_anomaly_det.Shared.Json.{Json, uuid, time, text, object, Fields, get}
use rt_financial_anomaly_det.Shared.Models.{DeadLetterEvent, Database}
use rt_financial_anomaly_det.Shared.Session.{
  Env, Result, ok, err, Exec, ◌>>=◌, ◌>>◌, pure, query, execute, commit, scalar_one_or_none,
  in_session,
}
use rt_financial_anomaly_det.Outbox.Publisher.{Delivery, delivered, refused, answer_lost}
use rt_financial_anomaly_det.Processor.Pipeline.{is_inbox_row}

-- An `EventEnvelope` as a consumer reads it; an id that is no UUID is none. The payload is a dict, as
-- the producers write it; the class itself admits any JSON value.
pub record Envelope : Type 0 where
  pub event_id : Option ℕ
  pub correlation_id : Option ℕ
  pub event_type : String
  pub payload : Fields

-- a message of a stream, by its id
pub record Message : Type 0 where
  pub message_id : ℕ
  pub fields : Fields

-- `EventEnvelope.from_json` and `from_dict`, where none is an exception, and the error messages
pub record Wire : Type 0 where
  pub from_json : String → Option Envelope
  pub from_dict : Json → Option Envelope
  pub exceeded_message : ℕ → ℕ → String
  pub corrupt_message : Fields → String

-- a consumer: its group, its stream, and the type it records for a message that it cannot read
pub record Consumer : Type 0 where
  pub group : String
  pub stream_key : String
  pub unknown_type : String
  pub max_deliveries : ℕ

pub record DeadLetterEntry : Type 0 where
  pub message_id : ℕ
  pub error : String
  pub fields : Fields

-- The database, the group's pending entries, and the stream of dead letters.
pub record World : Type 0 where
  pub db : Database
  pub pending : List ℕ
  pub dead_letter_stream : List DeadLetterEntry

-- what the XACK and the XADD of one message do
pub record Replies : Type 0 where
  pub xack : Delivery
  pub xadd : Delivery

-- a raw value under one of the keys
unfoldable pub envelope_of : Wire → Json → Option Envelope
envelope_of wire (text s) = wire.from_json s
envelope_of wire (uuid n) = none
envelope_of wire (time n) = none
envelope_of wire raw = wire.from_dict raw

abbrev pub first_of : Option Json → Option Json → Json → Json
first_of (some raw) other default = raw
first_of none (some raw) default = raw
first_of none none default = default

unfoldable pub parse_event_envelope : Wire → Fields → Option Envelope
unfolding envelope_of
parse_event_envelope wire fields =
    envelope_of wire (first_of (get "event" fields) (get "envelope" fields) (object fields))

abbrev pub drop_pending : ℕ → World → World
drop_pending message_id w = record w { pending = select (λ p. not (p == message_id)) w.pending }

-- `redis_client.xack`
unfoldable pub acknowledge : Delivery → ℕ → World → Result (Unit {0}) × World
acknowledge delivered message_id w = (ok tt, drop_pending message_id w)
acknowledge refused message_id w = (err redis_error, w)
acknowledge answer_lost message_id w = (err redis_error, drop_pending message_id w)

-- `result.scalar_one_or_none() is not None`
abbrev pub is_some : {A : Type 0} → Option A → Bool
is_some none = false
is_some (some a) = true

unfoldable pub is_event_processed : Consumer → ℕ → Exec Bool
is_event_processed consumer event_id = do
  rows ← query (λ db. select (is_inbox_row event_id consumer.group) db.processed_events)
  row ← scalar_one_or_none rows
  pure (is_some row)

-- the envelope and its id, where both can be read
unfoldable pub identified : Option Envelope → Option (ℕ × Envelope)
identified none = none
identified (some envelope) = elim envelope.event_id [ none ↦ none | some id ↦ some (id, envelope) ]

-- the dead letter row; `uuid4 2` is the event id of a message that cannot be read
unfoldable pub dead_letter_row :
    Consumer → Env → Option (ℕ × Envelope) → Fields → String → ℕ → DeadLetterEvent
dead_letter_row consumer env (some (id, envelope)) fields error delivery_count = record {
  id = env.uuid4 0;
  original_event_id = id;
  event_type = envelope.event_type;
  payload = envelope.payload;
  error_message = error;
  retry_count = delivery_count;
  stream_name = consumer.stream_key;
  consumer_group = some consumer.group;
  created_at = env.now;
}
dead_letter_row consumer env none fields error delivery_count = record {
  id = env.uuid4 0;
  original_event_id = env.uuid4 2;
  event_type = consumer.unknown_type;
  payload = fields;
  error_message = error;
  retry_count = delivery_count;
  stream_name = consumer.stream_key;
  consumer_group = some consumer.group;
  created_at = env.now;
}

-- the XADD to the stream of dead letters; its failure is ignored
unfoldable pub add_dead_letter_entry : Delivery → DeadLetterEntry → World → World
add_dead_letter_entry refused entry w = w
add_dead_letter_entry delivered entry w = record w {
  dead_letter_stream = w.dead_letter_stream ++ entry ∷ [];
}
add_dead_letter_entry answer_lost entry w = record w {
  dead_letter_stream = w.dead_letter_stream ++ entry ∷ [];
}

-- after the session of the dead letter
unfoldable pub finish_dead_letter :
    Replies → Message → String → World → Result (Unit {0}) × Database → Result Bool × World
unfolding acknowledge add_dead_letter_entry
finish_dead_letter replies m error w (err e, db) = (err e, record w { db = db })
finish_dead_letter replies m error w (ok u, db) =
    let w' =
      add_dead_letter_entry replies.xadd
        (record { message_id = m.message_id; error = error; fields = m.fields })
        (record w { db = db }) in
    let (r, w'') = acknowledge replies.xack m.message_id w' in
    (elim r [ ok u' ↦ ok true | err e ↦ err e ], w'')

-- `handle_dead_letter`, and the True that the caller returns after it; `parse` is the consumer's
-- own `parse_event_envelope`
unfoldable pub handle_dead_letter :
    Consumer
    → (Fields → Option Envelope)
    → Env
    → Replies
    → Message
    → String
    → ℕ
    → World
    → Result Bool × World
unfolding finish_dead_letter dead_letter_row
handle_dead_letter consumer parse env replies m error delivery_count w =
    let row =
      dead_letter_row consumer env (identified (parse m.fields)) m.fields error delivery_count in
    finish_dead_letter replies m error w (
      in_session
        (execute (λ db. record db { dead_letters = db.dead_letters ++ row ∷ [] })
          >> commit env.accepted)
        w.db)
