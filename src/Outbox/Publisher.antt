-- ===== src/Outbox/Publisher.antt =====
-- `OutboxPublisher` of services/outbox_publisher/publisher.py and the envelope of
-- shared/events/envelope.py. Redis is the list of the entries that were added to its streams, and
-- what an XADD does is chosen by its surroundings.
pub mod Invariant
pub mod Progress
pub mod Spending
pub mod Drain
use rt_financial_anomaly_det.Prelude.{
  ℕ, suc, ◌+◌, String, Bool, true, false, ◌&&◌, not, Option, none, some, List, [], ◌∷◌, ◌++◌, ◌==◌,
  leb, if◌then◌else◌, take, length, select, update, order_by,
}
use rt_financial_anomaly_det.Shared.Enums.{OutboxStatus, published, dead_lettered, is_pending}
use rt_financial_anomaly_det.Shared.Json.{object, Fields, has_key, set_key}
use rt_financial_anomaly_det.Shared.Models.{OutboxEvent, DeadLetterEvent, Database}
use rt_financial_anomaly_det.Shared.Session.{
  Env, Result, ok, err, Exec, ◌>>=◌, ◌>>◌, pure, query, execute, commit, in_session,
}
use rt_financial_anomaly_det.Outbox.Routing.{get_stream_for_event_type}

-- `EventEnvelope`
pub record EventEnvelope : Type 0 where
  pub event_id : ℕ
  pub correlation_id : ℕ
  pub event_type : String
  pub event_version : String
  pub occurred_at : ℕ
  pub producer_service : String
  pub payload : Fields

-- one entry of a stream
pub record Entry : Type 0 where
  pub stream : String
  pub event : EventEnvelope

abbrev pub Redis : Type 0
Redis = List Entry

-- An XADD adds its entry and answers, fails, or adds its entry and loses the answer.
pub data Delivery : Type 0 where
  delivered refused answer_lost : Delivery

pub record Settings : Type 0 where
  pub batch_size : ℕ
  pub max_retries : ℕ

-- the WHERE clause of `poll_pending_events`; rows that another replica holds are skipped
abbrev pub is_polled : (ℕ → Bool) → OutboxEvent → Bool
is_polled locked e = is_pending e.status && not (locked e.id)

unfoldable pub poll_pending_events : ℕ → (ℕ → Bool) → Database → List OutboxEvent
poll_pending_events batch_size locked db =
    take batch_size (order_by (λ e. e.created_at) (select (is_polled locked) db.outbox_events))

-- the payload with the trace context that is injected where it has none
unfoldable pub payload_data : Fields → Fields → Fields
payload_data carrier payload =
    if has_key "_trace_context" payload
    then payload
    else set_key "_trace_context" (object carrier) payload

unfoldable pub entry_of : Fields → OutboxEvent → Entry
unfolding payload_data
entry_of carrier event = record {
  stream = get_stream_for_event_type event.event_type;
  event = record {
    event_id = event.id;
    correlation_id = event.correlation_id;
    event_type = event.event_type;
    event_version = event.event_version;
    occurred_at = event.created_at;
    producer_service = event.producer_service;
    payload = payload_data carrier event.payload;
  };
}

-- `publish_event`: whether it returned, and the streams
unfoldable pub publish_event : Fields → Delivery → OutboxEvent → Redis → Bool × Redis
publish_event carrier delivered event redis = (true, redis ++ entry_of carrier event ∷ [])
publish_event carrier refused event redis = (false, redis)
publish_event carrier answer_lost event redis = (false, redis ++ entry_of carrier event ∷ [])

abbrev pub has_event_id : ℕ → OutboxEvent → Bool
has_event_id id e = e.id == id

-- assignments to the loaded event, flushed as an UPDATE by its primary key
abbrev pub flush : ℕ → (OutboxEvent → OutboxEvent) → Database → Database
flush id change db = record db { outbox_events = update (has_event_id id) change db.outbox_events }

abbrev pub mark_published : ℕ → OutboxEvent → OutboxEvent
mark_published now e = record e { status = published; published_at = some now }

abbrev pub mark_retried : ℕ → OutboxEvent → OutboxEvent
mark_retried count e = record e { retry_count = count }

abbrev pub mark_dead : ℕ → OutboxEvent → OutboxEvent
mark_dead count e = record e { retry_count = count; status = dead_lettered }

unfoldable pub dead_letter : Env → ℕ → String → OutboxEvent → DeadLetterEvent
dead_letter env place error event = record {
  id = env.uuid4 place;
  original_event_id = event.id;
  event_type = event.event_type;
  payload = event.payload;
  error_message = error;
  retry_count = event.retry_count + 1;
  stream_name = get_stream_for_event_type event.event_type;
  consumer_group = none;
  created_at = env.now;
}

-- `handle_publish_failure`
unfoldable pub handle_publish_failure :
    Settings → Env → ℕ → String → OutboxEvent → Database → Database
handle_publish_failure settings env place error event db =
    if leb settings.max_retries (event.retry_count + 1)
    then (let db' = flush event.id (mark_dead (event.retry_count + 1)) db in
        record db' { dead_letters = db.dead_letters ++ dead_letter env place error event ∷ [] })
    else flush event.id (mark_retried (event.retry_count + 1)) db

-- the outcome of `publish_event` written to the session
unfoldable pub settle : Settings → Env → ℕ → String → OutboxEvent → Bool → Database → Database
unfolding handle_publish_failure
settle settings env place error event true db = flush event.id (mark_published env.now) db
settle settings env place error event false db =
    handle_publish_failure settings env place error event db

-- one round of the loop of `publish_batch`
unfoldable pub publish_one :
    Settings
    → Env
    → Fields
    → (ℕ → Delivery)
    → String
    → ℕ
    → OutboxEvent
    → Redis × Database
    → Redis × Database
unfolding publish_event settle
publish_one settings env carrier deliver error place event (redis, db) =
    let (done, redis') = publish_event carrier (deliver event.id) event redis in
    (redis', settle settings env place error event done db)

unfoldable pub publish_all :
    Settings
    → Env
    → Fields
    → (ℕ → Delivery)
    → String
    → ℕ
    → List OutboxEvent
    → Redis × Database
    → Redis × Database
unfolding publish_one
publish_all settings env carrier deliver error place [] state = state
publish_all settings env carrier deliver error place (event ∷ rest) state =
    publish_all settings env carrier deliver error (suc place) rest
      (publish_one settings env carrier deliver error place event state)

-- the commit that ends `publish_batch`; the streams stay as they are if it is refused
unfoldable pub commit_batch : Bool → ℕ → Redis → Database → Database → Result ℕ × Redis × Database
commit_batch accepted processed redis changed db =
    let (r, db') = in_session (execute (λ _. changed) >> (commit accepted >> pure processed)) db in
    (r, redis, db')

-- `publish_batch`: the number of events that it returns, or the error of its commit, with the
-- streams and the database afterwards. `deliver` is what each event's XADD does, `error` the text
-- of a failure.
unfoldable pub publish_batch :
    Settings
    → Env
    → Fields
    → (ℕ → Delivery)
    → String
    → (ℕ → Bool)
    → Redis
    → Database
    → Result ℕ × Redis × Database
unfolding publish_all poll_pending_events commit_batch
publish_batch settings env carrier deliver error locked redis db =
    let events = poll_pending_events settings.batch_size locked db in
    let (redis', changed) = publish_all settings env carrier deliver error 0 events (redis, db) in
    if length events == 0
    then (ok 0, redis, db)
    else commit_batch env.accepted (length events) redis' changed db
