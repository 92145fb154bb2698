-- ===== src/Tests/OfProcessor.antt =====
-- The theorems on the detection pipeline and the consumers.
use rt_financial_anomaly_det.Processor.Context.{
  parse_context, is_valid_context, get_risk_profile_snapshot, created_at_of, uuid_of, amount_of,
  str_or, metadata_of, snapshot_of, get_velocity_context, in_window, total_amount, add_decimal,
}
use rt_financial_anomaly_det.Shared.Json.{get}
use rt_financial_anomaly_det.Detection.Values.{
  decimal_of, is_none, or_else, truthy, at_least, int_of, more_than,
}
use rt_financial_anomaly_det.Processor.Pipeline.{
  decide, write_decision, write_alert, write_inbox, upsert_profile,
}
use rt_financial_anomaly_det.Detection.Demo.{override}
use rt_financial_anomaly_det.Detection.Rules.{
  evaluate_rules, eval_amount_threshold, wrong_currency, match_of, is_inclusive, eval_velocity,
  velocity_reasons, count_reason, amount_reason, match_reasons, evaluate_rule, eval_by_type,
}
use rt_financial_anomaly_det.Detection.Scoring.{
  compute_detection_decision, compute_composite_risk_score, calculate_rule_severity_score, quantize,
  severity_value_of, has_critical_rule, is_critical, determine_alert_severity, threshold_triggered,
  user_risk_score_of, decision_reasons, risk_snapshot_dict,
}
use rt_financial_anomaly_det.Prelude.{select, update}
use rt_financial_anomaly_det.Prelude.{
  ℕ, suc, ◌+◌, ◌≤◌, ◌≡◌, ◌⊎◌, refl, Bool, true, false, Option, none, some, List, [], ◌∷◌, arith,
  any,
}
use rt_financial_anomaly_det.Shared.Enums.{low, severity_value}
use rt_financial_anomaly_det.Shared.Errors.{database_error}
use rt_financial_anomaly_det.Shared.Json.{Json, Fields, number, text, uuid, time, dict, end}
use rt_financial_anomaly_det.Shared.Models.{ProcessedEvent}
use rt_financial_anomaly_det.Shared.Session.{Env, Result, ok, err, in_session}
use rt_financial_anomaly_det.Outbox.Publisher.{delivered, refused}
use rt_financial_anomaly_det.Detection.Schemas.{DetectionResult}
use rt_financial_anomaly_det.Detection.Demo.{null_demo_strategy}
use rt_financial_anomaly_det.Processor.Pipeline.{Pipeline, Event, process_transaction_event}
use rt_financial_anomaly_det.Processor.Pipeline.Effects.{
  Writes, Decided, outcome, process_transaction_event_atomic, process_transaction_event-Writes,
}
use rt_financial_anomaly_det.Processor.Messages.{
  Envelope, Message, Wire, Consumer, World, Replies, drop_pending,
}
use rt_financial_anomaly_det.Processor.TransactionConsumer
use rt_financial_anomaly_det.Processor.TransactionConsumer.Acknowledged.{
  Settles, process_single_message-Settles,
}
use rt_financial_anomaly_det.Processor.TransactionConsumer.Redelivery.{
  process_single_message_redelivered,
}
use rt_financial_anomaly_det.Processor.TransactionConsumer.Batches.{
  Arrival, read, reclaimed, process_batches, OneAlert, process_batches-OneAlert,
}
use rt_financial_anomaly_det.Tests.Data.{ops, env_at, database, uuid_at}
use rt_financial_anomaly_det.Tests.OfDetection.{amount, weights, rules}

abbrev pipeline : Pipeline
pipeline = record {
  ops = ops;
  get_active_rules = λ db. rules;
  score = λ t v. 9000;
  demo_strategy = null_demo_strategy;
  scoring_weights = weights;
  velocity_window_minutes = 10;
  consumer_group = "processor-group";
}

abbrev payload : Fields
payload = dict (
    ("transaction_id", uuid 3)
    ∷ ("user_id", uuid 7)
    ∷ ("amount", number (amount 150000))
    ∷ ("currency", text "USD")
    ∷ ("country", text "XX")
    ∷ ("merchant_category", text "grocery")
    ∷ ("created_at", time 90)
    ∷ [])

abbrev event : Event
event = record { event_id = some 41; correlation_id = some 5; payload = payload }

abbrev refusing : Env
refusing = record { now = 200; uuid4 = uuid_at; accepted = false }

abbrev default_result : DetectionResult
default_result = record {
  should_alert = false;
  severity = low;
  composite_risk_score = 0;
  rule_severity_score = 0;
  ml_anomaly_score = 0;
  user_risk_score = 0;
  rule_matches = [];
  risk_profile_snapshot = end;
  is_demo = false;
  explanation = none;
}

abbrev value : Result DetectionResult → DetectionResult
value (ok d) = d
value (err e) = default_result

abbrev result : DetectionResult
result = value (outcome pipeline (env_at 200) end event database).0

refused_run : (outcome pipeline refusing end event database).0 ≡ err database_error
unfolding process_transaction_event parse_context is_valid_context get_risk_profile_snapshot
    created_at_of uuid_of amount_of str_or metadata_of snapshot_of get_velocity_context in_window
    total_amount add_decimal get decimal_of is_none or_else truthy at_least int_of more_than decide
    write_decision write_alert write_inbox upsert_profile override evaluate_rules
    eval_amount_threshold wrong_currency match_of is_inclusive eval_velocity velocity_reasons
    count_reason amount_reason match_reasons evaluate_rule eval_by_type compute_detection_decision
    compute_composite_risk_score calculate_rule_severity_score quantize severity_value_of
    has_critical_rule is_critical determine_alert_severity threshold_triggered user_risk_score_of
    decision_reasons risk_snapshot_dict select update severity_value
refused_run = refl

accepted_run : (outcome pipeline (env_at 200) end event database).0 ≡ ok result
unfolding process_transaction_event parse_context is_valid_context get_risk_profile_snapshot
    created_at_of uuid_of amount_of str_or metadata_of snapshot_of get_velocity_context in_window
    total_amount add_decimal get decimal_of is_none or_else truthy at_least int_of more_than decide
    write_decision write_alert write_inbox upsert_profile override evaluate_rules
    eval_amount_threshold wrong_currency match_of is_inclusive eval_velocity velocity_reasons
    count_reason amount_reason match_reasons evaluate_rule eval_by_type compute_detection_decision
    compute_composite_risk_score calculate_rule_severity_score quantize severity_value_of
    has_critical_rule is_critical determine_alert_severity threshold_triggered user_risk_score_of
    decision_reasons risk_snapshot_dict select update severity_value
accepted_run = refl

process_transaction_event_atomic_example :
    (in_session (process_transaction_event pipeline refusing end event) database).1 ≡ database
process_transaction_event_atomic_example =
    process_transaction_event_atomic pipeline refusing end event database database_error refused_run

process_transaction_event-Writes_example :
    (x : Decided pipeline (env_at 200) event database) × (result ≡ x.d)
    × Writes
        (env_at 200)
        end
        "processor-group"
        x.event_id
        x.t
        x.d
        x.corr
        database
        (outcome pipeline (env_at 200) end event database).1
process_transaction_event-Writes_example =
    process_transaction_event-Writes pipeline (env_at 200) end event database result accepted_run

abbrev envelope : Envelope
envelope = record {
  event_id = some 41;
  correlation_id = some 5;
  event_type = "transaction.created";
  payload = payload;
}

abbrev wire : Wire
wire = record {
  from_json = λ s. some envelope;
  from_dict = λ v. none;
  exceeded_message = λ count limit. "exceeded";
  corrupt_message = λ fields. "corrupt";
}

abbrev consumer : Consumer
consumer = record {
  group = "processor-group";
  stream_key = "stream:transactions";
  unknown_type = "unknown.transaction";
  max_deliveries = 5;
}

abbrev message : Message
message = record { message_id = 61; fields = dict (("event", text "{}") ∷ []) }

abbrev replies : Replies
replies = record { xack = delivered; xadd = refused }

abbrev world : World
world = record { db = database; pending = 60 ∷ 61 ∷ []; dead_letter_stream = [] }

process_single_message-Settles_example :
    Settles consumer pipeline wire
      (env_at 200)
      end
      replies
      message
      1
      world
      (TransactionConsumer.process_single_message consumer pipeline wire
        (env_at 200)
        end
        replies
        message
        1
        world).1
process_single_message-Settles_example =
    process_single_message-Settles consumer pipeline wire (env_at 200) end replies message 1 world
      refl

abbrev arrival : Arrival
arrival = record { message = message; env = env_at 200; carrier = end; replies = replies }

process_batches-OneAlert_example : OneAlert consumer pipeline wire (
    process_batches consumer pipeline wire
      (read (arrival ∷ arrival ∷ []) ∷ reclaimed (arrival ∷ []) ∷ [])
      world)
process_batches-OneAlert_example =
    process_batches-OneAlert consumer pipeline wire refl
      (read (arrival ∷ arrival ∷ []) ∷ reclaimed (arrival ∷ []) ∷ []) world
      (((λ e. omega arith), tt), (tt, tt))

abbrev inbox_row : ProcessedEvent
inbox_row = record { event_id = 41; consumer_group = "processor-group"; processed_at = 150 }

abbrev seen_world : World
seen_world = record world { db = record database { processed_events = inbox_row ∷ [] } }

process_single_message_redelivered_example :
    let after =
      TransactionConsumer.process_single_message consumer pipeline wire
        (env_at 200)
        end
        replies
        message
        2
        seen_world in
    (after.1.db ≡ seen_world.db)
    × (replies.xack ≡ delivered → after ≡ (ok true, drop_pending 61 seen_world))
unfolding rt_financial_anomaly_det.Processor.Messages.identified
    rt_financial_anomaly_det.Processor.Messages.parse_event_envelope
    rt_financial_anomaly_det.Shared.Json.get rt_financial_anomaly_det.Prelude.select
process_single_message_redelivered_example =
    process_single_message_redelivered consumer pipeline wire (env_at 200) end replies message 2
      seen_world 41 envelope inbox_row refl refl refl
