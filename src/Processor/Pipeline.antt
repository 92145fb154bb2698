-- ===== src/Processor/Pipeline.antt =====
-- `DetectionPipeline.process_transaction_event` of
-- services/processor/services/detection_pipeline.py. The rule cache, the model, the demo strategy
-- and the weights that the pipeline is built with are the fields of `Pipeline`.
use rt_financial_anomaly_det.Prelude.{
  ℕ, ◌+◌, String, Bool, true, false, not, ◌&&◌, Option, none, some, List, [], ◌∷◌, ◌++◌, ◌==◌,
  if◌then◌else◌, any, select, update, str_eq,
}
use rt_financial_anomaly_det.Shared.Enums.{processed, AlertStatus, severity_value, status_value}
use rt_financial_anomaly_det.Shared.Errors.{database_error, value_error}
use rt_financial_anomaly_det.Shared.Events.{event_alert_created}
use rt_financial_anomaly_det.Shared.Json.{
  Decimal, Json, null, flag, number, text, uuid, time, array, object, Items, nil, cons, Fields,
  dict,
}
use rt_financial_anomaly_det.Shared.Models.{
  Transaction, Alert, OutboxEvent, RiskProfile, ProcessedEvent, Database,
}
use rt_financial_anomaly_det.Shared.Session.{
  Env, Exec, ◌>>=◌, ◌>>◌, pure, require, or_raise, query, execute, commit, scalar_one_or_none,
}
use rt_financial_anomaly_det.Detection.Schemas.{
  TransactionContext, VelocityContext, RuleDefinition, RuleMatch, Explanation, VelocityReason,
  count_reached, amount_reached, amount_exceeds, country_listed, velocity_exceeded, risk_reached,
  category_listed, demo_forced, ScoringWeights, Reason, critical_rule, over_threshold,
  demo_scenario, DetectionResult,
}
use rt_financial_anomaly_det.Detection.Values.{TextOps}
use rt_financial_anomaly_det.Detection.Rules.{evaluate_rules}
use rt_financial_anomaly_det.Detection.Scoring.{compute_detection_decision}
use rt_financial_anomaly_det.Detection.Demo.{DemoOverrideStrategy, override}
use rt_financial_anomaly_det.Alerts.Actions.{pending_event, add_outbox}
use rt_financial_anomaly_det.Processor.Context.{
  parse_context, get_velocity_context, get_risk_profile_snapshot, has_user,
}
pub mod Effects

pub record Pipeline : Type 0 where
  pub ops : TextOps
  -- `rule_cache.get_active_rules`
  pub get_active_rules : Database → List RuleDefinition
  -- `ml_detector.score`
  pub score : TransactionContext → VelocityContext → ℕ
  pub demo_strategy : DemoOverrideStrategy
  pub scoring_weights : ScoringWeights
  pub velocity_window_minutes : ℕ
  pub consumer_group : String

-- What the pipeline reads of the event's envelope; a text that is no UUID is none.
pub record Event : Type 0 where
  pub event_id : Option ℕ
  pub correlation_id : Option ℕ
  pub payload : Fields

abbrev pub score_json : ℕ → Json
score_json n = number (record { negative = false; coefficient = n; scale = 4 })

-- The texts that explain a match or a decision, by what they are made of.
unfoldable pub reasons_json : List VelocityReason → Items
reasons_json [] = nil
reasons_json (count_reached n limit ∷ rest) =
    cons
      (array (
        cons (number (record { negative = false; coefficient = n; scale = 0 }))
          (cons (number limit) nil)))
      (reasons_json rest)
reasons_json (amount_reached total limit ∷ rest) =
    cons (array (cons (number total) (cons (number limit) nil))) (reasons_json rest)

unfoldable pub explanation_json : Explanation → Json
unfolding reasons_json
explanation_json (amount_exceeds a currency limit) =
    array (cons (number a) (cons (text currency) (cons (number limit) nil)))
explanation_json (country_listed c) = text c
explanation_json (velocity_exceeded w reasons) = array (cons w (reasons_json reasons))
explanation_json (risk_reached s limit) = array (cons (score_json s) (cons (number limit) nil))
explanation_json (category_listed c) = text c
explanation_json (demo_forced s) = text s

-- `m.model_dump(mode="json")`
unfoldable pub match_json : RuleMatch → Json
unfolding explanation_json
match_json m = object (
    dict (
      ("rule_id", uuid m.rule_id)
      ∷ ("rule_name", text m.rule_name)
      ∷ ("rule_type", text m.rule_type)
      ∷ ("severity", text m.severity)
      ∷ ("explanation", explanation_json m.explanation)
      ∷ ("parameters_snapshot", object m.parameters_snapshot)
      ∷ ("matched_at", time m.matched_at)
      ∷ []))

unfoldable pub matches_json : List RuleMatch → Items
unfolding match_json
matches_json [] = nil
matches_json (m ∷ rest) = cons (match_json m) (matches_json rest)

unfoldable pub decision_json : List Reason → Items
decision_json [] = nil
decision_json (critical_rule ∷ rest) = cons (text "CRITICAL") (decision_json rest)
decision_json (over_threshold score limit ∷ rest) = cons (score_json score) (decision_json rest)
decision_json (demo_scenario s ∷ rest) = cons (text s) (decision_json rest)

abbrev reasons_or_null : Option (List Reason) → Json
reasons_or_null none = null
reasons_or_null (some reasons) = array (decision_json reasons)

unfoldable pub alert_of : Env → TransactionContext → DetectionResult → ℕ → Alert
alert_of env t d corr = record {
  id = env.uuid4 0;
  transaction_id = t.id;
  user_id = t.user_id;
  status = AlertStatus.pending;
  severity = d.severity;
  composite_risk_score = d.composite_risk_score;
  ml_anomaly_score = d.ml_anomaly_score;
  rule_matches = array (matches_json d.rule_matches);
  risk_profile_snapshot = d.risk_profile_snapshot;
  is_demo = d.is_demo;
  resolved_by = none;
  resolved_at = none;
  resolution_reason = none;
  escalated_email_at = none;
  escalated_slack_at = none;
  correlation_id = corr;
  created_at = env.now;
}

unfoldable pub alert_outbox : Env → Fields → TransactionContext → DetectionResult → ℕ → OutboxEvent
unfolding decision_json matches_json
alert_outbox env carrier t d corr =
    pending_event env 1 event_alert_created "processor"
      (dict (
        ("alert_id", uuid (env.uuid4 0))
        ∷ ("transaction_id", uuid t.id)
        ∷ ("user_id", uuid t.user_id)
        ∷ ("status", text (status_value AlertStatus.pending))
        ∷ ("severity", text (severity_value d.severity))
        ∷ ("composite_risk_score", score_json d.composite_risk_score)
        ∷ ("ml_anomaly_score", score_json d.ml_anomaly_score)
        ∷ ("rule_matches", array (matches_json d.rule_matches))
        ∷ ("is_demo", flag d.is_demo)
        ∷ ("explanation", reasons_or_null d.explanation)
        ∷ ("created_at", time env.now)
        ∷ ("_trace_context", object carrier)
        ∷ []))
      corr

abbrev pub is_transaction : TransactionContext → Transaction → Bool
is_transaction t row = row.id == t.id && row.created_at == t.created_at

abbrev pub mark_processed : ℕ → Transaction → Transaction
mark_processed now row = record row { status = processed; processed_at = some now }

abbrev pub count_alert : ℕ → RiskProfile → RiskProfile
count_alert now p = record p { total_alerts = p.total_alerts + 1; last_recalculated_at = now }

-- the upsert of the risk profile
unfoldable pub upsert_profile : ℕ → ℕ → Option RiskProfile → Database → Database
upsert_profile now user_id (some p) db = record db {
  risk_profiles = update (has_user p.user_id) (count_alert now) db.risk_profiles;
}
upsert_profile now user_id none db = record db {
  risk_profiles =
      db.risk_profiles
      ++ record {
        user_id = user_id;
        risk_score = 0;
        total_alerts = 1;
        false_positive_count = 0;
        last_recalculated_at = now;
      }
        ∷ [];
}

-- 7b: alert, event and risk profile. The flush before the SELECT raises where the transaction
-- already has an alert (`transaction_id` is unique).
unfoldable pub write_alert :
    Env → Fields → TransactionContext → DetectionResult → ℕ → Exec (Unit {0})
unfolding upsert_profile
write_alert env carrier t d corr = do
  taken ← query (λ db. any (λ (a : Alert). a.transaction_id == t.id) db.alerts)
  require (not taken) database_error
  execute (λ db. record db { alerts = db.alerts ++ alert_of env t d corr ∷ [] })
  execute (add_outbox (alert_outbox env carrier t d corr))
  rows ← query (λ db. select (has_user t.user_id) db.risk_profiles)
  profile ← scalar_one_or_none rows
  execute (upsert_profile env.now t.user_id profile)

abbrev pub is_inbox_row : ℕ → String → ProcessedEvent → Bool
is_inbox_row event_id group row = row.event_id == event_id && str_eq row.consumer_group group

-- 7c: the inbox row. The commit raises where there is one (the primary key of the table).
unfoldable pub write_inbox : ℕ → String → ℕ → Exec (Unit {0})
write_inbox event_id group now = do
  taken ← query (λ db. any (is_inbox_row event_id group) db.processed_events)
  require (not taken) database_error
  execute (λ db. record db {
    processed_events =
        db.processed_events
        ++ record { event_id = event_id; consumer_group = group; processed_at = now } ∷ [];
  })

-- 7: the writes of one transaction
unfoldable pub write_decision :
    Env → Fields → String → ℕ → TransactionContext → DetectionResult → ℕ → Exec (Unit {0})
unfolding write_alert write_inbox
write_decision env carrier group event_id t d corr = do
  execute (λ db. record db {
    transactions = update (is_transaction t) (mark_processed env.now) db.transactions;
  })
  if d.should_alert then write_alert env carrier t d corr else pure tt
  write_inbox event_id group env.now
  commit env.accepted

unfoldable pub decide : Pipeline → ℕ → TransactionContext → Exec DetectionResult
decide pipeline now t = do
  velocity ← query (get_velocity_context pipeline.velocity_window_minutes t.user_id t.created_at)
  snapshot ← get_risk_profile_snapshot t.user_id
  rules ← query pipeline.get_active_rules
  let matches : List RuleMatch =
      evaluate_rules pipeline.ops rules t (some velocity) (some snapshot) now
  let decision : DetectionResult =
      compute_detection_decision t matches (pipeline.score t velocity) (some snapshot)
        pipeline.scoring_weights
  pure (override pipeline.ops pipeline.demo_strategy t now decision)

unfoldable pub process_transaction_event : Pipeline → Env → Fields → Event → Exec DetectionResult
process_transaction_event pipeline env carrier event = do
  corr ← or_raise event.correlation_id value_error
  event_id ← or_raise event.event_id value_error
  t ← parse_context pipeline.ops env.now corr event.payload
  d ← decide pipeline env.now t
  write_decision env carrier pipeline.consumer_group event_id t d corr
  pure d
