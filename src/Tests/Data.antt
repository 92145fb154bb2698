-- ===== src/Tests/Data.antt =====
-- A small database and its surroundings.
use rt_financial_anomaly_det.Prelude.{ℕ, ◌+◌, String, true, false, none, some, [], ◌∷◌}
use rt_financial_anomaly_det.Shared.Enums.{AlertStatus, approved, high, submitted, OutboxStatus}
use rt_financial_anomaly_det.Shared.Events.{event_alert_created}
use rt_financial_anomaly_det.Shared.Json.{Json, null, end, text}
use rt_financial_anomaly_det.Shared.Models.{Transaction, Alert, OutboxEvent, Database, RiskProfile}
use rt_financial_anomaly_det.Shared.Session.{Env}
use rt_financial_anomaly_det.Alerts.Actions.{Resolution}
use rt_financial_anomaly_det.Alerts.Escalation
use rt_financial_anomaly_det.Outbox.Publisher
use rt_financial_anomaly_det.Detection.Values.{TextOps}

abbrev pub uuid_at : ℕ → ℕ
uuid_at place = 900 + place

abbrev pub env_at : ℕ → Env
env_at now = record { now = now; uuid4 = uuid_at; accepted = true }

abbrev pub open_alert : Alert
open_alert = record {
  id = 11;
  transaction_id = 1;
  user_id = 7;
  status = AlertStatus.pending;
  severity = high;
  composite_risk_score = 7000;
  ml_anomaly_score = 6000;
  rule_matches = null;
  risk_profile_snapshot = end;
  is_demo = false;
  resolved_by = none;
  resolved_at = none;
  resolution_reason = none;
  escalated_email_at = none;
  escalated_slack_at = none;
  correlation_id = 5;
  created_at = 100;
}

abbrev pub closed_alert : Alert
closed_alert = record open_alert { id = 12; transaction_id = 2; status = approved }

abbrev pub pending_outbox : OutboxEvent
pending_outbox = record {
  id = 21;
  event_type = event_alert_created;
  event_version = "1.0";
  payload = end;
  correlation_id = 5;
  producer_service = "processor";
  status = OutboxStatus.pending;
  retry_count = 0;
  created_at = 100;
  published_at = none;
}

abbrev pub transaction_of : ℕ → ℕ → Transaction
transaction_of id created_at = record {
  id = id;
  created_at = created_at;
  user_id = 7;
  amount = record { negative = false; coefficient = 50000; scale = 2 };
  currency = "USD";
  country = "XX";
  merchant_category = "grocery";
  status = submitted;
  idempotency_key = "k";
  metadata = end;
  correlation_id = 5;
  processed_at = none;
}

abbrev pub profile_7 : RiskProfile
profile_7 = record {
  user_id = 7;
  risk_score = 5000;
  total_alerts = 2;
  false_positive_count = 0;
  last_recalculated_at = 50;
}

abbrev pub database : Database
database = record {
  transactions = transaction_of 3 90 ∷ [];
  alerts = open_alert ∷ closed_alert ∷ [];
  outbox_events = pending_outbox ∷ [];
  audit_logs = [];
  processed_events = [];
  dead_letters = [];
  risk_profiles = profile_7 ∷ [];
  fraud_rules = [];
}

abbrev pub resolution : AlertStatus → String → Resolution
resolution status actor = record {
  alert_id = 11;
  target_status = status;
  actor = actor;
  resolution_reason = none;
  correlation_id = some 5;
}

abbrev pub escalation_settings : Escalation.Settings
escalation_settings = record {
  escalation_email = 50;
  escalation_slack = 60;
  escalation_batch_size = 10;
}

abbrev pub publisher_settings : Publisher.Settings
publisher_settings = record { batch_size = 10; max_retries = 2 }

abbrev pub str_of : Json → String
str_of (text s) = s
str_of other = ""

abbrev pub ops : TextOps
ops = record {
  upper = λ s. s;
  lower = λ s. s;
  strip = λ s. s;
  str = str_of;
  decimal = λ s. none;
  int = λ s. none;
}
