-- ===== src/Shared/Models.antt =====
-- The tables of shared/models/*.py as records. UUIDs are numbers, times are microseconds, scores
-- of type `Numeric(5, 4)` are numbers of ten-thousandths, and a nullable column is an option.
use rt_financial_anomaly_det.Prelude.{ℕ, String, Bool, Option, List}
use rt_financial_anomaly_det.Shared.Enums.{
  TransactionStatus, AlertStatus, AlertSeverity, OutboxStatus,
}
use rt_financial_anomaly_det.Shared.Json.{Decimal, Json, Fields}

pub record Transaction : Type 0 where
  pub id : ℕ
  pub created_at : ℕ
  pub user_id : ℕ
  pub amount : Decimal
  pub currency : String
  pub country : String
  pub merchant_category : String
  pub status : TransactionStatus
  pub idempotency_key : String
  pub metadata : Fields
  pub correlation_id : ℕ
  pub processed_at : Option ℕ

pub record Alert : Type 0 where
  pub id : ℕ
  pub transaction_id : ℕ
  pub user_id : ℕ
  pub status : AlertStatus
  pub severity : AlertSeverity
  pub composite_risk_score : ℕ
  pub ml_anomaly_score : ℕ
  pub rule_matches : Json
  pub risk_profile_snapshot : Fields
  pub is_demo : Bool
  pub resolved_by : Option String
  pub resolved_at : Option ℕ
  pub resolution_reason : Option String
  pub escalated_email_at : Option ℕ
  pub escalated_slack_at : Option ℕ
  pub correlation_id : ℕ
  pub created_at : ℕ

pub record OutboxEvent : Type 0 where
  pub id : ℕ
  pub event_type : String
  pub event_version : String
  pub payload : Fields
  pub correlation_id : ℕ
  pub producer_service : String
  pub status : OutboxStatus
  pub retry_count : ℕ
  pub created_at : ℕ
  pub published_at : Option ℕ

pub record AuditLog : Type 0 where
  pub id : ℕ
  pub actor : String
  pub action : String
  pub entity_type : String
  pub entity_id : ℕ
  pub before : Fields
  pub after : Fields
  pub correlation_id : ℕ
  pub created_at : ℕ

pub record ProcessedEvent : Type 0 where
  pub event_id : ℕ
  pub consumer_group : String
  pub processed_at : ℕ

pub record DeadLetterEvent : Type 0 where
  pub id : ℕ
  pub original_event_id : ℕ
  pub event_type : String
  pub payload : Fields
  pub error_message : String
  pub retry_count : ℕ
  pub stream_name : String
  pub consumer_group : Option String
  pub created_at : ℕ

pub record RiskProfile : Type 0 where
  pub user_id : ℕ
  pub risk_score : ℕ
  pub total_alerts : ℕ
  pub false_positive_count : ℕ
  pub last_recalculated_at : ℕ

-- `status`, `rule_type` and `severity` of a rule row are free texts
pub record FraudRule : Type 0 where
  pub id : ℕ
  pub name : String
  pub rule_type : String
  pub parameters : Fields
  pub severity : String
  pub enabled : Bool

pub record Database : Type 0 where
  pub transactions : List Transaction
  pub alerts : List Alert
  pub outbox_events : List OutboxEvent
  pub audit_logs : List AuditLog
  pub processed_events : List ProcessedEvent
  pub dead_letters : List DeadLetterEvent
  pub risk_profiles : List RiskProfile
  pub fraud_rules : List FraudRule
