-- ===== src/Shared/Enums.antt =====
-- shared/models/enums.py. Members are compared by their rank in the declaration.
use rt_financial_anomaly_det.Prelude.{ℕ, String, ◌≡◌, Bool, true, false, ◌||◌, arith, ◌==◌}

pub data TransactionStatus : Type 0 where
  submitted processing processed processing_failed : TransactionStatus

pub data AlertStatus : Type 0 where
  pending escalated_email escalated_slack approved blocked false_positive : AlertStatus

pub data AlertSeverity : Type 0 where
  low medium high critical : AlertSeverity

pub data RuleType : Type 0 where
  amount_threshold high_risk_country velocity user_risk_level merchant_category : RuleType

pub data OutboxStatus : Type 0 where
  pending published dead_lettered : OutboxStatus

abbrev pub alert_rank : AlertStatus → ℕ
alert_rank AlertStatus.pending = 0
alert_rank escalated_email = 1
alert_rank escalated_slack = 2
alert_rank approved = 3
alert_rank blocked = 4
alert_rank false_positive = 5

-- `a == b` on alert statuses
abbrev pub same_status : AlertStatus → AlertStatus → Bool
same_status a b = alert_rank a == alert_rank b

pub same_status_lem : (a b : AlertStatus) → same_status a b ≡ true → a ≡ b
same_status_lem a b h = ground arith

-- `AlertStatus.is_terminal`
unfoldable pub is_terminal : AlertStatus → Bool
is_terminal s = same_status s approved || (same_status s blocked || same_status s false_positive)

-- `AlertStatus.is_escalated`
unfoldable pub is_escalated : AlertStatus → Bool
is_escalated s = same_status s escalated_email || same_status s escalated_slack

abbrev pub severity_rank : AlertSeverity → ℕ
severity_rank low = 0
severity_rank medium = 1
severity_rank high = 2
severity_rank critical = 3

abbrev pub is_pending : OutboxStatus → Bool
is_pending OutboxStatus.pending = true
is_pending _ = false

-- `AlertStatus.value`
unfoldable pub status_value : AlertStatus → String
status_value AlertStatus.pending = "PENDING"
status_value escalated_email = "ESCALATED_EMAIL"
status_value escalated_slack = "ESCALATED_SLACK"
status_value approved = "APPROVED"
status_value blocked = "BLOCKED"
status_value false_positive = "FALSE_POSITIVE"

-- `AlertSeverity.value`
unfoldable pub severity_value : AlertSeverity → String
severity_value low = "LOW"
severity_value medium = "MEDIUM"
severity_value high = "HIGH"
severity_value critical = "CRITICAL"

-- `RuleType.value`
unfoldable pub rule_type_value : RuleType → String
rule_type_value amount_threshold = "AMOUNT_THRESHOLD"
rule_type_value high_risk_country = "HIGH_RISK_COUNTRY"
rule_type_value velocity = "VELOCITY"
rule_type_value user_risk_level = "USER_RISK_LEVEL"
rule_type_value merchant_category = "MERCHANT_CATEGORY"
