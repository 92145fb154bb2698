-- ===== src/Detection/Schemas.antt =====
-- services/processor/domain/schemas.py. Scores are numbers of ten-thousandths. The texts that
-- explain a match or a decision are data: what was compared with what.
use rt_financial_anomaly_det.Prelude.{ℕ, ◌≤◌, ◌<◌, String, Bool, Option, List}
use rt_financial_anomaly_det.Shared.Enums.{AlertSeverity, RuleType}
use rt_financial_anomaly_det.Shared.Json.{Decimal, Json, Fields}

pub record TransactionContext : Type 0 where
  pub id : ℕ
  pub user_id : ℕ
  pub amount : Decimal
  pub currency : String
  pub country : String
  pub merchant_category : String
  pub created_at : ℕ
  pub metadata : Fields
  pub correlation_id : Option ℕ

pub record VelocityContext : Type 0 where
  pub user_id : ℕ
  pub window_minutes : ℕ
  pub transaction_count : ℕ
  pub total_amount : Decimal

pub record RiskProfileSnapshot : Type 0 where
  pub user_id : ℕ
  pub risk_score : ℕ
  pub total_alerts : ℕ
  pub false_positive_count : ℕ
  pub last_recalculated_at : Option ℕ

pub record RuleDefinition : Type 0 where
  pub id : ℕ
  pub name : String
  pub rule_type : RuleType
  pub parameters : Fields
  pub severity : AlertSeverity
  pub enabled : Bool

-- one entry of `matched_reasons`
pub data VelocityReason : Type 0 where
  count_reached : ℕ → Decimal → VelocityReason
  amount_reached : Decimal → Decimal → VelocityReason

pub data Explanation : Type 0 where
  amount_exceeds : Decimal → String → Decimal → Explanation
  country_listed : String → Explanation
  velocity_exceeded : Json → List VelocityReason → Explanation
  risk_reached : ℕ → Decimal → Explanation
  category_listed : String → Explanation
  demo_forced : String → Explanation

pub record RuleMatch : Type 0 where
  pub rule_id : ℕ
  pub rule_name : String
  pub rule_type : String
  pub severity : String
  pub explanation : Explanation
  pub parameters_snapshot : Fields
  pub matched_at : ℕ

-- The weights and the threshold are decimals in [0, 1], here numerators over one power of ten.
pub record ScoringWeights : Type 0 where
  pub unit : ℕ
  pub w_rule : ℕ
  pub w_ml : ℕ
  pub w_profile : ℕ
  pub alert_threshold : ℕ

-- what `Field(ge=0.0, le=1.0)` checks
pub record IsValidWeights (w : ScoringWeights) : Type 0 where
  pub positive : 0 < w.unit
  pub rule_le : w.w_rule ≤ w.unit
  pub ml_le : w.w_ml ≤ w.unit
  pub profile_le : w.w_profile ≤ w.unit
  pub threshold_le : w.alert_threshold ≤ w.unit

-- one entry of `reasons` in `compute_detection_decision`, or the demo strategy's text
pub data Reason : Type 0 where
  critical_rule : Reason
  over_threshold : ℕ → ℕ → Reason
  demo_scenario : String → Reason

-- The bounds that pydantic checks of the scores are left out here.
pub record DetectionResult : Type 0 where
  pub should_alert : Bool
  pub severity : AlertSeverity
  pub composite_risk_score : ℕ
  pub rule_severity_score : ℕ
  pub ml_anomaly_score : ℕ
  pub user_risk_score : ℕ
  pub rule_matches : List RuleMatch
  pub risk_profile_snapshot : Fields
  pub is_demo : Bool
  pub explanation : Option (List Reason)
