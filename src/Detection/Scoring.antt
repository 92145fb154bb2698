-- ===== src/Detection/Scoring.antt =====
-- services/processor/domain/composite_scoring.py. A product of a weight and a score is exact, as
-- Python's Decimal has it up to 28 digits.
pub mod Bounds
pub mod Decision
use rt_financial_anomaly_det.Prelude.{
  ℕ, ◌+◌, ◌*◌, ◌/◌, min, max, String, Bool, true, false, ◌||◌, Option, none, some, List, [], ◌∷◌,
  ◌++◌, map, any, leb, str_eq, if◌then◌else◌,
}
use rt_financial_anomaly_det.Shared.Enums.{AlertSeverity, low, medium, high, critical}
use rt_financial_anomaly_det.Shared.Json.{Fields, null, number, uuid, time, Json, dict}
use rt_financial_anomaly_det.Detection.Schemas.{
  TransactionContext, RiskProfileSnapshot, RuleMatch, ScoringWeights, Reason, critical_rule,
  over_threshold, DetectionResult,
}

-- 1.0000
abbrev pub one : ℕ
one = 10000

-- SEVERITY_VALUES.get(severity, 0.0000)
unfoldable pub severity_value_of : String → ℕ
severity_value_of s =
    if str_eq s "LOW"
    then 2500
    else if str_eq s "MEDIUM"
    then 5000
    else if str_eq s "HIGH"
    then 7500
    else if str_eq s "CRITICAL"
    then 10000
    else 0

-- `_quantize` of `n / unit`: to four digits, halves up
unfoldable pub quantize : ℕ → ℕ → ℕ
quantize unit n = (2 * (n * one) + unit) / (2 * unit)

abbrev pub maximum : List ℕ → ℕ
maximum [] = 0
maximum (x ∷ xs) = max x (maximum xs)

unfoldable pub calculate_rule_severity_score : List RuleMatch → ℕ
calculate_rule_severity_score rule_matches =
    maximum (map (λ m. severity_value_of m.severity) rule_matches)

-- the numerator of the weighted sum, over `unit * one`
abbrev pub weighted_sum : ℕ → ℕ → ℕ → ScoringWeights → ℕ
weighted_sum rule_severity_score ml_anomaly_score user_risk_score w =
    w.w_rule * rule_severity_score + w.w_ml * ml_anomaly_score + w.w_profile * user_risk_score

unfoldable pub compute_composite_risk_score : ℕ → ℕ → ℕ → ScoringWeights → ℕ
unfolding quantize
compute_composite_risk_score rule_severity_score ml_anomaly_score user_risk_score w =
    let unit = w.unit * one in
    quantize unit (min unit (weighted_sum rule_severity_score ml_anomaly_score user_risk_score w))

unfoldable pub determine_alert_severity : ℕ → Bool → AlertSeverity
determine_alert_severity composite_score has_critical_rule =
    if has_critical_rule || leb 8500 composite_score
    then critical
    else if leb 7000 composite_score
    then high
    else if leb 5000 composite_score
    then medium
    else low

unfoldable pub is_critical : RuleMatch → Bool
is_critical m = str_eq m.severity "CRITICAL"

unfoldable pub has_critical_rule : List RuleMatch → Bool
unfolding is_critical
has_critical_rule = any is_critical

-- composite_score >= alert_threshold
unfoldable pub threshold_triggered : ℕ → ScoringWeights → Bool
threshold_triggered composite_score w = leb (w.alert_threshold * one) (composite_score * w.unit)

unfoldable pub decision_reasons : Bool → Bool → ℕ → ScoringWeights → Option (List Reason)
decision_reasons critical_found triggered composite_score w =
    if triggered || critical_found
    then some (
        (if critical_found then critical_rule ∷ [] else [])
        ++ (if triggered then over_threshold composite_score w.alert_threshold ∷ [] else []))
    else none

abbrev optional_time : Option ℕ → Json
optional_time none = null
optional_time (some t) = time t

abbrev score_json : ℕ → Json
score_json n = number (record { negative = false; coefficient = n; scale = 4 })

abbrev count_json : ℕ → Json
count_json n = number (record { negative = false; coefficient = n; scale = 0 })

-- `risk_profile.model_dump()`, or the baseline of a user without a profile
unfoldable pub risk_snapshot_dict : TransactionContext → Option RiskProfileSnapshot → Fields
risk_snapshot_dict transaction (some p) = dict (
    ("user_id", uuid p.user_id)
    ∷ ("risk_score", score_json p.risk_score)
    ∷ ("total_alerts", count_json p.total_alerts)
    ∷ ("false_positive_count", count_json p.false_positive_count)
    ∷ ("last_recalculated_at", optional_time p.last_recalculated_at)
    ∷ [])
risk_snapshot_dict transaction none = dict (
    ("user_id", uuid transaction.user_id)
    ∷ ("risk_score", score_json 0)
    ∷ ("total_alerts", count_json 0)
    ∷ ("false_positive_count", count_json 0)
    ∷ [])

unfoldable pub user_risk_score_of : Option RiskProfileSnapshot → ℕ
unfolding quantize
user_risk_score_of none = 0
user_risk_score_of (some p) = quantize one p.risk_score

unfoldable pub compute_detection_decision :
    TransactionContext
    → List RuleMatch
    → ℕ
    → Option RiskProfileSnapshot
    → ScoringWeights
    → DetectionResult
unfolding decision_reasons threshold_triggered
compute_detection_decision transaction rule_matches ml_score risk_profile w =
    let rule_severity_score = calculate_rule_severity_score rule_matches in
    let user_risk_score = user_risk_score_of risk_profile in
    let ml_anomaly_score = quantize one ml_score in
    let composite_score =
      compute_composite_risk_score rule_severity_score ml_anomaly_score user_risk_score w in
    let critical_found = has_critical_rule rule_matches in
    let triggered = threshold_triggered composite_score w in
    record {
      should_alert = triggered || critical_found;
      severity = determine_alert_severity composite_score critical_found;
      composite_risk_score = composite_score;
      rule_severity_score = rule_severity_score;
      ml_anomaly_score = ml_anomaly_score;
      user_risk_score = user_risk_score;
      rule_matches = rule_matches;
      risk_profile_snapshot = risk_snapshot_dict transaction risk_profile;
      is_demo = false;
      explanation = decision_reasons critical_found triggered composite_score w;
    }
