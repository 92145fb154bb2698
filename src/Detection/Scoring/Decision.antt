-- ===== src/Detection/Scoring/Decision.antt =====
-- `compute_detection_decision` as a whole: when it alerts, how severe, and why.
use rt_financial_anomaly_det.Prelude.{
  eq_iff, ℕ, ◌*◌, ◌≤◌, ◌<◌, ◌≡◌, ◌≢◌, ◌↔◌, ◌⊎◌, refl, Bool, true, String, Option, none, some, List,
  [], ◌∷◌, arith, str_eq,
}
use rt_financial_anomaly_det.Shared.Enums.{low, critical, severity_rank}
use rt_financial_anomaly_det.Detection.Schemas.{
  ScoringWeights, IsValidWeights, RuleMatch, TransactionContext, RiskProfileSnapshot,
  DetectionResult,
}
use rt_financial_anomaly_det.Detection.Scoring.{
  one, quantize, severity_value_of, calculate_rule_severity_score, compute_composite_risk_score,
  compute_detection_decision, has_critical_rule, is_critical, determine_alert_severity,
  user_risk_score_of,
}
use rt_financial_anomaly_det.Detection.Scoring.Bounds.{
  severity_value_of-le-one, calculate_rule_severity_score-le-one,
  compute_composite_risk_score-le-one, quantize_exact,
}

half_score : (c u t : ℕ) → 0 < u → u ≤ 2 * t → t * one ≤ c * u → 5000 ≤ c
half_score c u t p h k = grind arith

module _ (transaction : TransactionContext) (rule_matches : List RuleMatch) (ml_score : ℕ)
    (risk_profile : Option RiskProfileSnapshot) (w : ScoringWeights) where
  abbrev decision : DetectionResult
  decision = compute_detection_decision transaction rule_matches ml_score risk_profile w

  -- There is an alert exactly if the composite
  -- score reaches the threshold or a rule of severity CRITICAL matched.
  pub should_alert_iff : (decision.should_alert ≡ true) ↔ (
      (w.alert_threshold * one ≤ decision.composite_risk_score * w.unit)
      ⊎ (has_critical_rule rule_matches ≡ true))
  unfolding compute_detection_decision
  should_alert_iff = ground arith

  -- A decision has an explanation exactly if it alerts.
  pub explanation_iff : (decision.should_alert ≡ true) ↔ (decision.explanation ≢ none)
  unfolding compute_detection_decision
  explanation_iff = ground arith

  -- Over a positive unit, with a threshold of one half or more, an alert is never of severity LOW, and a rule of severity
  -- CRITICAL makes it CRITICAL, whatever the scores.
  pub alert_severity :
      w.unit ≤ 2 * w.alert_threshold
      → 0 < w.unit
      → decision.should_alert ≡ true
      → (decision.severity ≢ low)
        × (has_critical_rule rule_matches ≡ true → decision.severity ≡ critical)
  unfolding compute_detection_decision determine_alert_severity
  alert_severity half positive alert =
      let c =
        compute_composite_risk_score (calculate_rule_severity_score rule_matches)
          (quantize one ml_score) (user_risk_score_of risk_profile) w in
      ground (arith, half_score c w.unit w.alert_threshold)

-- The scores of a decision pass the bounds that `DetectionResult` declares, so building it never
-- raises.
pub record InRange (d : DetectionResult) : Type 0 where
  pub composite_le : d.composite_risk_score ≤ one
  pub rule_le : d.rule_severity_score ≤ one
  pub ml_le : d.ml_anomaly_score ≤ one
  pub user_le : d.user_risk_score ≤ one

abbrev pub score_of : Option RiskProfileSnapshot → ℕ
score_of none = 0
score_of (some p) = p.risk_score

user_risk_score_of-eq : (o : Option RiskProfileSnapshot) → user_risk_score_of o ≡ score_of o
unfolding user_risk_score_of
user_risk_score_of-eq none = refl
user_risk_score_of-eq (some p) = quantize_exact p.risk_score

-- With valid weights, and a model score and a user score of at most one, the four scores of the
-- decision are at most one.
pub compute_detection_decision-InRange :
    (transaction : TransactionContext) (rule_matches : List RuleMatch) (ml_score : ℕ)
    (risk_profile : Option RiskProfileSnapshot) (w : ScoringWeights)
    → IsValidWeights w
    → ml_score ≤ one
    → score_of risk_profile ≤ one
    → InRange (compute_detection_decision transaction rule_matches ml_score risk_profile w)
unfolding compute_detection_decision
compute_detection_decision-InRange transaction rule_matches ml_score risk_profile w valid ml user =
    record {
      composite_le = compute_composite_risk_score-le-one _ _ _ w valid.positive;
      rule_le = calculate_rule_severity_score-le-one rule_matches;
      ml_le = omega (arith, quantize_exact ml_score);
      user_le = omega (arith, user_risk_score_of-eq risk_profile);
    }

critical_value : (s : String) → (severity_value_of s ≡ one) ↔ (str_eq s "CRITICAL" ≡ true)
unfolding severity_value_of
critical_value s = ((λ h. ground arith), (λ h. rw ((eq_iff s "CRITICAL").0 h) refl))

-- The rules' score is 1.0000 exactly if a rule of severity CRITICAL matched.
pub full_score_iff :
    (matches : List RuleMatch)
    → (calculate_rule_severity_score matches ≡ one) ↔ (has_critical_rule matches ≡ true)
unfolding calculate_rule_severity_score has_critical_rule is_critical
full_score_iff [] = ground arith
full_score_iff (m ∷ matches) = ground (
  arith,
  critical_value m.severity,
  full_score_iff matches,
  severity_value_of-le-one m.severity,
  calculate_rule_severity_score-le-one matches,
)

-- A higher composite score never gives a lower severity.
pub determine_alert_severity_mono :
    (m n : ℕ) (b : Bool)
    → m ≤ n
    → severity_rank (determine_alert_severity m b) ≤ severity_rank (determine_alert_severity n b)
unfolding determine_alert_severity
determine_alert_severity_mono m n b h = ground arith
