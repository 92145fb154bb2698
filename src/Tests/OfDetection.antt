-- ===== src/Tests/OfDetection.antt =====
-- The theorems on rules, scores and decisions.
use rt_financial_anomaly_det.Prelude.{
  ℕ, ◌≤◌, ◌≡◌, inl, refl, true, false, none, some, List, [], ◌∷◌, arith, Some,
}
use rt_financial_anomaly_det.Shared.Enums.{critical, high, low, RuleType, severity_rank}
use rt_financial_anomaly_det.Shared.Json.{Decimal, number, text, dict, get}
use rt_financial_anomaly_det.Detection.Schemas.{
  TransactionContext, RuleDefinition, amount_exceeds, RuleMatch, ScoringWeights, DetectionResult,
}
use rt_financial_anomaly_det.Detection.Values.{truthy}
use rt_financial_anomaly_det.Detection.Rules.{
  evaluate_rule, evaluate_rules, eval_amount_threshold, eval_velocity,
}
use rt_financial_anomaly_det.Detection.Rules.Matching.{Fires, critical_rule_alerts}
use rt_financial_anomaly_det.Detection.Scoring.{
  compute_composite_risk_score, compute_detection_decision,
}
use rt_financial_anomaly_det.Detection.Scoring.Bounds.{compute_composite_risk_score_between}
use rt_financial_anomaly_det.Detection.Demo.{IsForced, override, get_demo_strategy, override_effect}
use rt_financial_anomaly_det.Tests.Data.{ops}

abbrev pub amount : ℕ → Decimal
amount n = record { negative = false; coefficient = n; scale = 2 }

abbrev pub transaction : TransactionContext
transaction = record {
  id = 3;
  user_id = 7;
  amount = amount 150000;
  currency = "USD";
  country = "XX";
  merchant_category = "grocery";
  created_at = 90;
  metadata = dict (("demo_scenario", text "account takeover") ∷ []);
  correlation_id = some 5;
}

abbrev pub amount_rule : RuleDefinition
amount_rule = record {
  id = 31;
  name = "Large amount";
  rule_type = RuleType.amount_threshold;
  parameters = dict (("threshold", number (amount 100000)) ∷ []);
  severity = critical;
  enabled = true;
}

abbrev velocity_rule : RuleDefinition
velocity_rule = record amount_rule {
  rule_type = RuleType.velocity;
  parameters =
      dict (("max_count", number (record { negative = false; coefficient = 3; scale = 0 })) ∷ []);
}

-- the weights of the default settings
abbrev pub weights : ScoringWeights
weights = record { unit = 10; w_rule = 5; w_ml = 3; w_profile = 2; alert_threshold = 6 }

abbrev pub rules : List RuleDefinition
rules = amount_rule ∷ velocity_rule ∷ []

abbrev pub amount_match : RuleMatch
amount_match = record {
  rule_id = 31;
  rule_name = "Large amount";
  rule_type = "AMOUNT_THRESHOLD";
  severity = "CRITICAL";
  explanation = amount_exceeds (amount 150000) "USD" (amount 100000);
  parameters_snapshot = amount_rule.parameters;
  matched_at = 100;
}

fires : Some (Fires ops transaction none none 100) rules
unfolding evaluate_rule eval_amount_threshold rt_financial_anomaly_det.Detection.Values.is_none
    rt_financial_anomaly_det.Detection.Values.or_else get
    rt_financial_anomaly_det.Detection.Values.decimal_of
    rt_financial_anomaly_det.Detection.Rules.wrong_currency
    rt_financial_anomaly_det.Detection.Rules.is_inclusive
    rt_financial_anomaly_det.Detection.Values.at_least
    rt_financial_anomaly_det.Detection.Rules.match_of
    rt_financial_anomaly_det.Shared.Enums.rule_type_value
    rt_financial_anomaly_det.Shared.Enums.severity_value
fires = inl (refl, (amount_match, refl))

critical_rule_alerts_example :
    let d =
      compute_detection_decision transaction
        (evaluate_rules ops rules transaction none none 100)
        10
        none
        weights in
    (d.should_alert ≡ true) × (d.severity ≡ critical)
critical_rule_alerts_example =
    critical_rule_alerts ops transaction none none 100 rules 10 weights fires

compute_composite_risk_score_between_example :
    (2000 ≤ compute_composite_risk_score 4000 3000 2000 weights)
    × (compute_composite_risk_score 4000 3000 2000 weights ≤ 4000)
compute_composite_risk_score_between_example =
    compute_composite_risk_score_between 2000 4000 4000 3000 2000 weights (omega arith) refl
      (omega arith) ((omega arith), (omega arith)) ((omega arith), (omega arith))
      ((omega arith), (omega arith))

abbrev pub decided : DetectionResult
decided = compute_detection_decision transaction (amount_match ∷ []) 4000 none weights

override_effect_example :
    let scenario = get "demo_scenario" transaction.metadata in
    (override ops (get_demo_strategy false) transaction 100 decided ≡ decided)
    × (truthy scenario ≡ false
        → override ops (get_demo_strategy true) transaction 100 decided ≡ decided)
    × (truthy scenario ≡ true
        → IsForced decided (override ops (get_demo_strategy true) transaction 100 decided))
override_effect_example = override_effect ops transaction 100 decided
