-- ===== src/Detection/Rules/Matching.antt =====
-- What a match says of its rule, and the rules of severity CRITICAL from the rule to the alert.
use rt_financial_anomaly_det.Prelude.{
  sym, ◌∙◌, ℕ, ◌≡◌, refl, ◌↔◌, ◌⊎◌, inl, inr, true, false, Option, none, some, List, [], ◌∷◌, arith,
  Some, Option-cases, Bool-cases, str_eq, any,
}
use rt_financial_anomaly_det.Shared.Enums.{
  AlertSeverity, RuleType, amount_threshold, high_risk_country, velocity, user_risk_level,
  merchant_category, low, medium, high, critical, severity_value, rule_type_value,
}
use rt_financial_anomaly_det.Detection.Schemas.{
  TransactionContext, VelocityContext, RiskProfileSnapshot, RuleDefinition, RuleMatch,
  VelocityReason, ScoringWeights,
}
use rt_financial_anomaly_det.Detection.Values.{TextOps}
use rt_financial_anomaly_det.Detection.Rules.{
  match_of, match_reasons, eval_amount_threshold, eval_high_risk_country, eval_velocity,
  eval_user_risk_level, eval_merchant_category, eval_by_type, evaluate_rule, evaluate_rules,
  velocity_reasons,
}
use rt_financial_anomaly_det.Detection.Scoring.{
  is_critical, has_critical_rule, compute_detection_decision, determine_alert_severity,
}

-- The match names its rule.
pub record Names (rule : RuleDefinition) (m : RuleMatch) : Type 0 where
  pub id : m.rule_id ≡ rule.id
  pub name : m.rule_name ≡ rule.name
  pub rule_type : m.rule_type ≡ rule_type_value rule.rule_type
  pub severity : m.severity ≡ severity_value rule.severity

module _ (ops : TextOps) (rule : RuleDefinition) (now : ℕ) (m : RuleMatch) where
  eval_amount_threshold-Names :
      (t : TransactionContext) → eval_amount_threshold ops rule t now ≡ some m → Names rule m
  unfolding eval_amount_threshold match_of
  eval_amount_threshold-Names t h = ground arith

  eval_high_risk_country-Names :
      (t : TransactionContext) → eval_high_risk_country ops rule t now ≡ some m → Names rule m
  unfolding eval_high_risk_country match_of
  eval_high_risk_country-Names t h = ground arith

  match_reasons-Names :
      (rs : List VelocityReason) (v : VelocityContext)
      → match_reasons ops rs rule v now ≡ some m
      → Names rule m
  unfolding match_reasons match_of
  match_reasons-Names [] v h = cc
  match_reasons-Names (r ∷ rest) v h = ground arith

  eval_velocity-Names :
      (v : Option VelocityContext) → eval_velocity ops rule v now ≡ some m → Names rule m
  unfolding eval_velocity
  eval_velocity-Names none h = cc
  eval_velocity-Names (some v) h = match_reasons-Names (velocity_reasons ops rule.parameters v) v h

  eval_user_risk_level-Names :
      (p : Option RiskProfileSnapshot) → eval_user_risk_level ops rule p now ≡ some m → Names rule m
  unfolding eval_user_risk_level match_of
  eval_user_risk_level-Names none h = cc
  eval_user_risk_level-Names (some p) h = ground arith

  eval_merchant_category-Names :
      (t : TransactionContext) → eval_merchant_category ops rule t now ≡ some m → Names rule m
  unfolding eval_merchant_category match_of
  eval_merchant_category-Names t h = ground arith

  eval_by_type-Names :
      (kind : RuleType) (t : TransactionContext) (v : Option VelocityContext)
      (p : Option RiskProfileSnapshot)
      → eval_by_type ops kind rule t v p now ≡ some m
      → Names rule m
  unfolding eval_by_type
  eval_by_type-Names amount_threshold t v p h = eval_amount_threshold-Names t h
  eval_by_type-Names high_risk_country t v p h = eval_high_risk_country-Names t h
  eval_by_type-Names velocity t v p h = eval_velocity-Names v h
  eval_by_type-Names user_risk_level t v p h = eval_user_risk_level-Names p h
  eval_by_type-Names merchant_category t v p h = eval_merchant_category-Names t h

  -- A match comes from an enabled rule, and carries the rule's id, name, type and severity.
  pub evaluate_rule-Names :
      (t : TransactionContext) (v : Option VelocityContext) (p : Option RiskProfileSnapshot)
      → evaluate_rule ops rule t v p now ≡ some m
      → (rule.enabled ≡ true) × Names rule m
  unfolding evaluate_rule
  evaluate_rule-Names t v p h = ground (arith, eval_by_type-Names rule.rule_type t v p)

is_critical_of :
    (s : AlertSeverity) → (str_eq (severity_value s) "CRITICAL" ≡ true) ↔ (s ≡ critical)
unfolding severity_value
is_critical_of low = ((λ h. cc), (λ h. cc))
is_critical_of medium = ((λ h. cc), (λ h. cc))
is_critical_of high = ((λ h. cc), (λ h. cc))
is_critical_of critical = ((λ h. refl), (λ h. refl))

module _ (ops : TextOps) (t : TransactionContext) (v : Option VelocityContext)
    (p : Option RiskProfileSnapshot) (now : ℕ) where
  -- A rule of severity CRITICAL that matches.
  abbrev pub Fires : RuleDefinition → Type 0
  Fires rule =
      (rule.severity ≡ critical) × ((m : RuleMatch) × (evaluate_rule ops rule t v p now ≡ some m))

  critical_match :
      (rule : RuleDefinition) (m : RuleMatch)
      → evaluate_rule ops rule t v p now ≡ some m
      → (is_critical m ≡ true) ↔ (rule.severity ≡ critical)
  unfolding is_critical
  critical_match rule m h =
      let named = evaluate_rule-Names ops rule now m t v p h in
      rw named.1.severity (is_critical_of rule.severity)

  -- The matches hold a CRITICAL one exactly if some rule of severity CRITICAL matched.
  pub has_critical_rule-evaluate_rules :
      (rules : List RuleDefinition)
      → (has_critical_rule (evaluate_rules ops rules t v p now) ≡ true) ↔ Some Fires rules
  unfolding has_critical_rule evaluate_rules
  has_critical_rule-evaluate_rules [] = ((λ h. cc), (λ h. elim h [ ]))
  has_critical_rule-evaluate_rules (rule ∷ rest) =
      let ih = has_critical_rule-evaluate_rules rest in
      elim (Option-cases (evaluate_rule ops rule t v p now)) [
        | inl unmatched ↦
            ((λ h. inr (ih.0 (rw unmatched at h))), (λ s. rw unmatched (ih.1 (later unmatched s))))
        | inr (m, matched) ↦ (
          (λ h. first m matched (ih.0) (Bool-cases (is_critical m)) (rw matched at h)),
          (λ s. rw matched (fires m matched (ih.1) s)),
        )
      ]
    where
      later :
          evaluate_rule ops rule t v p now ≡ none → Fires rule ⊎ Some Fires rest → Some Fires rest
      later unmatched (inl f) = cc (sym unmatched ∙ f.1.1)
      later unmatched (inr s) = s

      first :
          (m : RuleMatch)
          → evaluate_rule ops rule t v p now ≡ some m
          → (any is_critical (evaluate_rules ops rest t v p now) ≡ true → Some Fires rest)
          → (is_critical m ≡ true) ⊎ (is_critical m ≡ false)
          → any is_critical (m ∷ evaluate_rules ops rest t v p now) ≡ true
          → Fires rule ⊎ Some Fires rest
      first m matched ih (inl c) h = inl ((critical_match rule m matched).0 c, (m, matched))
      first m matched ih (inr c) h = inr (ih (rw c at h))

      fires :
          (m : RuleMatch)
          → evaluate_rule ops rule t v p now ≡ some m
          → (Some Fires rest → any is_critical (evaluate_rules ops rest t v p now) ≡ true)
          → Fires rule ⊎ Some Fires rest
          → any is_critical (m ∷ evaluate_rules ops rest t v p now) ≡ true
      fires m matched ih (inl f) = rw ((critical_match rule m matched).1 f.0) refl
      fires m matched ih (inr s) = ground (arith, ih s)

  -- End to end: a rule of severity CRITICAL that matches makes an alert of severity CRITICAL,
  -- whatever the model and the user's profile say and however the weights are set.
  pub critical_rule_alerts :
      (rules : List RuleDefinition) (ml_score : ℕ) (w : ScoringWeights)
      → Some Fires rules
      → let d = compute_detection_decision t (evaluate_rules ops rules t v p now) ml_score p w in
        (d.should_alert ≡ true) × (d.severity ≡ critical)
  unfolding compute_detection_decision determine_alert_severity
  critical_rule_alerts rules ml_score w fires =
      ground (arith, (has_critical_rule-evaluate_rules rules).1 fires)
