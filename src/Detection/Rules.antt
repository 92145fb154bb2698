-- ===== src/Detection/Rules.antt =====
-- services/processor/domain/rules.py: the five kinds of rules, and the evaluation of a list of
-- them. `datetime.now` is the argument `now`.
pub mod Matching
pub mod Monotone
use rt_financial_anomaly_det.Prelude.{
  ℕ, String, Bool, true, false, not, ◌&&◌, ◌||◌, Option, none, some, List, [], ◌∷◌, ◌++◌, str_eq,
  if◌then◌else◌,
}
use rt_financial_anomaly_det.Shared.Enums.{
  RuleType, amount_threshold, high_risk_country, velocity, user_risk_level, merchant_category,
  severity_value, rule_type_value,
}
use rt_financial_anomaly_det.Shared.Json.{Json, number, text, array, Items, nil, cons, Fields, get}
use rt_financial_anomaly_det.Detection.Schemas.{
  TransactionContext, VelocityContext, RiskProfileSnapshot, RuleDefinition, RuleMatch, Explanation,
  VelocityReason, count_reached, amount_reached, amount_exceeds, country_listed, velocity_exceeded,
  risk_reached, category_listed,
}
use rt_financial_anomaly_det.Detection.Values.{
  TextOps, at_least, more_than, truthy, or_else, is_none, decimal_of, int_of,
}

-- `RuleMatch(...)` of a rule
unfoldable pub match_of : RuleDefinition → Explanation → ℕ → RuleMatch
match_of rule explanation now = record {
  rule_id = rule.id;
  rule_name = rule.name;
  rule_type = rule_type_value rule.rule_type;
  severity = severity_value rule.severity;
  explanation = explanation;
  parameters_snapshot = rule.parameters;
  matched_at = now;
}

abbrev pub raw_threshold : Fields → Option Json
raw_threshold params =
    or_else (or_else (get "threshold" params) (get "amount_threshold" params)) (get "limit" params)

-- `params.get("operator", ">=") == ">="`
unfoldable pub is_inclusive : Option Json → Bool
is_inclusive none = true
is_inclusive (some (text s)) = str_eq s ">="
is_inclusive (some other) = false

abbrev pub or_chain : String → String → String → Fields → Option Json
or_chain a b c params = or_else (or_else (get a params) (get b params)) (get c params)

abbrev pub raw_countries : Fields → Option Json
raw_countries params =
    or_else (or_chain "countries" "country_codes" "country_list" params) (some (array nil))

abbrev pub raw_categories : Fields → Option Json
raw_categories params =
    or_else (or_chain "categories" "category_list" "blocked_categories" params) (some (array nil))

-- `if match is not None: matches.append(match)`
abbrev pub append_match : Option RuleMatch → List RuleMatch → List RuleMatch
append_match none matches = matches
append_match (some m) matches = m ∷ matches

module _ (ops : TextOps) where
  -- `required_currency and transaction.currency.upper() != str(required_currency).upper()`
  unfoldable pub wrong_currency : Option Json → String → Bool
  wrong_currency none currency = false
  wrong_currency (some required) currency =
      truthy (some required) && not (str_eq (ops.upper currency) (ops.upper (ops.str required)))

  unfoldable pub eval_amount_threshold : RuleDefinition → TransactionContext → ℕ → Option RuleMatch
  eval_amount_threshold rule transaction now =
      let params = rule.parameters in
      let raw = raw_threshold params in
      if is_none raw then none else elim (decimal_of ops raw) [
        | none ↦ none
        | some threshold ↦
            if wrong_currency (get "currency" params) transaction.currency
            then none
            else if (if is_inclusive (get "operator" params)
                then at_least transaction.amount threshold
                else more_than transaction.amount threshold)
            then some (
                match_of rule (amount_exceeds transaction.amount transaction.currency threshold)
                  now)
            else none
      ]

  -- `code in {str(c).strip().upper() for c in items}`, with the normalisation as an argument
  unfoldable pub listed : (String → String) → String → Items → Bool
  listed normalise code nil = false
  listed normalise code (cons c rest) =
      str_eq code (normalise (ops.strip (ops.str c))) || listed normalise code rest

  unfoldable pub match_if : Bool → RuleDefinition → Explanation → ℕ → Option RuleMatch
  match_if b rule explanation now = if b then some (match_of rule explanation now) else none

  unfoldable pub eval_high_risk_country : RuleDefinition → TransactionContext → ℕ → Option RuleMatch
  unfolding match_if listed
  eval_high_risk_country rule transaction now = elim (raw_countries rule.parameters) [
    | some (array countries) ↦
        match_if (listed ops.upper (ops.upper (ops.strip transaction.country)) countries) rule
          (country_listed transaction.country) now
    | _ ↦ none
  ]

  -- the entry that a limit adds to `matched_reasons`
  unfoldable pub count_reason : Option Json → VelocityContext → List VelocityReason
  count_reason max_count v = if is_none max_count then [] else elim (int_of ops max_count) [
    | none ↦ []
    | some limit ↦
        if at_least (record { negative = false; coefficient = v.transaction_count; scale = 0 })
          limit
        then count_reached v.transaction_count limit ∷ []
        else []
  ]

  unfoldable pub amount_reason : Option Json → VelocityContext → List VelocityReason
  amount_reason max_amount v = if is_none max_amount then [] else elim (decimal_of ops max_amount) [
    | none ↦ []
    | some limit ↦
        if at_least v.total_amount limit then amount_reached v.total_amount limit ∷ [] else []
  ]

  unfoldable pub velocity_reasons : Fields → VelocityContext → List VelocityReason
  unfolding count_reason amount_reason
  velocity_reasons params v =
      count_reason (or_else (get "max_count" params) (get "count_threshold" params)) v
      ++ amount_reason (or_else (get "max_amount" params) (get "amount_threshold" params)) v

  -- `params.get("window_minutes", velocity.window_minutes)`
  unfoldable pub window_of : Option Json → VelocityContext → Json
  window_of none v = number (record { negative = false; coefficient = v.window_minutes; scale = 0 })
  window_of (some w) v = w

  unfoldable pub match_reasons :
      List VelocityReason → RuleDefinition → VelocityContext → ℕ → Option RuleMatch
  match_reasons [] rule v now = none
  match_reasons (r ∷ rest) rule v now = some (
      match_of rule
        (velocity_exceeded (window_of (get "window_minutes" rule.parameters) v) (r ∷ rest)) now)

  unfoldable pub eval_velocity : RuleDefinition → Option VelocityContext → ℕ → Option RuleMatch
  unfolding velocity_reasons match_reasons
  eval_velocity rule none now = none
  eval_velocity rule (some v) now = match_reasons (velocity_reasons rule.parameters v) rule v now

  unfoldable pub eval_user_risk_level :
      RuleDefinition → Option RiskProfileSnapshot → ℕ → Option RuleMatch
  unfolding match_if
  eval_user_risk_level rule none now = none
  eval_user_risk_level rule (some p) now =
      let raw = or_chain "min_risk_score" "risk_threshold" "threshold" rule.parameters in
      if is_none raw then none else elim (decimal_of ops raw) [
        | none ↦ none
        | some min_risk_score ↦
            match_if
              (at_least (record { negative = false; coefficient = p.risk_score; scale = 4 })
                min_risk_score)
              rule (risk_reached p.risk_score min_risk_score) now
      ]

  unfoldable pub eval_merchant_category : RuleDefinition → TransactionContext → ℕ → Option RuleMatch
  unfolding match_if listed
  eval_merchant_category rule transaction now = elim (raw_categories rule.parameters) [
    | some (array categories) ↦
        match_if (listed ops.lower (ops.lower (ops.strip transaction.merchant_category)) categories)
          rule (category_listed transaction.merchant_category) now
    | _ ↦ none
  ]

  -- the dispatch of `evaluate_rule` on the type of an enabled rule
  unfoldable pub eval_by_type :
      RuleType
      → RuleDefinition
      → TransactionContext
      → Option VelocityContext
      → Option RiskProfileSnapshot
      → ℕ
      → Option RuleMatch
  eval_by_type amount_threshold rule t v p now = eval_amount_threshold rule t now
  eval_by_type high_risk_country rule t v p now = eval_high_risk_country rule t now
  eval_by_type velocity rule t v p now = eval_velocity rule v now
  eval_by_type user_risk_level rule t v p now = eval_user_risk_level rule p now
  eval_by_type merchant_category rule t v p now = eval_merchant_category rule t now

  unfoldable pub evaluate_rule :
      RuleDefinition
      → TransactionContext
      → Option VelocityContext
      → Option RiskProfileSnapshot
      → ℕ
      → Option RuleMatch
  unfolding eval_by_type
  evaluate_rule rule t v p now =
      if rule.enabled then eval_by_type rule.rule_type rule t v p now else none

  unfoldable pub evaluate_rules :
      List RuleDefinition
      → TransactionContext
      → Option VelocityContext
      → Option RiskProfileSnapshot
      → ℕ
      → List RuleMatch
  unfolding evaluate_rule
  evaluate_rules [] t v p now = []
  evaluate_rules (rule ∷ rest) t v p now =
      append_match (evaluate_rule rule t v p now) (evaluate_rules rest t v p now)
