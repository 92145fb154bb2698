-- ===== src/Processor/RuleCache.antt =====
-- `RuleCache` of services/processor/services/rule_cache.py. A call that finds the cache too old
-- takes the lock and looks again: what other calls did meanwhile is an argument.
use rt_financial_anomaly_det.Prelude.{
  ℕ, ◌+◌, ◌≡◌, ◌∙◌, refl, inl, inr, String, Bool, true, ◌||◌, Option, none, some, List, [], ◌∷◌,
  arith, leb, str_eq, if◌then◌else◌, select, All, Bool-cases,
}
use rt_financial_anomaly_det.Prelude.Keys.{All-selected}
use rt_financial_anomaly_det.Shared.Enums.{
  AlertSeverity, low, medium, high, critical, RuleType, amount_threshold, high_risk_country,
  velocity, user_risk_level, merchant_category, rule_type_value, severity_value,
}
use rt_financial_anomaly_det.Shared.Models.{FraudRule, Database}
use rt_financial_anomaly_det.Detection.Schemas.{RuleDefinition}

-- `RuleType(text)`; none is a ValueError
unfoldable pub rule_type_of : String → Option RuleType
rule_type_of s =
    if str_eq s "AMOUNT_THRESHOLD"
    then some amount_threshold
    else if str_eq s "HIGH_RISK_COUNTRY"
    then some high_risk_country
    else if str_eq s "VELOCITY"
    then some velocity
    else if str_eq s "USER_RISK_LEVEL"
    then some user_risk_level
    else if str_eq s "MERCHANT_CATEGORY"
    then some merchant_category
    else none

-- `AlertSeverity(text)`
unfoldable pub severity_of : String → Option AlertSeverity
severity_of s =
    if str_eq s "LOW"
    then some low
    else if str_eq s "MEDIUM"
    then some medium
    else if str_eq s "HIGH"
    then some high
    else if str_eq s "CRITICAL"
    then some critical
    else none

-- one row of `fraud_rules`; a row that raises is skipped
unfoldable pub definition_of : FraudRule → Option RuleDefinition
definition_of r = elim (rule_type_of r.rule_type) [
  | none ↦ none
  | some rule_type ↦ elim (severity_of r.severity) [
    | none ↦ none
    | some severity ↦ some (record {
      id = r.id;
      name = r.name;
      rule_type = rule_type;
      parameters = r.parameters;
      severity = severity;
      enabled = r.enabled;
    })
  ]
]

abbrev append_definition : Option RuleDefinition → List RuleDefinition → List RuleDefinition
append_definition none rest = rest
append_definition (some rule) rest = rule ∷ rest

unfoldable pub loaded_rules : List FraudRule → List RuleDefinition
loaded_rules [] = []
loaded_rules (r ∷ rest) = append_definition (definition_of r) (loaded_rules rest)

-- the rows of the SELECT, as definitions
unfoldable pub load : Database → List RuleDefinition
unfolding loaded_rules
load db = loaded_rules (select (λ (r : FraudRule). r.enabled) db.fraud_rules)

pub record RuleCache : Type 0 where
  pub rules : List RuleDefinition
  pub last_refreshed_at : Option ℕ

-- `(now - last_refreshed_at) >= ttl`
unfoldable pub is_expired : ℕ → ℕ → Option ℕ → Bool
is_expired ttl now none = true
is_expired ttl now (some t) = leb (t + ttl) now

-- `get_active_rules`: `now` and `cache` are the clock and the cache at the call, `later` and
-- `found` those under the lock
unfoldable pub get_active_rules :
    ℕ → Bool → ℕ → RuleCache → ℕ → RuleCache → Database → List RuleDefinition × RuleCache
get_active_rules ttl force_refresh now cache later found db =
    if force_refresh || is_expired ttl now cache.last_refreshed_at
    then (if force_refresh || is_expired ttl later found.last_refreshed_at
        then (load db, record { rules = load db; last_refreshed_at = some later })
        else (found.rules, found))
    else (cache.rules, cache)

-- The names of the types and severities that the enums write are read back.
pub rule_type_of-rule_type_value :
    (t : RuleType) (s : AlertSeverity)
    → (rule_type_of (rule_type_value t) ≡ some t) × (severity_of (severity_value s) ≡ some s)
unfolding rule_type_of rule_type_value severity_of severity_value
rule_type_of-rule_type_value t s = (type t, severity s)
  where
    type : (t : RuleType) → rule_type_of (rule_type_value t) ≡ some t
    type amount_threshold = refl
    type high_risk_country = refl
    type velocity = refl
    type user_risk_level = refl
    type merchant_category = refl

    severity : (s : AlertSeverity) → severity_of (severity_value s) ≡ some s
    severity low = refl
    severity medium = refl
    severity high = refl
    severity critical = refl

abbrev pub AllEnabled : List RuleDefinition → Type 0
AllEnabled = All (λ (r : RuleDefinition). r.enabled ≡ true)

enabled_of :
    (r : FraudRule) (rule : RuleDefinition) → definition_of r ≡ some rule → rule.enabled ≡ r.enabled
unfolding definition_of
enabled_of r rule h = ground arith

append_definition-AllEnabled :
    (o : Option RuleDefinition) (rest : List RuleDefinition)
    → ((rule : RuleDefinition) → o ≡ some rule → rule.enabled ≡ true)
    → AllEnabled rest
    → AllEnabled (append_definition o rest)
append_definition-AllEnabled none rest h all = all
append_definition-AllEnabled (some rule) rest h all = (h rule refl, all)

loaded_rules-AllEnabled :
    (rows : List FraudRule)
    → All (λ (r : FraudRule). r.enabled ≡ true) rows
    → AllEnabled (loaded_rules rows)
unfolding loaded_rules
loaded_rules-AllEnabled [] h = tt
loaded_rules-AllEnabled (r ∷ rest) h =
    append_definition-AllEnabled (definition_of r) (loaded_rules rest)
      (λ rule e. enabled_of r rule e ∙ h.0) (loaded_rules-AllEnabled rest h.1)

pub load-AllEnabled : (db : Database) → AllEnabled (load db)
unfolding load
load-AllEnabled db =
    loaded_rules-AllEnabled _ (All-selected (λ (r : FraudRule). r.enabled) db.fraud_rules)

module _ (ttl : ℕ) (force_refresh : Bool) (now : ℕ) (cache : RuleCache) (later : ℕ)
    (found : RuleCache) (db : Database) where
  abbrev answer : List RuleDefinition × RuleCache
  answer = get_active_rules ttl force_refresh now cache later found db

  -- If the caches that a call finds hold enabled rules only, so does its answer.
  pub get_active_rules-AllEnabled :
      AllEnabled cache.rules → AllEnabled found.rules → AllEnabled answer.0
  unfolding get_active_rules
  get_active_rules-AllEnabled h k =
      elim (Bool-cases (force_refresh || is_expired ttl now cache.last_refreshed_at)) [
        | inr fresh ↦ rw fresh h
        | inl old ↦
            elim (Bool-cases (force_refresh || is_expired ttl later found.last_refreshed_at)) [
              | inl still ↦ rw (old, still) (load-AllEnabled db)
              | inr fresh ↦ rw (old, fresh) k
            ]
      ]
