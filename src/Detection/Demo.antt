-- ===== src/Detection/Demo.antt =====
-- services/processor/domain/demo_strategy.py. The subclasses of `DemoOverrideStrategy` are the
-- constructors of a data type.
use Prim.Native.String.{◌++◌ as str_append}
use rt_financial_anomaly_det.Prelude.{
  ℕ, ◌≡◌, refl, String, Bool, true, false, Option, none, some, [], ◌∷◌, ◌++◌, if◌then◌else◌,
}
use rt_financial_anomaly_det.Shared.Enums.{critical, severity_value}
use rt_financial_anomaly_det.Shared.Json.{Json, text, get, dict}
use rt_financial_anomaly_det.Detection.Schemas.{
  TransactionContext, RuleMatch, demo_forced, DetectionResult, demo_scenario,
}
use rt_financial_anomaly_det.Detection.Values.{TextOps, truthy}
use rt_financial_anomaly_det.Detection.Scoring.{one}

pub data DemoOverrideStrategy : Type 0 where
  null_demo_strategy deterministic_demo_strategy : DemoOverrideStrategy

-- the match that explains a forced alert
unfoldable pub demo_match : String → ℕ → RuleMatch
demo_match scenario now = record {
  rule_id = 0;
  rule_name = str_append "Demo Scenario: " scenario;
  rule_type = "DEMO_SCENARIO";
  severity = severity_value critical;
  explanation = demo_forced scenario;
  parameters_snapshot = dict (("demo_scenario", text scenario) ∷ []);
  matched_at = now;
}

unfoldable pub force_alert : String → ℕ → DetectionResult → DetectionResult
unfolding demo_match
force_alert scenario now decision = record {
  should_alert = true;
  severity = critical;
  composite_risk_score = one;
  rule_severity_score = one;
  ml_anomaly_score = decision.ml_anomaly_score;
  user_risk_score = decision.user_risk_score;
  rule_matches = decision.rule_matches ++ demo_match scenario now ∷ [];
  risk_profile_snapshot = decision.risk_profile_snapshot;
  is_demo = true;
  explanation = some (demo_scenario scenario ∷ []);
}

-- `if not scenario: return decision`
unfoldable pub force_if : TextOps → Option Json → ℕ → DetectionResult → DetectionResult
unfolding force_alert
force_if ops none now decision = decision
force_if ops (some scenario) now decision =
    if truthy (some scenario) then force_alert (ops.str scenario) now decision else decision

unfoldable pub override :
    TextOps → DemoOverrideStrategy → TransactionContext → ℕ → DetectionResult → DetectionResult
unfolding force_if
override ops null_demo_strategy transaction now decision = decision
override ops deterministic_demo_strategy transaction now decision =
    force_if ops (get "demo_scenario" transaction.metadata) now decision

unfoldable pub get_demo_strategy : Bool → DemoOverrideStrategy
get_demo_strategy demo_mode = if demo_mode then deterministic_demo_strategy else null_demo_strategy

-- A CRITICAL demo alert that keeps the matches found, the model's score and the user's.
pub record IsForced (decision d : DetectionResult) : Type 0 where
  pub alerts : d.should_alert ≡ true
  pub severity : d.severity ≡ critical
  pub demo : d.is_demo ≡ true
  pub added : RuleMatch
  pub matches : d.rule_matches ≡ decision.rule_matches ++ added ∷ []
  pub ml : d.ml_anomaly_score ≡ decision.ml_anomaly_score
  pub user : d.user_risk_score ≡ decision.user_risk_score

force_alert-IsForced :
    (scenario : String) (now : ℕ) (decision : DetectionResult)
    → IsForced decision (force_alert scenario now decision)
unfolding force_alert
force_alert-IsForced scenario now decision = record {
  alerts = refl;
  severity = refl;
  demo = refl;
  added = demo_match scenario now;
  matches = refl;
  ml = refl;
  user = refl;
}

module _ (ops : TextOps) (now : ℕ) (decision : DetectionResult) where
  untagged : (o : Option Json) → truthy o ≡ false → force_if ops o now decision ≡ decision
  unfolding force_if
  untagged none h = refl
  untagged (some scenario) h = rw h refl

  tagged : (o : Option Json) → truthy o ≡ true → IsForced decision (force_if ops o now decision)
  unfolding force_if truthy
  tagged none h = cc
  tagged (some scenario) h = rw h (force_alert-IsForced (ops.str scenario) now decision)

-- Without DEMO_MODE no decision changes, whatever a client puts into the metadata. With it a
-- decision changes only if the transaction names a scenario, and then it becomes a CRITICAL demo
-- alert that keeps the matches found, the model's score and the user's.
pub override_effect :
    (ops : TextOps) (transaction : TransactionContext) (now : ℕ) (decision : DetectionResult)
    → let scenario = get "demo_scenario" transaction.metadata in
      (override ops (get_demo_strategy false) transaction now decision ≡ decision)
      × (truthy scenario ≡ false
          → override ops (get_demo_strategy true) transaction now decision ≡ decision)
      × (truthy scenario ≡ true
          → IsForced decision (override ops (get_demo_strategy true) transaction now decision))
unfolding override get_demo_strategy
override_effect ops transaction now decision = (
  refl,
  untagged ops now decision (get "demo_scenario" transaction.metadata),
  tagged ops now decision (get "demo_scenario" transaction.metadata),
)
