-- ===== src/Processor/CompensationConsumer/Requested.antt =====
-- The event that a false positive requests its compensation with, as the consumer reads it.
use rt_financial_anomaly_det.Prelude.{
  ℕ, ◌+◌, ◌-◌, ◌*◌, min, List, [], ◌∷◌, ◌++◌, any, update, ◌==◌, if◌then◌else◌,
}
use rt_financial_anomaly_det.Shared.Models.{Alert, RiskProfile, Database}
use rt_financial_anomaly_det.Shared.Session.{Env}
use rt_financial_anomaly_det.Alerts.Actions.{Resolution}
use rt_financial_anomaly_det.Processor.Messages.{Consumer}

-- A false positive in the profile of a user: one more, and the score from the alerts that were none,
-- a quarter for each and at most one; or a first profile.
abbrev pub corrected_profiles : ℕ → ℕ → List RiskProfile → List RiskProfile
corrected_profiles now user_id rows =
    if any (λ (p : RiskProfile). p.user_id == user_id) rows
    then update (λ (p : RiskProfile). p.user_id == user_id)
        (λ (p : RiskProfile). record p {
          false_positive_count = p.false_positive_count + 1;
          risk_score = min 10000 ((p.total_alerts - (p.false_positive_count + 1)) * 2500);
          last_recalculated_at = now;
        })
        rows
    else rows
      ++ record {
        user_id = user_id;
        risk_score = 0;
        total_alerts = 0;
        false_positive_count = 1;
        last_recalculated_at = now;
      }
        ∷ []

abbrev pub compensated_database : Consumer → ℕ → ℕ → ℕ → Database → Database
compensated_database consumer event_id now user_id db = record db {
  risk_profiles = corrected_profiles now user_id db.risk_profiles;
  processed_events =
      db.processed_events
      ++ record { event_id = event_id; consumer_group = consumer.group; processed_at = now } ∷ [];
}

-- The session of the event that the gateway writes with a false positive.
module _ (consumer : Consumer) (env env' : Env) (r : Resolution) (corr event_id : ℕ) (row : Alert)
    (db : Database) where
  abbrev compensated_with : List RiskProfile → Database
  compensated_with profiles = record db {
    risk_profiles = profiles;
    processed_events =
        db.processed_events
        ++ record { event_id = event_id; consumer_group = consumer.group; processed_at = env'.now }
          ∷ [];
  }
