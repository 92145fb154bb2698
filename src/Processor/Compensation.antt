-- ===== src/Processor/Compensation.antt =====
-- `RiskCompensationService` of services/processor/services/compensation_service.py: the risk
-- profile of a user after an alert was resolved as a false positive.
use rt_financial_anomaly_det.Prelude.{
  ℕ, zero, suc, ◌+◌, ◌-◌, ◌*◌, ◌≤◌, ◌≡◌, Option, none, some, [], ◌∷◌, ◌++◌, min, max, select,
  update, arith,
}
use rt_financial_anomaly_det.Shared.Models.{RiskProfile, Database}
use rt_financial_anomaly_det.Shared.Session.{Exec, ◌>>=◌, query, execute, scalar_one_or_none}
use rt_financial_anomaly_det.Processor.Context.{has_user}

-- `max(0, total_alerts - false_positive_count)`; the subtraction stops at 0
abbrev pub effective_alerts : ℕ → ℕ → ℕ
effective_alerts total_alerts false_positive_count = total_alerts - false_positive_count

-- the score for the alerts and the false positives of a user, in ten-thousandths
unfoldable pub compensated_score : ℕ → ℕ → ℕ
compensated_score zero false_positive_count = max 0 (min 10000 0)
compensated_score (suc n) false_positive_count =
    max 0 (min 10000 (min 10000 (effective_alerts (suc n) false_positive_count * 2500)))

abbrev pub compensated : ℕ → RiskProfile → RiskProfile
compensated now p = record p {
  false_positive_count = p.false_positive_count + 1;
  risk_score = compensated_score p.total_alerts (p.false_positive_count + 1);
  last_recalculated_at = now;
}

abbrev pub initial_profile : ℕ → ℕ → RiskProfile
initial_profile now user_id = record {
  user_id = user_id;
  risk_score = 0;
  total_alerts = 0;
  false_positive_count = 1;
  last_recalculated_at = now;
}

unfoldable pub write_compensation : ℕ → ℕ → Option RiskProfile → Database → Database
write_compensation now user_id none db = record db {
  risk_profiles = db.risk_profiles ++ initial_profile now user_id ∷ [];
}
write_compensation now user_id (some p) db = record db {
  risk_profiles = update (has_user p.user_id) (compensated now) db.risk_profiles;
}

unfoldable pub recalculate_user_risk_profile : ℕ → ℕ → Exec (Unit {0})
unfolding write_compensation
recalculate_user_risk_profile now user_id = do
  rows ← query (λ db. select (has_user user_id) db.risk_profiles)
  profile ← scalar_one_or_none rows
  execute (write_compensation now user_id profile)

-- The score is at most one, does not rise with one more false positive, is zero without an alert
-- that was no false positive, and is one from four such alerts on.
pub compensated_score_bounds :
    (total fp : ℕ)
    → (compensated_score total fp ≤ 10000)
      × (compensated_score total (suc fp) ≤ compensated_score total fp)
      × ((total ≤ fp) → compensated_score total fp ≡ 0)
      × ((fp + 4 ≤ total) → compensated_score total fp ≡ 10000)
unfolding compensated_score
compensated_score_bounds zero fp =
    (omega arith, omega arith, (λ h. omega arith), (λ h. omega arith))
compensated_score_bounds (suc n) fp =
    (omega arith, omega arith, (λ h. omega arith), (λ h. omega arith))
