-- ===== src/Alerts/Queries.antt =====
-- `get_alerts` and `get_alert_by_id` of services/gateway/services/alert_actions.py. Rows with one
-- time of creation keep the order of the table, which SQL leaves open.
pub mod Selected
pub mod Pages
use rt_financial_anomaly_det.Prelude.{
  ℕ, zero, suc, ◌+◌, ◌-◌, ◌*◌, ◌≤◌, ◌<◌, ◌≡◌, refl, sym, ◌∙◌, ap, String, Bool, true, false, ◌&&◌,
  Option, none, some, List, [], ◌∷◌, ◌++◌, map, append_assoc, append-nil, arith, leb, ◌==◌, length,
  take, select, matches, if◌then◌else◌, Bool-cases, inl, inr,
}
use rt_financial_anomaly_det.Shared.Enums.{AlertStatus, AlertSeverity, same_status, severity_rank}
use rt_financial_anomaly_det.Shared.Errors.{resource_not_found}
use rt_financial_anomaly_det.Shared.Json.{Json, null, array, nil, object, end, Fields}
use rt_financial_anomaly_det.Shared.Models.{Alert, Database}
use rt_financial_anomaly_det.Shared.Session.{Exec, ◌>>=◌, pure, or_raise, query, scalar_one_or_none}
use rt_financial_anomaly_det.Detection.Values.{truthy}
use rt_financial_anomaly_det.Alerts.Actions.{has_id}

pub record AlertFilter : Type 0 where
  pub status : Option AlertStatus
  pub severity : Option AlertSeverity
  pub from_time : Option ℕ
  pub to_time : Option ℕ

-- a condition that is added only where its parameter is given
abbrev pub given : {A : Type 0} → Option A → (A → Bool) → Bool
given none test = true
given (some a) test = test a

-- the conjunction of the conditions
unfoldable pub passes : AlertFilter → Alert → Bool
passes f a =
    given f.status (λ s. same_status a.status s)
    && given f.severity (λ s. severity_rank a.severity == severity_rank s)
    && given f.from_time (λ t. leb t a.created_at)
    && given f.to_time (λ t. leb a.created_at t)

module _ {ℓ} {A : Type ℓ} where
  -- OFFSET
  abbrev pub drop : ℕ → List A → List A
  drop zero xs = xs
  drop (suc n) [] = []
  drop (suc n) (x ∷ xs) = drop n xs

-- ORDER BY created_at DESC
unfoldable pub insert_newest : Alert → List Alert → List Alert
insert_newest a [] = a ∷ []
insert_newest a (b ∷ rest) =
    let later = b ∷ insert_newest a rest in
    if leb b.created_at a.created_at then a ∷ b ∷ rest else later

unfoldable pub newest_first : List Alert → List Alert
unfolding insert_newest
newest_first [] = []
newest_first (a ∷ rest) = insert_newest a (newest_first rest)

pub record AlertSummaryItem : Type 0 where
  pub id : ℕ
  pub transaction_id : ℕ
  pub user_id : ℕ
  pub status : AlertStatus
  pub severity : AlertSeverity
  pub composite_risk_score : ℕ
  pub is_demo : Bool
  pub created_at : ℕ

pub record AlertListResponse : Type 0 where
  pub items : List AlertSummaryItem
  pub page : ℕ
  pub page_size : ℕ
  pub total : ℕ

unfoldable pub summary_of : Alert → AlertSummaryItem
summary_of row = record {
  id = row.id;
  transaction_id = row.transaction_id;
  user_id = row.user_id;
  status = row.status;
  severity = row.severity;
  composite_risk_score = row.composite_risk_score;
  is_demo = row.is_demo;
  created_at = row.created_at;
}

-- the rows of a page; the API admits pages from 1 on
unfoldable pub page_rows : AlertFilter → ℕ → ℕ → List Alert → List Alert
unfolding newest_first passes
page_rows f page page_size alerts =
    take page_size (drop ((page - 1) * page_size) (newest_first (select (passes f) alerts)))

unfoldable pub get_alerts : AlertFilter → ℕ → ℕ → Exec AlertListResponse
unfolding page_rows passes summary_of
get_alerts f page page_size = do
  total ← query (λ db. matches (passes f) db.alerts)
  rows ← query (λ db. page_rows f page page_size db.alerts)
  pure (record { items = map summary_of rows; page = page; page_size = page_size; total = total })

-- `alert.rule_matches or []`
unfoldable pub matches_or_empty : Json → Json
unfolding truthy
matches_or_empty rule_matches = if truthy (some rule_matches) then rule_matches else array nil

-- the row with its matches; an empty snapshot is the empty dict already
unfoldable pub detail_of : Alert → Alert
unfolding matches_or_empty
detail_of row = record row { rule_matches = matches_or_empty row.rule_matches }

unfoldable pub get_alert_by_id : ℕ → Exec Alert
unfolding detail_of
get_alert_by_id alert_id = do
  rows ← query (λ db. select (has_id alert_id) db.alerts)
  row ← scalar_one_or_none rows
  alert ← or_raise row (resource_not_found "Alert" alert_id)
  pure (detail_of alert)
