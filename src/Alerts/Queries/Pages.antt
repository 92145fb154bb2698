-- ===== src/Alerts/Queries/Pages.antt =====
-- The pages of the list of alerts, together.
use rt_financial_anomaly_det.Prelude.{ℕ, zero, suc, List, [], ◌++◌, select}
use rt_financial_anomaly_det.Shared.Models.{Alert}
use rt_financial_anomaly_det.Shared.Session.{Result, ok, err, Session}
use rt_financial_anomaly_det.Alerts.Queries.{
  AlertFilter, AlertSummaryItem, AlertListResponse, passes, newest_first, get_alerts,
}

abbrev pub items_of : Result AlertListResponse → List AlertSummaryItem
items_of (ok response) = response.items
items_of (err e) = []

abbrev pub total_of : Result AlertListResponse → ℕ
total_of (ok response) = response.total
total_of (err e) = 0

-- the items of so many pages from one on, one after the other
unfoldable pub walk : AlertFilter → ℕ → ℕ → ℕ → Session → List AlertSummaryItem
walk f page_size page zero s = []
walk f page_size page (suc n) s =
    items_of (get_alerts f page page_size s).0 ++ walk f page_size (suc page) n s

module _ (f : AlertFilter) (page_size : ℕ) (s : Session) where
  abbrev all_rows : List Alert
  all_rows = newest_first (select (passes f) s.working.alerts)
