-- ===== src/Gateway/Api/Managed.antt =====
-- `get_session` and `get_db_session` of shared/db/session.py, the session that FastAPI hands to an
-- endpoint, and what it adds to the endpoints.
use rt_financial_anomaly_det.Prelude.{ℕ, ◌≡◌, refl, ap, arith, String, Bool, true, false, Option}
use rt_financial_anomaly_det.Shared.Enums.{approved, blocked, false_positive}
use rt_financial_anomaly_det.Shared.Errors.{database_error}
use rt_financial_anomaly_det.Shared.Json.{Fields}
use rt_financial_anomaly_det.Shared.Models.{Database}
use rt_financial_anomaly_det.Shared.Session.{Env, Result, ok, err, Session, Exec, in_session}
use rt_financial_anomaly_det.Alerts.Actions.{
  Resolution, resolve_alert, finish_resolution, not_resolvable,
}
use rt_financial_anomaly_det.Alerts.Queries.{AlertFilter, get_alerts, get_alert_by_id}
use rt_financial_anomaly_det.Gateway.Ingestion.{
  TransactionCreateRequest, submit_transaction, finish_submission,
}
use rt_financial_anomaly_det.Gateway.Ingestion
use rt_financial_anomaly_det.Gateway.Api.{
  ActionRequest, resolution_of, approve_alert, block_alert, mark_alert_false_positive,
  create_transaction, list_alerts, get_alert_detail, get_transaction,
}

-- the commit after the endpoint returned
abbrev pub after_endpoint : {A : Type 0} → Bool → Result A × Session → Result A × Session
after_endpoint accepted (err e, s) = (err e, s)
after_endpoint true (ok a, s) = (ok a, record s { committed = s.working })
after_endpoint false (ok a, s) = (err database_error, s)

-- what is in the database when the session is closed
abbrev pub closed : {A : Type 0} → Result A × Session → Result A × Database
closed (r, s) = (r, s.committed)

-- an endpoint in its session: the commit at its end, and the rollback of every exception
unfoldable pub get_session : {A : Type 0} → Bool → Exec A → Database → Result A × Database
get_session accepted endpoint db =
    closed (after_endpoint accepted (endpoint (record { committed = db; working = db })))

-- The session of an endpoint that returned has nothing left to commit.
abbrev Settled : {A : Type 0} → Result A × Session → Type 0
Settled (ok a, s) = s.working ≡ s.committed
Settled (err e, s) = Unit

abbrev opened : Database → Session
opened db = record { committed = db; working = db }

closed-Settled :
    {A : Type 0} (o : Result A × Session) → Settled o → closed (after_endpoint true o) ≡ closed o
closed-Settled (ok a, s) h = ap (λ d. (ok a, d)) h
closed-Settled (err e, s) h = refl

get_session-Settled :
    {A : Type 0} (m : Exec A) (db : Database)
    → Settled (m (opened db))
    → get_session true m db ≡ in_session m db
unfolding get_session
get_session-Settled m db h = closed-Settled (m (opened db)) h

resolve-Settled :
    (env : Env) (r : Resolution) (db : Database) → Settled (resolve_alert env r (opened db))
unfolding resolve_alert finish_resolution not_resolvable
resolve-Settled env r db = ground arith

submit-Settled :
    (uuid_text : ℕ → String) (env : Env) (carrier : Fields) (payload : TransactionCreateRequest)
    (corr : Option ℕ) (db : Database)
    → Settled (submit_transaction uuid_text env carrier payload corr (opened db))
unfolding submit_transaction finish_submission
submit-Settled uuid_text env carrier payload corr db = ground arith

get_alerts-Settled :
    (f : AlertFilter) (page page_size : ℕ) (db : Database)
    → Settled (get_alerts f page page_size (opened db))
unfolding get_alerts
get_alerts-Settled f page page_size db = refl

get_alert_by_id-Settled :
    (alert_id : ℕ) (db : Database) → Settled (get_alert_by_id alert_id (opened db))
unfolding get_alert_by_id
get_alert_by_id-Settled alert_id db = ground arith

get_transaction-Settled :
    (transaction_id : ℕ) (db : Database)
    → Settled (Ingestion.get_transaction transaction_id (opened db))
unfolding Ingestion.get_transaction
get_transaction-Settled transaction_id db = ground arith

-- Where the server accepts the commit at its end, the session that the framework puts around an
-- endpoint changes nothing: every endpoint answers, and leaves the database, as in a session of its
-- own, since what it wrote is committed or lost when it returns or raises.
pub get_session_endpoints :
    (parse_uuid : String → Option ℕ) (env : Env) (correlation_id : String) (q : ActionRequest)
    (uuid_text : ℕ → String) (carrier : Fields) (payload : TransactionCreateRequest)
    (f : AlertFilter) (page page_size id : ℕ) (db : Database)
    → (get_session true (approve_alert parse_uuid env correlation_id q) db
        ≡ in_session (approve_alert parse_uuid env correlation_id q) db)
      × (get_session true (block_alert parse_uuid env correlation_id q) db
          ≡ in_session (block_alert parse_uuid env correlation_id q) db)
      × (get_session true (mark_alert_false_positive parse_uuid env correlation_id q) db
          ≡ in_session (mark_alert_false_positive parse_uuid env correlation_id q) db)
      × (get_session true
            (create_transaction parse_uuid env correlation_id uuid_text carrier payload)
            db
          ≡ in_session
              (create_transaction parse_uuid env correlation_id uuid_text carrier payload)
              db)
      × (get_session true (list_alerts f page page_size) db
          ≡ in_session (list_alerts f page page_size) db)
      × (get_session true (get_alert_detail id) db ≡ in_session (get_alert_detail id) db)
      × (get_session true (get_transaction id) db ≡ in_session (get_transaction id) db)
unfolding approve_alert block_alert mark_alert_false_positive create_transaction list_alerts
    get_alert_detail get_transaction
get_session_endpoints parse_uuid env correlation_id q uuid_text carrier payload f page page_size id
      db =
    (
      get_session-Settled _ db
          (resolve-Settled env (resolution_of parse_uuid env correlation_id approved q) db),
      get_session-Settled _ db
          (resolve-Settled env (resolution_of parse_uuid env correlation_id blocked q) db),
      get_session-Settled _ db
          (resolve-Settled env (resolution_of parse_uuid env correlation_id false_positive q) db),
      get_session-Settled _ db
          (submit-Settled uuid_text env carrier payload (parse_uuid correlation_id) db),
      get_session-Settled _ db (get_alerts-Settled f page page_size db),
      get_session-Settled _ db (get_alert_by_id-Settled id db),
      get_session-Settled _ db (get_transaction-Settled id db),
    )
