-- ===== src/Gateway/Ingestion.antt =====
-- `IngestionService` of services/gateway/services/ingestion.py, and the schemas of
-- services/gateway/schemas/transactions.py that it answers with. `uuid_text` is `str` of a UUID.
pub mod Submission
pub mod Delivered
use Prim.Native.String.{count}
use rt_financial_anomaly_det.Prelude.{
  ℕ, String, Bool, true, false, not, ◌&&◌, Option, none, some, List, [], ◌∷◌, ◌++◌, leb, ◌==◌,
  str_eq, if◌then◌else◌, select,
}
use rt_financial_anomaly_det.Shared.Enums.{TransactionStatus, submitted, AlertStatus, AlertSeverity}
use rt_financial_anomaly_det.Shared.Errors.{resource_not_found, database_error, value_error}
use rt_financial_anomaly_det.Shared.Events.{event_transaction_created}
use rt_financial_anomaly_det.Shared.Json.{Decimal, number, text, uuid, time, object, Fields, dict}
use rt_financial_anomaly_det.Shared.Models.{Transaction, Alert, OutboxEvent, Database}
use rt_financial_anomaly_det.Shared.Session.{
  Env, Exec, ◌>>=◌, ◌>>◌, pure, raise, require, or_raise, query, execute, commit,
  scalar_one_or_none,
}
use rt_financial_anomaly_det.Alerts.Actions.{pending_event, add_outbox}

-- `TransactionCreateRequest`, validated
pub record TransactionCreateRequest : Type 0 where
  pub amount : Decimal
  pub currency : String
  pub country : String
  pub merchant_category : String
  pub user_id : ℕ
  pub idempotency_key : Option String
  pub metadata : Fields

pub record TransactionAcceptedResponse : Type 0 where
  pub transaction_id : ℕ
  pub status : TransactionStatus
  pub correlation_id : ℕ

pub record AlertSummaryResponse : Type 0 where
  pub id : ℕ
  pub status : AlertStatus
  pub severity : AlertSeverity

pub record TransactionDetailResponse : Type 0 where
  pub transaction : Transaction
  pub alert : Option AlertSummaryResponse

-- `payload.idempotency_key or str(uuid.uuid4())`
unfoldable pub key_of : (ℕ → String) → Env → Option String → String
key_of uuid_text env none = uuid_text (env.uuid4 0)
key_of uuid_text env (some key) = if str_eq key "" then uuid_text (env.uuid4 0) else key

abbrev pub has_key_of : String → Transaction → Bool
has_key_of key t = str_eq t.idempotency_key key

unfoldable pub transaction_of : Env → TransactionCreateRequest → String → ℕ → Transaction
transaction_of env payload key corr = record {
  id = env.uuid4 1;
  created_at = env.now;
  user_id = payload.user_id;
  amount = payload.amount;
  currency = payload.currency;
  country = payload.country;
  merchant_category = payload.merchant_category;
  status = submitted;
  idempotency_key = key;
  metadata = payload.metadata;
  correlation_id = corr;
  processed_at = none;
}

unfoldable pub outbox_payload : Env → Fields → TransactionCreateRequest → Fields
outbox_payload env carrier payload = dict (
    ("transaction_id", uuid (env.uuid4 1))
    ∷ ("user_id", uuid payload.user_id)
    ∷ ("amount", number payload.amount)
    ∷ ("currency", text payload.currency)
    ∷ ("country", text payload.country)
    ∷ ("merchant_category", text payload.merchant_category)
    ∷ ("created_at", time env.now)
    ∷ ("metadata", object payload.metadata)
    ∷ ("_trace_context", object carrier)
    ∷ [])

abbrev pub transaction_outbox : Env → Fields → TransactionCreateRequest → ℕ → OutboxEvent
transaction_outbox env carrier payload corr =
    pending_event env 2 event_transaction_created "gateway" (outbox_payload env carrier payload)
      corr

-- `String(100)` of the column; a longer text makes the INSERT fail
abbrev pub fits_column : TransactionCreateRequest → Bool
fits_column payload = leb (count payload.merchant_category) 100

abbrev pub add_transaction : Transaction → Database → Database
add_transaction t db = record db { transactions = db.transactions ++ t ∷ [] }

-- after the look-up of the key
unfoldable pub finish_submission :
    Env
    → Fields
    → TransactionCreateRequest
    → String
    → ℕ
    → Option Transaction
    → Exec TransactionAcceptedResponse
finish_submission env carrier payload key corr (some t) =
    pure (record { transaction_id = t.id; status = t.status; correlation_id = t.correlation_id })
finish_submission env carrier payload key corr none = do
  execute (add_transaction (transaction_of env payload key corr))
  execute (add_outbox (transaction_outbox env carrier payload corr))
  require (fits_column payload) database_error
  commit env.accepted
  pure (record { transaction_id = env.uuid4 1; status = submitted; correlation_id = corr })

-- `submit_transaction`; the correlation id is none where the text is no UUID
unfoldable pub submit_transaction :
    (ℕ → String)
    → Env
    → Fields
    → TransactionCreateRequest
    → Option ℕ
    → Exec TransactionAcceptedResponse
unfolding finish_submission
submit_transaction uuid_text env carrier payload correlation_id = do
  corr ← or_raise correlation_id value_error
  let key : String = key_of uuid_text env payload.idempotency_key
  rows ← query (λ db. select (has_key_of key) db.transactions)
  existing ← scalar_one_or_none rows
  finish_submission env carrier payload key corr existing

unfoldable pub alert_summary : Option Alert → Option AlertSummaryResponse
alert_summary none = none
alert_summary (some a) = some (record { id = a.id; status = a.status; severity = a.severity })

-- `get_transaction`; the response repeats the fields of the row
unfoldable pub get_transaction : ℕ → Exec TransactionDetailResponse
get_transaction transaction_id = do
  rows ← query (λ db. select (λ (t : Transaction). t.id == transaction_id) db.transactions)
  found ← scalar_one_or_none rows
  txn ← or_raise found (resource_not_found "Transaction" transaction_id)
  alerts ← query (λ db. select (λ (a : Alert). a.transaction_id == transaction_id) db.alerts)
  alert ← scalar_one_or_none alerts
  pure (record { transaction = txn; alert = alert_summary alert })
