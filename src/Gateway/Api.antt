-- ===== src/Gateway/Api.antt =====
-- The endpoints of services/gateway/api/alerts.py and transactions.py, the exception handlers of
-- services/gateway/main.py, and the correlation id of a request: services/gateway/middleware/correlation.py
-- and shared/context/correlation.py. FastAPI's own validation of a request is before all of it.
pub mod Answers
pub mod Managed
use rt_financial_anomaly_det.Prelude.{
  ℕ, String, Bool, true, false, Option, none, some, str_eq, if◌then◌else◌,
}
use rt_financial_anomaly_det.Shared.Enums.{AlertStatus, approved, blocked, false_positive}
use rt_financial_anomaly_det.Shared.Errors.{
  Error, database_error, redis_error, multiple_results_found, key_error, value_error,
  attribute_error, status_code, error_code,
}
use rt_financial_anomaly_det.Shared.Json.{Fields}
use rt_financial_anomaly_det.Shared.Models.{Alert}
use rt_financial_anomaly_det.Shared.Session.{Env, Exec, Result, ok, err}
use rt_financial_anomaly_det.Detection.Values.{TextOps}
use rt_financial_anomaly_det.Alerts.Actions.{AlertResolutionResponse, Resolution, resolve_alert}
use rt_financial_anomaly_det.Alerts.Queries.{
  AlertFilter, AlertListResponse, get_alerts, get_alert_by_id,
}
use rt_financial_anomaly_det.Gateway.Ingestion.{
  TransactionCreateRequest, TransactionAcceptedResponse, TransactionDetailResponse,
  submit_transaction,
}
use rt_financial_anomaly_det.Gateway.Ingestion

-- The correlation id. `fresh` is the text of the UUID that the middleware makes, `other` that of the
-- one that `set_correlation_id` makes; none is a request without the header.
abbrev pub is_empty : String → Bool
is_empty s = str_eq s ""

-- `set_correlation_id`
unfoldable pub set_correlation_id : TextOps → String → String → String
set_correlation_id ops other correlation_id =
    if is_empty correlation_id
    then other
    else if is_empty (ops.strip correlation_id)
    then other
    else ops.strip correlation_id

-- the id that the middleware takes, and answers in the header of the response
unfoldable pub incoming_id : TextOps → String → Option String → String
incoming_id ops fresh none = fresh
incoming_id ops fresh (some header) = if is_empty header then fresh else ops.strip header

-- `CorrelationIdMiddleware.dispatch`: what `get_correlation_id` gives in the handlers
unfoldable pub request_id : TextOps → String → String → Option String → String
unfolding set_correlation_id incoming_id
request_id ops fresh other header = set_correlation_id ops other (incoming_id ops fresh header)

-- a request on an alert
pub record ActionRequest : Type 0 where
  pub alert_id : ℕ
  pub resolution_reason : Option String
  pub x_actor : Option String

-- `x_actor or "analyst_system"`, which is also the default of the header
abbrev pub actor_of : Option String → String
actor_of none = "analyst_system"
actor_of (some actor) = if is_empty actor then "analyst_system" else actor

-- `uuid.UUID(text)`, none where it raises
module _ (parse_uuid : String → Option ℕ) (env : Env) (correlation_id : String) where
  unfoldable pub resolution_of : AlertStatus → ActionRequest → Resolution
  resolution_of target_status q = record {
    alert_id = q.alert_id;
    target_status = target_status;
    actor = actor_of q.x_actor;
    resolution_reason = q.resolution_reason;
    correlation_id = parse_uuid correlation_id;
  }

  unfoldable pub approve_alert : ActionRequest → Exec AlertResolutionResponse
  unfolding resolution_of
  approve_alert q = resolve_alert env (resolution_of approved q)

  unfoldable pub block_alert : ActionRequest → Exec AlertResolutionResponse
  unfolding resolution_of
  block_alert q = resolve_alert env (resolution_of blocked q)

  unfoldable pub mark_alert_false_positive : ActionRequest → Exec AlertResolutionResponse
  unfolding resolution_of
  mark_alert_false_positive q = resolve_alert env (resolution_of false_positive q)

  unfoldable pub create_transaction :
      (ℕ → String) → Fields → TransactionCreateRequest → Exec TransactionAcceptedResponse
  create_transaction uuid_text carrier payload =
      submit_transaction uuid_text env carrier payload (parse_uuid correlation_id)

unfoldable pub list_alerts : AlertFilter → ℕ → ℕ → Exec AlertListResponse
list_alerts f page page_size = get_alerts f page page_size

unfoldable pub get_alert_detail : ℕ → Exec Alert
get_alert_detail alert_id = get_alert_by_id alert_id

unfoldable pub get_transaction : ℕ → Exec TransactionDetailResponse
get_transaction transaction_id = Ingestion.get_transaction transaction_id

-- the status and the code of the response to an exception
unfoldable pub error_response : Error → ℕ × String
unfolding status_code error_code
error_response database_error = (503, "SERVICE_UNAVAILABLE")
error_response multiple_results_found = (503, "SERVICE_UNAVAILABLE")
error_response redis_error = (500, "INTERNAL_ERROR")
error_response key_error = (500, "INTERNAL_ERROR")
error_response value_error = (500, "INTERNAL_ERROR")
error_response attribute_error = (500, "INTERNAL_ERROR")
error_response e = (status_code e, error_code e)

-- the status of the response; `success` is that of the endpoint
unfoldable pub response_status : {A : Type 0} → ℕ → Result A → ℕ
unfolding error_response
response_status success (ok a) = success
response_status success (err e) = (error_response e).0
