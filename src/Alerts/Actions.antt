-- ===== src/Alerts/Actions.antt =====
-- `AlertActionService.resolve_alert` of services/gateway/services/alert_actions.py.
pub mod Atomicity
pub mod Races
use rt_financial_anomaly_det.Prelude.{
  ℕ, String, Bool, ◌&&◌, ◌||◌, Option, none, some, [], ◌∷◌, ◌++◌, map, ◌==◌, if◌then◌else◌, head?,
  select, update,
}
use rt_financial_anomaly_det.Shared.Enums.{
  AlertStatus, OutboxStatus, escalated_email, escalated_slack, approved, blocked, false_positive,
  same_status, status_value, severity_value,
}
use rt_financial_anomaly_det.Shared.Errors.{
  resource_not_found, invalid_state_transition, validation, key_error, value_error,
}
use rt_financial_anomaly_det.Shared.Events.{
  default_event_version, event_alert_approved, event_alert_blocked, event_alert_false_positive,
  event_risk_profile_recalculate,
}
use rt_financial_anomaly_det.Shared.Json.{Json, null, text, uuid, time, Fields, dict}
use rt_financial_anomaly_det.Shared.Models.{Alert, AuditLog, OutboxEvent, Database}
use rt_financial_anomaly_det.Shared.Session.{
  Env, Exec, ◌>>=◌, ◌>>◌, pure, raise, require, or_raise, query, execute, commit,
  scalar_one_or_none,
}

-- `status in VALID_PRE_RESOLUTION_STATUSES`
unfoldable pub is_valid_pre_resolution : AlertStatus → Bool
is_valid_pre_resolution s =
    same_status s AlertStatus.pending
    || (same_status s escalated_email || same_status s escalated_slack)

-- `target_status in (APPROVED, BLOCKED, FALSE_POSITIVE)`
unfoldable pub is_resolution : AlertStatus → Bool
is_resolution s = same_status s approved || (same_status s blocked || same_status s false_positive)

-- RESOLUTION_EVENT_MAP
unfoldable pub resolution_event : AlertStatus → Option String
resolution_event approved = some event_alert_approved
resolution_event blocked = some event_alert_blocked
resolution_event false_positive = some event_alert_false_positive
resolution_event _ = none

-- f"alert.{target_status.value.lower()}"
unfoldable pub resolution_action : AlertStatus → String
resolution_action AlertStatus.pending = "alert.pending"
resolution_action escalated_email = "alert.escalated_email"
resolution_action escalated_slack = "alert.escalated_slack"
resolution_action approved = "alert.approved"
resolution_action blocked = "alert.blocked"
resolution_action false_positive = "alert.false_positive"

-- The arguments of the call; `correlation_id` is none where the text is no UUID.
pub record Resolution : Type 0 where
  pub alert_id : ℕ
  pub target_status : AlertStatus
  pub actor : String
  pub resolution_reason : Option String
  pub correlation_id : Option ℕ

pub record AlertResolutionResponse : Type 0 where
  pub alert_id : ℕ
  pub status : AlertStatus
  pub resolved_by : String
  pub resolved_at : ℕ
  pub resolution_reason : Option String
  pub correlation_id : ℕ

abbrev pub has_id : ℕ → Alert → Bool
has_id alert_id a = a.id == alert_id

-- the WHERE clause of the conditional UPDATE
unfoldable pub is_resolvable : ℕ → Alert → Bool
unfolding is_valid_pre_resolution
is_resolvable alert_id a = has_id alert_id a && is_valid_pre_resolution a.status

-- its VALUES
unfoldable pub resolved : Env → Resolution → Alert → Alert
resolved env r a = record a {
  status = r.target_status;
  resolved_by = some r.actor;
  resolved_at = some env.now;
  resolution_reason = r.resolution_reason;
}

abbrev pub optional_text : Option String → Json
optional_text none = null
optional_text (some s) = text s

unfoldable pub resolution_audit : Env → Resolution → ℕ → AuditLog
resolution_audit env r corr = record {
  id = env.uuid4 0;
  actor = r.actor;
  action = resolution_action r.target_status;
  entity_type = "Alert";
  entity_id = r.alert_id;
  before = dict (("status", text "UNRESOLVED") ∷ []);
  after = dict (
      ("status", text (status_value r.target_status))
      ∷ ("resolved_by", text r.actor)
      ∷ ("resolution_reason", optional_text r.resolution_reason)
      ∷ []);
  correlation_id = corr;
  created_at = env.now;
}

abbrev pub pending_event : Env → ℕ → String → String → Fields → ℕ → OutboxEvent
pending_event env place event_type producer payload corr = record {
  id = env.uuid4 place;
  event_type = event_type;
  event_version = default_event_version;
  payload = payload;
  correlation_id = corr;
  producer_service = producer;
  status = OutboxStatus.pending;
  retry_count = 0;
  created_at = env.now;
  published_at = none;
}

unfoldable pub resolution_outbox : Env → Resolution → ℕ → String → Alert → OutboxEvent
resolution_outbox env r corr event_type row =
    pending_event env 1 event_type "gateway"
      (dict (
        ("alert_id", uuid r.alert_id)
        ∷ ("transaction_id", uuid row.transaction_id)
        ∷ ("user_id", uuid row.user_id)
        ∷ ("status", text (status_value r.target_status))
        ∷ ("severity", text (severity_value row.severity))
        ∷ ("resolved_by", text r.actor)
        ∷ ("resolved_at", time env.now)
        ∷ ("resolution_reason", optional_text r.resolution_reason)
        ∷ []))
      corr

unfoldable pub compensation_outbox : Env → Resolution → ℕ → Alert → OutboxEvent
compensation_outbox env r corr row =
    pending_event env 2 event_risk_profile_recalculate "gateway"
      (dict (
        ("user_id", uuid row.user_id)
        ∷ ("alert_id", uuid r.alert_id)
        ∷ ("correlation_id", uuid corr)
        ∷ ("reason", text "false_positive_resolution")
        ∷ ("resolved_at", time env.now)
        ∷ []))
      corr

abbrev pub add_audit : AuditLog → Database → Database
add_audit row db = record db { audit_logs = db.audit_logs ++ row ∷ [] }

abbrev pub add_outbox : OutboxEvent → Database → Database
add_outbox row db = record db { outbox_events = db.outbox_events ++ row ∷ [] }

-- the second event of a false positive
unfoldable pub add_compensation : Env → Resolution → ℕ → Alert → Database → Database
add_compensation env r corr row db =
    if same_status r.target_status false_positive
    then add_outbox (compensation_outbox env r corr row) db
    else db

unfoldable pub resolution_response : Env → Resolution → ℕ → AlertResolutionResponse
resolution_response env r corr = record {
  alert_id = r.alert_id;
  status = r.target_status;
  resolved_by = r.actor;
  resolved_at = env.now;
  resolution_reason = r.resolution_reason;
  correlation_id = corr;
}

-- what the check after a lost race raises
unfoldable pub not_resolvable : Resolution → Option Alert → Exec AlertResolutionResponse
not_resolvable r none = raise (resource_not_found "Alert" r.alert_id)
not_resolvable r (some existing) =
    raise (invalid_state_transition existing.status r.target_status r.alert_id)

-- after the UPDATE, on the first row that it returned
unfoldable pub finish_resolution :
    Env → Resolution → ℕ → Option Alert → Exec AlertResolutionResponse
unfolding not_resolvable
finish_resolution env r corr none = do
  rows ← query (λ db. select (has_id r.alert_id) db.alerts)
  existing ← scalar_one_or_none rows
  not_resolvable r existing
finish_resolution env r corr (some row) = do
  execute (add_audit (resolution_audit env r corr))
  event_type ← or_raise (resolution_event r.target_status) key_error
  execute (add_outbox (resolution_outbox env r corr event_type row))
  execute (add_compensation env r corr row)
  commit env.accepted
  pure (resolution_response env r corr)

unfoldable pub resolve_alert : Env → Resolution → Exec AlertResolutionResponse
unfolding finish_resolution
resolve_alert env r = do
  require (is_resolution r.target_status) validation
  corr ← or_raise r.correlation_id value_error
  rows ← query (λ db. map (resolved env r) (select (is_resolvable r.alert_id) db.alerts))
  execute
      (λ db. record db { alerts = update (is_resolvable r.alert_id) (resolved env r) db.alerts })
  finish_resolution env r corr (head? rows)
