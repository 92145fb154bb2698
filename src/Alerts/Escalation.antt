-- ===== src/Alerts/Escalation.antt =====
-- `EscalationScheduler.run_escalation_tick` of
-- services/processor/scheduler/escalation_scheduler.py. The two tiers are the same code at other
-- names, so they are one definition over a `Tier`. `timedelta(minutes=...)` is a number of
-- microseconds, and `t <= now - d` is written `t + d <= now`.
use rt_financial_anomaly_det.Prelude.{
  ℕ, ◌+◌, String, Bool, false, ◌&&◌, ◌||◌, not, Option, none, some, List, [], ◌∷◌, ltb, leb,
  if◌then◌else◌, head?, take, map, select, update, order_by,
}
use rt_financial_anomaly_det.Shared.Enums.{
  AlertStatus, escalated_email, escalated_slack, same_status, status_value, severity_value,
}
use rt_financial_anomaly_det.Shared.Events.{
  event_escalation_email_requested, event_escalation_slack_requested,
}
use rt_financial_anomaly_det.Shared.Json.{text, uuid, time, number, Fields, dict}
use rt_financial_anomaly_det.Shared.Models.{Alert, AuditLog, Database}
use rt_financial_anomaly_det.Shared.Session.{Env, Exec, ◌>>=◌, ◌>>◌, pure, query, execute, commit}
use rt_financial_anomaly_det.Alerts.Actions.{add_audit, add_outbox, pending_event, has_id}

-- The settings that the tick reads, times in microseconds.
pub record Settings : Type 0 where
  pub escalation_email : ℕ
  pub escalation_slack : ℕ
  pub escalation_batch_size : ℕ

pub record Tier : Type 0 where
  pub source : AlertStatus
  pub target : AlertStatus
  -- the column that the cutoff compares; none is a NULL, which no cutoff selects
  pub since : Alert → Option ℕ
  pub wait : Settings → ℕ
  -- the UPDATE's VALUES
  pub escalated : ℕ → Alert → Alert
  pub action : String
  pub stamp_key : String
  pub event_type : String
  pub escalation_type : String

abbrev pub email_tier : Tier
email_tier = record {
  source = AlertStatus.pending;
  target = escalated_email;
  since = λ a. some a.created_at;
  wait = λ s. s.escalation_email;
  escalated = λ now a. record a { status = escalated_email; escalated_email_at = some now };
  action = "alert.escalated_email";
  stamp_key = "escalated_email_at";
  event_type = event_escalation_email_requested;
  escalation_type = "email";
}

abbrev pub slack_tier : Tier
slack_tier = record {
  source = escalated_email;
  target = escalated_slack;
  since = λ a. a.escalated_email_at;
  wait = λ s. s.escalation_slack;
  escalated = λ now a. record a { status = escalated_slack; escalated_slack_at = some now };
  action = "alert.escalated_slack";
  stamp_key = "escalated_slack_at";
  event_type = event_escalation_slack_requested;
  escalation_type = "slack";
}

abbrev pub reached : Option ℕ → ℕ → ℕ → Bool
reached none wait now = false
reached (some t) wait now = leb (t + wait) now

-- the WHERE clause of the SELECT; rows that another session holds are skipped
unfoldable pub is_due : Tier → Settings → ℕ → (ℕ → Bool) → Alert → Bool
is_due tier settings now locked a =
    same_status a.status tier.source
    && (reached (tier.since a) (tier.wait settings) now && not (locked a.id))

abbrev since_or_zero : Option ℕ → ℕ
since_or_zero none = 0
since_or_zero (some t) = t

unfoldable pub due_alerts : Tier → Settings → ℕ → (ℕ → Bool) → Database → List Alert
due_alerts tier settings now locked db = take settings.escalation_batch_size (
    order_by (λ a. since_or_zero (tier.since a))
      (select (is_due tier settings now locked) db.alerts))

-- the WHERE clause of the conditional UPDATE
unfoldable pub is_still : Tier → ℕ → Alert → Bool
is_still tier alert_id a = has_id alert_id a && same_status a.status tier.source

unfoldable pub escalation_audit : Tier → ℕ → ℕ → Alert → AuditLog
escalation_audit tier now audit_id row = record {
  id = audit_id;
  actor = "system:escalation_scheduler";
  action = tier.action;
  entity_type = "Alert";
  entity_id = row.id;
  before = dict (("status", text (status_value tier.source)) ∷ []);
  after = dict (("status", text (status_value tier.target)) ∷ (tier.stamp_key, time now) ∷ []);
  correlation_id = row.correlation_id;
  created_at = now;
}

unfoldable pub escalation_payload : Tier → ℕ → Alert → Fields
escalation_payload tier now row = dict (
    ("alert_id", uuid row.id)
    ∷ ("transaction_id", uuid row.transaction_id)
    ∷ ("user_id", uuid row.user_id)
    ∷ ("status", text (status_value tier.target))
    ∷ ("severity", text (severity_value row.severity))
    ∷ (
      "composite_risk_score",
      number (record { negative = false; coefficient = row.composite_risk_score; scale = 4 }),
    )
    ∷ ("escalation_type", text tier.escalation_type)
    ∷ ("escalated_at", time now)
    ∷ [])

-- the body of the loop after the UPDATE, on the first row that it returned: a lost race does
-- nothing
unfoldable pub record_escalation : Tier → Env → ℕ → Option Alert → Database → ℕ × Database
record_escalation tier env place none db = (0, db)
record_escalation tier env place (some row) db = (
  1,
  add_outbox
      (pending_event env (place + 1) tier.event_type "processor"
        (escalation_payload tier env.now row) row.correlation_id)
      (add_audit (escalation_audit tier env.now (env.uuid4 place) row) db),
)

-- one round of the loop: how many alerts it escalated, and the database
unfoldable pub escalate : Tier → Env → ℕ → Alert → Database → ℕ × Database
unfolding record_escalation
escalate tier env place alert db =
    record_escalation tier env place
      (head? (map (tier.escalated env.now) (select (is_still tier alert.id) db.alerts)))
      (record db { alerts = update (is_still tier alert.id) (tier.escalated env.now) db.alerts })

unfoldable pub escalate_all : Tier → Env → ℕ → List Alert → Database → ℕ × Database
unfolding escalate
escalate_all tier env place [] db = (0, db)
escalate_all tier env place (alert ∷ rest) db =
    let (n, db') = escalate tier env place alert db in
    let (m, db'') = escalate_all tier env (place + 2) rest db' in (n + m, db'')

unfoldable pub run_tier : Tier → Settings → Env → (ℕ → Bool) → ℕ → Database → ℕ × Database
unfolding escalate_all due_alerts
run_tier tier settings env locked place db =
    escalate_all tier env place (due_alerts tier settings env.now locked db) db

-- `if email_escalated_count > 0 or slack_escalated_count > 0: await session.commit()`
unfoldable pub commit_if_any : Bool → ℕ → ℕ → Exec (ℕ × ℕ)
commit_if_any accepted email slack =
    if ltb 0 email || ltb 0 slack
    then (do commit accepted; pure (email, slack))
    else pure (email, slack)

-- `locked` holds of the rows that other sessions have locked.
unfoldable pub run_escalation_tick : Settings → (ℕ → Bool) → Env → Exec (ℕ × ℕ)
unfolding run_tier commit_if_any
run_escalation_tick settings locked env = do
  email ← query (λ db. run_tier email_tier settings env locked 0 db)
  execute (λ _. email.1)
  slack ← query (λ db. run_tier slack_tier settings env locked (email.0 + email.0) db)
  execute (λ _. slack.1)
  commit_if_any env.accepted email.0 slack.0
