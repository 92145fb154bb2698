-- ===== src/Shared/Events.antt =====
-- shared/events/event_types.py
use rt_financial_anomaly_det.Prelude.{String}

abbrev pub stream_transactions : String
stream_transactions = "stream:transactions"

abbrev pub stream_alerts : String
stream_alerts = "stream:alerts"

abbrev pub stream_escalations : String
stream_escalations = "stream:escalations"

abbrev pub stream_compensation : String
stream_compensation = "stream:compensation"

abbrev pub stream_dlq_prefix : String
stream_dlq_prefix = "stream:dlq"

abbrev pub cg_processor : String
cg_processor = "processor-group"

abbrev pub cg_processor_compensation : String
cg_processor_compensation = "processor-compensation-group"

abbrev pub cg_gateway_notify : String
cg_gateway_notify = "gateway-notify-group"

abbrev pub event_transaction_created : String
event_transaction_created = "transaction.created"

abbrev pub event_alert_created : String
event_alert_created = "alert.created"

abbrev pub event_alert_approved : String
event_alert_approved = "alert.approved"

abbrev pub event_alert_blocked : String
event_alert_blocked = "alert.blocked"

abbrev pub event_alert_false_positive : String
event_alert_false_positive = "alert.false_positive"

abbrev pub event_escalation_email_requested : String
event_escalation_email_requested = "escalation.email.requested"

abbrev pub event_escalation_slack_requested : String
event_escalation_slack_requested = "escalation.slack.requested"

abbrev pub event_risk_profile_recalculate : String
event_risk_profile_recalculate = "risk_profile.recalculate"

abbrev pub default_event_version : String
default_event_version = "1.0"
