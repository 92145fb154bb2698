-- ===== src/Gateway/Notifications/Contents.antt =====
-- What an analyst's client is told of the events that the pipeline, the analysts' actions and the
-- escalation scheduler write.
use rt_financial_anomaly_det.Prelude.{ℕ, String, ◌≡◌, refl, ap, subst, Option, none, some, [], ◌∷◌}
use rt_financial_anomaly_det.Shared.Enums.{
  AlertStatus, escalated_email, escalated_slack, approved, blocked, false_positive, status_value,
  severity_value,
}
use rt_financial_anomaly_det.Shared.Json.{Json, text, uuid, time, object, Fields, dict, get}
use rt_financial_anomaly_det.Shared.Models.{Alert}
use rt_financial_anomaly_det.Shared.Session.{Env, ok}
use rt_financial_anomaly_det.Alerts.Actions.{Resolution, resolution_event, resolution_outbox}
use rt_financial_anomaly_det.Alerts.Escalation.{email_tier, slack_tier, escalation_payload}
use rt_financial_anomaly_det.Detection.Schemas.{TransactionContext, DetectionResult}
use rt_financial_anomaly_det.Detection.Values.{TextOps, truthy}
use rt_financial_anomaly_det.Processor.Pipeline.{alert_outbox, score_json}
use rt_financial_anomaly_det.Gateway.Notifications.{
  get_or, value_or, alert_id_of, created_message, updated_message, escalation_message,
  format_notification_message,
}

module _ (ops : TextOps) (now : ℕ) where
  abbrev pub id_text : ℕ → Json
  id_text n = text (ops.str (uuid n))

  -- the client's message on a new alert
  abbrev pub new_alert_message : Env → TransactionContext → DetectionResult → Json
  new_alert_message env t d = object (
      dict (
        ("type", text "alert.created")
        ∷ (
          "alert",
          object (
              dict (
                ("id", id_text (env.uuid4 0))
                ∷ ("transaction_id", id_text t.id)
                ∷ ("status", text "PENDING")
                ∷ ("severity", text (severity_value d.severity))
                ∷ ("composite_risk_score", score_json d.composite_risk_score)
                ∷ ("created_at", time env.now)
                ∷ [])),
        )
        ∷ []))

  -- the client's message on a resolved alert
  abbrev pub resolved_message : Env → Resolution → Json
  resolved_message env r = object (
      dict (
        ("type", text "alert.updated")
        ∷ (
          "alert",
          object (
              dict (
                ("id", id_text r.alert_id)
                ∷ ("status", text (status_value r.target_status))
                ∷ ("resolved_at", time env.now)
                ∷ [])),
        )
        ∷ []))

  -- the client's message on an escalation
  abbrev pub escalated_message : Alert → String → Json
  escalated_message row level = object (
      dict (
        ("type", text "escalation")
        ∷ ("alert_id", id_text row.id)
        ∷ ("escalation_level", text level)
        ∷ []))

  created_contents :
      (env : Env) (carrier : Fields) (t : TransactionContext) (d : DetectionResult) (corr : ℕ)
      → let e = alert_outbox env carrier t d corr in
        format_notification_message ops now e.event_type (object e.payload)
        ≡ ok (new_alert_message env t d)
  unfolding format_notification_message alert_outbox get_or value_or get alert_id_of created_message
      truthy status_value
  created_contents env carrier t d corr = refl

  abbrev name_or_empty : Option String → String
  name_or_empty none = ""
  name_or_empty (some name) = name

  abbrev ResolvedAs : Env → Resolution → ℕ → Alert → AlertStatus → String → Type 0
  ResolvedAs env r corr row s event_type =
      let e = resolution_outbox env (record r { target_status = s }) corr event_type row in
      format_notification_message ops now e.event_type (object e.payload)
      ≡ ok (resolved_message env (record r { target_status = s }))

  resolved_as :
      (env : Env) (r : Resolution) (corr : ℕ) (row : Alert) (s : AlertStatus) (event_type : String)
      → resolution_event s ≡ some event_type
      → ResolvedAs env r corr row s event_type
  unfolding format_notification_message resolution_outbox get_or value_or get alert_id_of
      updated_message truthy resolution_event status_value
  resolved_as env r corr row AlertStatus.pending event_type h = cc
  resolved_as env r corr row escalated_email event_type h = cc
  resolved_as env r corr row escalated_slack event_type h = cc
  resolved_as env r corr row approved event_type h =
      subst (ResolvedAs env r corr row approved) (ap name_or_empty h) refl
  resolved_as env r corr row blocked event_type h =
      subst (ResolvedAs env r corr row blocked) (ap name_or_empty h) refl
  resolved_as env r corr row false_positive event_type h =
      subst (ResolvedAs env r corr row false_positive) (ap name_or_empty h) refl

  escalated_contents :
      (env : Env) (row : Alert)
      → (format_notification_message ops now email_tier.event_type
            (object (escalation_payload email_tier env.now row))
          ≡ ok (escalated_message row "email"))
        × (format_notification_message ops now slack_tier.event_type
              (object (escalation_payload slack_tier env.now row))
            ≡ ok (escalated_message row "slack"))
  unfolding format_notification_message get_or value_or get alert_id_of escalation_message truthy
      escalation_payload
  escalated_contents env row = (refl, refl)

  -- What the forwarder makes of the events that the system writes, whatever its own clock says: the
  -- event of a new alert becomes a message of type `alert.created` with the alert's id, transaction,
  -- severity and score; the event of a resolution one of type `alert.updated` with the new status
  -- and the time of the resolution; the event of an escalation one with the alert's id and level.
  pub format_notification_message_contents :
      (env : Env) (carrier : Fields) (t : TransactionContext) (d : DetectionResult) (corr : ℕ)
      (r : Resolution) (row : Alert) (event_type : String)
      → resolution_event r.target_status ≡ some event_type
      → let created = alert_outbox env carrier t d corr in
        let resolved = resolution_outbox env r corr event_type row in
        (format_notification_message ops now created.event_type (object created.payload)
          ≡ ok (new_alert_message env t d))
        × (format_notification_message ops now resolved.event_type (object resolved.payload)
            ≡ ok (resolved_message env r))
        × (format_notification_message ops now email_tier.event_type
              (object (escalation_payload email_tier env.now row))
            ≡ ok (escalated_message row "email"))
        × (format_notification_message ops now slack_tier.event_type
              (object (escalation_payload slack_tier env.now row))
            ≡ ok (escalated_message row "slack"))
  format_notification_message_contents env carrier t d corr r row event_type h = (
    created_contents env carrier t d corr,
    resolved_as env r corr row r.target_status event_type h,
    (escalated_contents env row).0,
    (escalated_contents env row).1,
  )
