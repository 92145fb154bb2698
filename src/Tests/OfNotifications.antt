-- ===== src/Tests/OfNotifications.antt =====
-- The theorems on the notifications of clients.
use rt_financial_anomaly_det.Prelude.{
  ℕ, ◌≡◌, refl, inr, inl, String, false, none, some, [], ◌∷◌, if◌then◌else◌, ◌==◌,
}
use rt_financial_anomaly_det.Shared.Enums.{approved}
use rt_financial_anomaly_det.Shared.Events.{stream_alerts, event_alert_approved}
use rt_financial_anomaly_det.Shared.Json.{Json, text, array, nil, object, end, dict}
use rt_financial_anomaly_det.Shared.Session.{ok}
use rt_financial_anomaly_det.Outbox.Publisher.{delivered, refused}
use rt_financial_anomaly_det.Alerts.Actions.{resolution_outbox}
use rt_financial_anomaly_det.Alerts.Escalation.{email_tier, slack_tier, escalation_payload}
use rt_financial_anomaly_det.Processor.Pipeline.{alert_outbox}
use rt_financial_anomaly_det.Gateway.Connections.{sent, raised, Sending}
use rt_financial_anomaly_det.Gateway.Notifications.{
  Reader, World, Replies, Entry, format_notification_message,
}
use rt_financial_anomaly_det.Gateway.Notifications.Contents.{
  new_alert_message, resolved_message, escalated_message, format_notification_message_contents,
}
use rt_financial_anomaly_det.Gateway.Notifications.Relay.{
  Arrival, read, reclaimed, claimed, entry_of, process_batches, process_claims,
}
use rt_financial_anomaly_det.Gateway.Notifications.AtLeastOnce.{
  PendingOrSettled, process_batches-PendingOrSettled,
}
use rt_financial_anomaly_det.Gateway.Notifications.Poison.{process_claims_poisoned}
use rt_financial_anomaly_det.Gateway.Notifications.Listener.{Incoming}
use rt_financial_anomaly_det.Tests.Data.{env_at, open_alert, resolution, ops}
use rt_financial_anomaly_det.Tests.OfDetection.{transaction, decided}

format_notification_message_contents_example :
    let created = alert_outbox (env_at 200) end transaction decided 5 in
    let resolved =
      resolution_outbox
        (env_at 200)
        (resolution approved "ana")
        5
        event_alert_approved
        open_alert in
    (format_notification_message ops 300 created.event_type (object created.payload)
      ≡ ok (new_alert_message ops 300 (env_at 200) transaction decided))
    × (format_notification_message ops 300 resolved.event_type (object resolved.payload)
        ≡ ok (resolved_message ops 300 (env_at 200) (resolution approved "ana")))
    × (format_notification_message ops 300 email_tier.event_type
          (object (escalation_payload email_tier 200 open_alert))
        ≡ ok (escalated_message ops 300 open_alert "email"))
    × (format_notification_message ops 300 slack_tier.event_type
          (object (escalation_payload slack_tier 200 open_alert))
        ≡ ok (escalated_message ops 300 open_alert "slack"))
unfolding rt_financial_anomaly_det.Alerts.Actions.resolution_event
format_notification_message_contents_example =
    format_notification_message_contents ops 300 (env_at 200) end transaction decided 5
      (resolution approved "ana") open_alert event_alert_approved refl

-- every text is the type of an alert event without content, and no dict is an envelope
abbrev reader : Reader
reader = record {
  from_json = λ s. some (record { event_type = s; payload = array nil });
  from_dict = λ raw. none;
}

abbrev arrival : ℕ → String → Replies → Arrival
arrival id event_type replies = record {
  stream = stream_alerts;
  message = record { message_id = id; fields = dict (("event", text event_type) ∷ []) };
  now = 300;
  replies = replies;
  shutting_down = false;
}

abbrev works : Replies
works = record { publish = delivered; xack = delivered }

abbrev fails : Replies
fails = record { publish = refused; xack = delivered }

abbrev quiet_world : World
quiet_world = record { pending = entry_of (arrival 1 "heartbeat" works) ∷ []; published = [] }

process_batches-PendingOrSettled_example :
    PendingOrSettled reader ops
      (entry_of (arrival 2 "heartbeat" fails))
      (read ((arrival 2 "heartbeat" fails ∷ []) ∷ [])
        ∷ reclaimed (claimed 0 (arrival 2 "heartbeat" works ∷ []) ∷ [])
        ∷ [])
      (process_batches reader ops
        (read ((arrival 2 "heartbeat" fails ∷ []) ∷ [])
          ∷ reclaimed (claimed 0 (arrival 2 "heartbeat" works ∷ []) ∷ [])
          ∷ [])
        quiet_world)
process_batches-PendingOrSettled_example =
    process_batches-PendingOrSettled reader ops
      (read ((arrival 2 "heartbeat" fails ∷ []) ∷ [])
        ∷ reclaimed (claimed 0 (arrival 2 "heartbeat" works ∷ []) ∷ [])
        ∷ [])
      quiet_world (entry_of (arrival 2 "heartbeat" fails)) (inr (inl refl))

process_claims_poisoned_example :
    process_claims reader ops
      (claimed 7 (arrival 1 "alert.reopened" works ∷ arrival 2 "heartbeat" works ∷ []) ∷ [])
      quiet_world
    ≡ quiet_world
unfolding rt_financial_anomaly_det.Gateway.Notifications.parse_event_envelope
    rt_financial_anomaly_det.Shared.Json.get
process_claims_poisoned_example =
    process_claims_poisoned reader ops (arrival 1 "alert.reopened" works)
      (arrival 2 "heartbeat" works ∷ []) [] 7 quiet_world
      (record { event_type = "alert.reopened"; payload = array nil }) refl refl refl refl refl

abbrev to_first : ℕ → Sending
to_first socket = if socket == 1 then sent else raised

abbrev incoming : Incoming
incoming = record { kind = "message"; content = some (text "{}"); send = to_first }
