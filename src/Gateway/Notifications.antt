-- ===== src/Gateway/Notifications.antt =====
-- services/gateway/consumers/notification_forwarder.py: `format_notification_message`,
-- `parse_event_envelope` and `NotificationForwarder.process_stream_message`. Parsing by pydantic is
-- the fields of `Reader`; the payload of an envelope is any JSON value, as in shared/events/envelope.py.
-- Log lines and traces are left out.
use package.text.Mathlib.Text.{starts_with}
use rt_financial_anomaly_det.Prelude.{
  ℕ, String, Bool, true, false, not, ◌&&◌, ◌||◌, Option, none, some, List, [], ◌∷◌, ◌++◌, ◌==◌,
  select, str_eq, if◌then◌else◌,
}
use rt_financial_anomaly_det.Shared.Errors.{redis_error, attribute_error}
use rt_financial_anomaly_det.Shared.Events.{
  event_alert_created, event_alert_approved, event_alert_blocked, event_alert_false_positive,
  event_escalation_email_requested, event_escalation_slack_requested,
}
use rt_financial_anomaly_det.Shared.Json.{Json, number, text, uuid, time, object, Fields, dict, get}
use rt_financial_anomaly_det.Shared.Session.{Result, ok, err}
use rt_financial_anomaly_det.Outbox.Publisher.{Delivery, delivered, refused, answer_lost}
use rt_financial_anomaly_det.Detection.Values.{TextOps, truthy}
use rt_financial_anomaly_det.Processor.Messages.{Message, first_of}
pub mod Contents
pub mod Relay
pub mod Settled
pub mod AtLeastOnce
pub mod Poison
pub mod Listener

-- `payload.get(k, default)`
unfoldable pub get_or : String → Json → Fields → Json
unfolding get
get_or k default payload = elim (get k payload) [ none ↦ default | some v ↦ v ]

-- `value or default`
unfoldable pub value_or : Option Json → Json → Json
unfolding truthy
value_or none default = default
value_or (some v) default = if truthy (some v) then v else default

-- `payload.get` raises on a value that is no dict
abbrev pub with_dict : Json → (Fields → Json) → Result Json
with_dict (object payload) f = ok (f payload)
with_dict other f = err attribute_error

module _ (ops : TextOps) (now : ℕ) where
  -- `str(payload.get("alert_id") or payload.get("id", ""))`
  unfoldable pub alert_id_of : Fields → Json
  unfolding value_or get_or
  alert_id_of payload =
      text (ops.str (value_or (get "alert_id" payload) (get_or "id" (text "") payload)))

  unfoldable pub created_message : Fields → Json
  unfolding alert_id_of value_or get_or
  created_message payload = object (
      dict (
        ("type", text "alert.created")
        ∷ (
          "alert",
          object (
              dict (
                ("id", alert_id_of payload)
                ∷ ("transaction_id", text (ops.str (get_or "transaction_id" (text "") payload)))
                ∷ ("status", get_or "status" (text "PENDING") payload)
                ∷ ("severity", get_or "severity" (text "MEDIUM") payload)
                ∷ (
                  "composite_risk_score",
                  get_or "composite_risk_score"
                      (number (record { negative = false; coefficient = 0; scale = 1 })) payload,
                )
                ∷ ("created_at", value_or (get "created_at" payload) (time now))
                ∷ [])),
        )
        ∷ []))

  abbrev pub default_status : String → String
  default_status event_type =
      if str_eq event_type event_alert_approved
      then "APPROVED"
      else if str_eq event_type event_alert_blocked
      then "BLOCKED"
      else if str_eq event_type event_alert_false_positive
      then "FALSE_POSITIVE"
      else "PENDING"

  unfoldable pub updated_message : String → Fields → Json
  unfolding alert_id_of value_or
  updated_message event_type payload = object (
      dict (
        ("type", text "alert.updated")
        ∷ (
          "alert",
          object (
              dict (
                ("id", alert_id_of payload)
                ∷ (
                  "status",
                  value_or (get "target_status" payload)
                      (value_or (get "status" payload) (text (default_status event_type))),
                )
                ∷ ("resolved_at", value_or (get "resolved_at" payload) (time now))
                ∷ [])),
        )
        ∷ []))

  unfoldable pub escalation_message : String → Fields → Json
  unfolding alert_id_of
  escalation_message level payload = object (
      dict (
        ("type", text "escalation")
        ∷ ("alert_id", alert_id_of payload)
        ∷ ("escalation_level", text level)
        ∷ []))

  -- the test of the second branch
  abbrev pub is_alert_event : String → Bool
  is_alert_event event_type =
      str_eq event_type event_alert_approved
      || str_eq event_type event_alert_blocked
      || str_eq event_type event_alert_false_positive
      || starts_with event_type "alert."

  -- it never returns None
  unfoldable pub format_notification_message : String → Json → Result Json
  unfolding created_message updated_message escalation_message
  format_notification_message event_type payload =
      if str_eq event_type event_alert_created
      then with_dict payload created_message
      else if is_alert_event event_type
      then with_dict payload (updated_message event_type)
      else if str_eq event_type event_escalation_email_requested
      then with_dict payload (escalation_message "email")
      else if str_eq event_type event_escalation_slack_requested
      then with_dict payload (escalation_message "slack")
      else ok (object (dict (("type", text event_type) ∷ ("payload", payload) ∷ [])))

-- what the forwarder reads of an `EventEnvelope`
pub record Envelope : Type 0 where
  pub event_type : String
  pub payload : Json

-- `EventEnvelope.from_json` and `from_dict`, where none is an exception
pub record Reader : Type 0 where
  pub from_json : String → Option Envelope
  pub from_dict : Json → Option Envelope

unfoldable pub envelope_of : Reader → Json → Option Envelope
envelope_of reader (text s) = reader.from_json s
envelope_of reader (uuid n) = none
envelope_of reader (time n) = none
envelope_of reader raw = reader.from_dict raw

unfoldable pub parse_event_envelope : Reader → Fields → Option Envelope
unfolding envelope_of
parse_event_envelope reader fields = envelope_of reader (
    first_of (get "event" fields) (get "envelope" fields)
      (first_of (get "data" fields) none (object fields)))

-- a pending entry of the gateway's consumer group
pub record Entry : Type 0 where
  pub stream : String
  pub message_id : ℕ

abbrev pub same_entry : Entry → Entry → Bool
same_entry e f = str_eq e.stream f.stream && e.message_id == f.message_id

-- The group's pending entries on both streams, and what was published to the channel, oldest first.
pub record World : Type 0 where
  pub pending : List Entry
  pub published : List Json

-- what the PUBLISH and the XACK of one message do
pub record Replies : Type 0 where
  pub publish : Delivery
  pub xack : Delivery

abbrev pub drop_pending : Entry → World → World
drop_pending e w = record w { pending = select (λ p. not (same_entry p e)) w.pending }

unfoldable pub acknowledge : Delivery → Entry → World → Result (Unit {0}) × World
acknowledge delivered e w = (ok tt, drop_pending e w)
acknowledge refused e w = (err redis_error, w)
acknowledge answer_lost e w = (err redis_error, drop_pending e w)

-- the PUBLISH and the XACK; a failed PUBLISH is logged, and nothing is acknowledged
unfoldable pub publish_notification :
    Delivery → Delivery → Entry → Json → World → Result (Unit {0}) × World
unfolding acknowledge
publish_notification delivered xack e notification w =
    acknowledge xack e (record w { published = w.published ++ notification ∷ [] })
publish_notification refused xack e notification w = (ok tt, w)
publish_notification answer_lost xack e notification w =
    (ok tt, record w { published = w.published ++ notification ∷ [] })

abbrev pub forward : Replies → Entry → World → Result Json → Result (Unit {0}) × World
forward replies e w (err x) = (err x, w)
forward replies e w (ok notification) =
    publish_notification replies.publish replies.xack e notification w

unfoldable pub forward_envelope :
    TextOps → ℕ → Replies → Entry → World → Option Envelope → Result (Unit {0}) × World
unfolding format_notification_message publish_notification acknowledge
forward_envelope ops now replies e w none = acknowledge replies.xack e w
forward_envelope ops now replies e w (some envelope) =
    forward replies e w (format_notification_message ops now envelope.event_type envelope.payload)

unfoldable pub process_stream_message :
    Reader → TextOps → ℕ → Replies → String → Message → World → Result (Unit {0}) × World
unfolding forward_envelope parse_event_envelope
process_stream_message reader ops now replies stream_name m w =
    forward_envelope ops now replies (record { stream = stream_name; message_id = m.message_id }) w
      (parse_event_envelope reader m.fields)
